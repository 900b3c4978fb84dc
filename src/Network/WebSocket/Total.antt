-- ===== src/Network/WebSocket/Total.antt =====
-- The parser of network/WebSocket.cpp on any bytes: it reads nothing behind them, and where it throws.
use cs16mem_model_vm.Base.{
  ℕ, ◌+◌, ◌%◌, ◌^◌, ◌<◌, ◌≤◌, ◌≡◌, ◌∙◌, refl, subst, Bool, true, false, if◌then◌else◌, Option, none,
  some, List, [], ◌∷◌, leb, ltb, length, arith, ◌⊎◌, inl, inr, Bool-cases,
}
use cs16mem_model_vm.Base.Words.{test_bit}
use cs16mem_model_vm.Network.WebSocket.{
  Outcome, ok, length_error, ◌>>=◌, Packet, new_packet, failed, max_size, payload_length, Key,
  mask_key, read_rest, client_to_server_packet,
}
use cs16mem_model_vm.Network.WebSocket.Parts.{AreBytes, parsed}
use cs16mem_model_vm.Network.WebSocket.Safety.{payload_length-Sized, mask_key_lem, read_payload_lem}

-- A packet that is not marked as failed holds fewer bytes than the frame.
abbrev pub Fits : List ℕ → Packet → Type 0
Fits bytes p =
    ((p.failed_parse ≡ true) × (p.payload ≡ []))
    ⊎ ((p.failed_parse ≡ false) × (length p.payload + 2 ≤ length bytes))

-- The length that a frame declares, as the parser reads it.
abbrev pub declared : List ℕ → Outcome (Option (ℕ × ℕ))
declared [] = ok none
declared (b0 ∷ []) = ok none
declared (b0 ∷ b1 ∷ rest) = payload_length (b0 ∷ b1 ∷ rest) (b1 % 2 ^ 7)

-- The size of the key that a frame has.
abbrev pub key_length : List ℕ → ℕ
key_length [] = 0
key_length (b0 ∷ []) = 0
key_length (b0 ∷ b1 ∷ rest) = if test_bit b1 7 then 4 else 0

read_rest_lem :
    (len start : ℕ) (p : Packet) (key : Key) (bytes : List ℕ)
    → AreBytes bytes
    → length bytes ≤ max_size
    → len < 2 ^ 64
    → 2 ≤ start
    → start ≤ 14
    → p.failed_parse ≡ false
    → p.payload ≡ []
    → ((q : Packet) × ((read_rest len start p key bytes ≡ ok q) × Fits bytes q))
      ⊎ ((read_rest len start p key bytes ≡ length_error) × (2 ^ 64 ≤ start + len))
unfolding read_rest
read_rest_lem len start p key bytes h fits long low high fine empty =
    elim (Bool-cases (ltb (length bytes) ((start + len) % 2 ^ 64))) [
      | inl short ↦ inl (failed p, (rw short refl, inl (refl, empty)))
      | inr f ↦
          let enough : (start + len) % 2 ^ 64 ≤ length bytes = ground (arith, f) in
          elim (Bool-cases (leb len max_size)) [
            | inl small ↦
                let len_fits : len ≤ max_size = ground (arith, small) in
                let room : start + 0 + len ≤ length bytes = omega (arith, enough, len_fits, high) in
                let (xs, (e, count)) = read_payload_lem len 0 start p.mask key bytes h room in
                inl (
                  record p { payload = xs },
                  (rw (f, small, e, ◌>>=◌) refl, inr (fine, omega (arith, count, room, low))),
                )
            | inr big ↦
                let len_large : max_size < len = ground (arith, big) in
                inr (rw (f, big, ◌>>=◌) refl, omega (arith, enough, len_large, fits, long, high))
          ]
    ]

after :
    (mask : Bool) {offset start : ℕ}
    → 2 ≤ offset
    → start ≡ offset + (if mask then 4 else 0)
    → 2 ≤ start
after mask least reached = ground (arith, least, reached)

before :
    (mask : Bool) {offset start : ℕ}
    → offset ≤ 10
    → start ≡ offset + (if mask then 4 else 0)
    → start ≤ 14
before mask low reached = ground (arith, low, reached)

cut_off :
    (b0 b1 : ℕ) (rest : List ℕ)
    → payload_length (b0 ∷ b1 ∷ rest) (b1 % 2 ^ 7) ≡ ok none
    → client_to_server_packet (b0 ∷ b1 ∷ rest)
      ≡ ok (
          failed
            (record new_packet { fin = test_bit b0 7; opcode = b0 % 2 ^ 4; mask = test_bit b1 7 }))
unfolding client_to_server_packet
cut_off b0 b1 rest e =
    let enough : ltb (length (b0 ∷ b1 ∷ rest)) 2 ≡ false = ground arith in
    rw (enough, e, ◌>>=◌) refl

no_key_left :
    (b0 b1 len offset : ℕ) (rest : List ℕ)
    → payload_length (b0 ∷ b1 ∷ rest) (b1 % 2 ^ 7) ≡ ok (some (len, offset))
    → mask_key (test_bit b1 7) (b0 ∷ b1 ∷ rest) offset ≡ ok none
    → client_to_server_packet (b0 ∷ b1 ∷ rest)
      ≡ ok (
          failed
            (record new_packet { fin = test_bit b0 7; opcode = b0 % 2 ^ 4; mask = test_bit b1 7 }))
unfolding client_to_server_packet
no_key_left b0 b1 len offset rest e k =
    let enough : ltb (length (b0 ∷ b1 ∷ rest)) 2 ≡ false = ground arith in
    rw (enough, e, k, ◌>>=◌) refl

too_short :
    (bytes : List ℕ) → length bytes < 2 → client_to_server_packet bytes ≡ ok (failed new_packet)
unfolding client_to_server_packet
too_short bytes h = let short : ltb (length bytes) 2 ≡ true = ground arith in rw short refl

-- On any bytes that a vector can hold the parser never reads behind them. It gives a packet that is
-- marked as failed and empty, or one whose payload is shorter than the frame; or `resize` throws, and
-- then the frame declares a length so near to 2^64 that its sum with the size of the header, the key
-- included, does not fit into 64 bits.
pub client_to_server_packet_lem :
    (bytes : List ℕ)
    → AreBytes bytes
    → length bytes ≤ max_size
    → ((p : Packet) × ((client_to_server_packet bytes ≡ ok p) × Fits bytes p))
      ⊎ ((client_to_server_packet bytes ≡ length_error)
          × ((len : ℕ) × ((offset : ℕ) × ((declared bytes ≡ ok (some (len, offset)))
                  × (2 ^ 64 ≤ offset + key_length bytes + len)))))
client_to_server_packet_lem [] h fits =
    inl (failed new_packet, (too_short [] (omega arith), inl (refl, refl)))
client_to_server_packet_lem (b0 ∷ []) h fits =
    inl (failed new_packet, (too_short (b0 ∷ []) (omega arith), inl (refl, refl)))
client_to_server_packet_lem (b0 ∷ b1 ∷ rest) h fits =
    let bytes = b0 ∷ b1 ∷ rest in
    let p = record new_packet { fin = test_bit b0 7; opcode = b0 % 2 ^ 4; mask = test_bit b1 7 } in
    elim (payload_length-Sized bytes (b1 % 2 ^ 7) h) [
      | inl none_left ↦ inl (failed p, (cut_off b0 b1 rest none_left, inl (refl, refl)))
      | inr (len, (offset, (e, ((least, low), small)))) ↦
          elim (mask_key_lem (test_bit b1 7) bytes offset h) [
            | inl none_left ↦
                inl (failed p, (no_key_left b0 b1 len offset rest e none_left, inl (refl, refl)))
            | inr (key, (start, (k, reached))) ↦
                elim (read_rest_lem len start p key bytes h fits small
                  (after (test_bit b1 7) least reached) (before (test_bit b1 7) low reached) refl
                  refl) [
                    | inl (q, (done, good)) ↦
                        inl (q, (parsed b0 b1 len offset start key rest e k ∙ done, good))
                    | inr (thrown, wraps) ↦ inr (
                      parsed b0 b1 len offset start key rest e k ∙ thrown,
                      (len, (offset, (e, subst (λ x. 2 ^ 64 ≤ x + len) reached wraps))),
                    )
                  ]
          ]
    ]
