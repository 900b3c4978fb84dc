-- ===== src/Network/WebSocket/RoundTrip.antt =====
-- Frames of network/WebSocket.cpp and the packets that the parser makes of them: what the server sends,
-- and what a client sends under a mask.
use cs16mem_model_vm.Base.{
  ℕ, suc, ◌+◌, ◌/◌, ◌%◌, ◌^◌, ◌≤◌, ◌≡◌, ◌∙◌, ap, refl, Bool, true, false, some, List, [], ◌∷◌, ◌++◌,
  leb, if◌then◌else◌, get_elem?, length, length-append, arith, inl, inr, Bool-cases,
}
use cs16mem_model_vm.Base.Words.{test_bit}
use cs16mem_model_vm.Network.WebSocket.{
  ok, Packet, new_packet, max_size, payload_length, Key, no_key, mask_key, read_payload,
  client_to_server_packet, convert_to_packet,
}
use cs16mem_model_vm.Network.WebSocket.Parts.{
  masked, AreBytes, IsKey, From, read_plain, read_masked, length-masked, parsed, whole,
  length_short, length_medium, length_long, key_at, no_key_at, behind,
}

-- A text message in one frame.
abbrev pub text : Bool → List ℕ → Packet
text mask str = record { payload = str; opcode = 1; fin = true; mask = mask; failed_parse = false }

abbrev long_length : ℕ → List ℕ
long_length n =
    (n / 2 ^ 56 % 2 ^ 8)
    ∷ (n / 2 ^ 48 % 2 ^ 8)
    ∷ (n / 2 ^ 40 % 2 ^ 8)
    ∷ (n / 2 ^ 32 % 2 ^ 8)
    ∷ (n / 2 ^ 24 % 2 ^ 8)
    ∷ (n / 2 ^ 16 % 2 ^ 8)
    ∷ (n / 2 ^ 8 % 2 ^ 8)
    ∷ (n % 2 ^ 8)
    ∷ []

plain :
    (b1 offset : ℕ) (rest str : List ℕ)
    → test_bit b1 7 ≡ false
    → offset ≤ 14
    → length str ≤ max_size
    → payload_length (129 ∷ b1 ∷ rest) (b1 % 2 ^ 7) ≡ ok (some (length str, offset))
    → length (129 ∷ b1 ∷ rest) ≡ offset + length str
    → From (129 ∷ b1 ∷ rest) offset str
    → client_to_server_packet (129 ∷ b1 ∷ rest) ≡ ok (text false str)
plain b1 offset rest str bare low fits size count from =
    let key : mask_key (test_bit b1 7) (129 ∷ b1 ∷ rest) offset ≡ ok (some (no_key, offset)) =
      ap (λ m. mask_key m (129 ∷ b1 ∷ rest) offset) bare ∙ no_key_at (129 ∷ b1 ∷ rest) offset in
    parsed 129 b1 (length str) offset offset no_key rest size key
    ∙ whole (length str) offset (record new_packet { fin = true; opcode = 1; mask = test_bit b1 7 })
        no_key (129 ∷ b1 ∷ rest) str count low fits
        (ap (λ m. read_payload (length str) 0 offset m no_key (129 ∷ b1 ∷ rest)) bare
          ∙ read_plain str 0 offset no_key (129 ∷ b1 ∷ rest)
              (λ j. ap (get_elem? (129 ∷ b1 ∷ rest)) (omega arith) ∙ from j))
    ∙ ap (λ m. ok (text m str)) bare

-- What the server sends, the parser reads as a text message without a mask: `convertToPacket` of any
-- string that a vector can hold, whichever of the three length fields it needs.
pub client_to_server_packet-convert_to_packet :
    (str : List ℕ)
    → length str ≤ max_size
    → client_to_server_packet (convert_to_packet str) ≡ ok (text false str)
unfolding convert_to_packet
client_to_server_packet-convert_to_packet str fits = elim (Bool-cases (leb (length str) 125)) [
  | inl t ↦
      let low : length str ≤ 125 = ground (arith, t) in
      let bare : test_bit (length str) 7 ≡ false = ground (arith, low) in
      let code : length str % 2 ^ 7 ≡ length str = omega (arith, low) in
      rw t (
        plain (length str) 2 str str bare (omega arith) fits
          (ap (payload_length (129 ∷ length str ∷ str)) code
            ∙ length_short (129 ∷ length str ∷ str) (length str) low)
          (omega arith) (behind (129 ∷ length str ∷ []) str))
  | inr f ↦ elim (Bool-cases (leb (length str) 65535)) [
    | inl t ↦
        let low : length str ≤ 65535 = ground (arith, t) in
        rw (f, t)
          (plain 126 4 _ str refl (omega arith) fits (length_medium 129 126 (length str) str low)
            (omega arith)
            (behind (129 ∷ 126 ∷ (length str / 2 ^ 8 % 2 ^ 8) ∷ (length str % 2 ^ 8) ∷ []) str))
    | inr g ↦
        rw (f, g)
          (plain 127 10 _ str refl (omega arith) fits
            (length_long 129 127 (length str) str (omega (arith, fits))) (omega arith)
            (behind (129 ∷ 127 ∷ long_length (length str)) str))
  ]
]

-- A text message as RFC 6455 has a client send it: the length with the mask bit, the key, and the payload
-- with byte after byte under the next byte of the key.
abbrev key_bytes : Key → List ℕ
key_bytes key = key.k0 ∷ key.k1 ∷ key.k2 ∷ key.k3 ∷ []

abbrev length_bytes : ℕ → List ℕ
length_bytes n =
    if leb n 125
    then (128 + n) ∷ []
    else if leb n 65535
    then 254 ∷ (n / 2 ^ 8 % 2 ^ 8) ∷ (n % 2 ^ 8) ∷ []
    else 255 ∷ long_length n

abbrev pub client_frame : Key → List ℕ → List ℕ
client_frame key str = 129 ∷ (length_bytes (length str) ++ (key_bytes key ++ masked key str))

veiled :
    (b1 : ℕ) (more : List ℕ) (key : Key) (str : List ℕ)
    → IsKey key
    → AreBytes str
    → test_bit b1 7 ≡ true
    → length (129 ∷ b1 ∷ more) ≤ 10
    → length str ≤ max_size
    → payload_length ((129 ∷ b1 ∷ more) ++ (key_bytes key ++ masked key str)) (b1 % 2 ^ 7)
      ≡ ok (some (length str, length (129 ∷ b1 ∷ more)))
    → client_to_server_packet ((129 ∷ b1 ∷ more) ++ (key_bytes key ++ masked key str))
      ≡ ok (text true str)
veiled b1 more key str k b veil low fits size =
    let before = 129 ∷ b1 ∷ more in
    let after = key_bytes key ++ masked key str in
    let bytes = before ++ after in
    let at = length before in
    let there = behind before after in
    let count : length bytes ≡ at + 4 + length str =
      omega (arith, length-append before after, length-masked key str) in
    let start : at ≡ at + 0 = omega arith in
    let found : mask_key (test_bit b1 7) bytes at ≡ ok (some (key, at + 4)) =
      ap (λ m. mask_key m bytes at) veil
      ∙ key_at key bytes at (omega (arith, count)) (ap (get_elem? bytes) start ∙ there 0) (there 1)
          (there 2) (there 3) in
    let p = record new_packet { fin = true; opcode = 1; mask = test_bit b1 7 } in
    let from : From bytes (at + 4 + 0) (masked key str) = λ j.
      let next : at + 4 + 0 + j ≡ at + suc (suc (suc (suc j))) = omega arith in
      ap (get_elem? bytes) next ∙ there (suc (suc (suc (suc j)))) in
    parsed 129 b1 (length str) at (at + 4) key (more ++ after) size found
    ∙ whole (length str) (at + 4) p key bytes str count (omega arith) fits (
        ap (λ m. read_payload (length str) 0 (at + 4) m key bytes) veil
        ∙ read_masked str (at + 4) key bytes k b from)
    ∙ ap (λ m. ok (text m str)) veil

-- What a client sends under any key, the parser reads as the message with the mask taken off: a text
-- message of any bytes that a vector can hold, whichever of the three length fields it needs.
pub client_to_server_packet-client_frame :
    (key : Key) (str : List ℕ)
    → IsKey key
    → AreBytes str
    → length str ≤ max_size
    → client_to_server_packet (client_frame key str) ≡ ok (text true str)
client_to_server_packet-client_frame key str k b fits = elim (Bool-cases (leb (length str) 125)) [
  | inl t ↦
      let low : length str ≤ 125 = ground (arith, t) in
      let n = 128 + length str in
      let veil : test_bit n 7 ≡ true = ground (arith, low) in
      let code : n % 2 ^ 7 ≡ length str = omega (arith, low) in
      let bytes = 129 ∷ n ∷ (key_bytes key ++ masked key str) in
      rw t (
        veiled n [] key str k b veil (omega arith) fits
          (ap (payload_length bytes) code ∙ length_short bytes (length str) low))
  | inr f ↦ elim (Bool-cases (leb (length str) 65535)) [
    | inl t ↦
        let low : length str ≤ 65535 = ground (arith, t) in
        rw (f, t)
          (veiled 254 ((length str / 2 ^ 8 % 2 ^ 8) ∷ (length str % 2 ^ 8) ∷ []) key str k b refl
            (omega arith) fits (length_medium 129 254 (length str) _ low))
    | inr g ↦
        rw (f, g)
          (veiled 255 (long_length (length str)) key str k b refl (omega arith) fits
            (length_long 129 255 (length str) _ (omega (arith, fits))))
  ]
]
