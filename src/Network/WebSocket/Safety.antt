-- ===== src/Network/WebSocket/Safety.antt =====
-- The reads of the parser of network/WebSocket.cpp on any bytes.
use cs16mem_model_vm.Base.{
  ℕ, zero, suc, ◌+◌, ◌*◌, ◌^◌, ◌<◌, ◌≤◌, ◌≡◌, ap, sym, refl, subst, Bool, true, false, none, some,
  List, [], ◌∷◌, leb, ltb, ◌==◌, if◌then◌else◌, length, bit_or, bit_xor, arith, ◌⊎◌, inl, inr,
  Bool-cases,
}
use cs16mem_model_vm.Base.Bits.{bit_or-shifted}
use cs16mem_model_vm.Network.WebSocket.{
  ok, ◌>>=◌, byte_at, join8, payload_length, Key, key_byte, no_key, mask_key, read_payload,
}
use cs16mem_model_vm.Network.WebSocket.Parts.{AreBytes, join8_sum}

byte_at_lem :
    (bytes : List ℕ) (i : ℕ)
    → AreBytes bytes
    → i < length bytes
    → (b : ℕ) × ((byte_at bytes i ≡ ok b) × (b < 2 ^ 8))
byte_at_lem [] i h k = absurd (omega arith)
byte_at_lem (x ∷ xs) zero h k = (x, (refl, h.0))
byte_at_lem (x ∷ xs) (suc i) h k = byte_at_lem xs i h.1 (omega arith)

-- What the length field gives: nothing when it is cut off, else a length of 64 bits.
abbrev pub Sized : List ℕ → ℕ → Type 0
Sized bytes t =
    (payload_length bytes t ≡ ok none)
    ⊎ ((len : ℕ) × ((offset : ℕ) × ((payload_length bytes t ≡ ok (some (len, offset)))
            × (((2 ≤ offset) × (offset ≤ 10)) × (len < 2 ^ 64)))))

medium_Sized : (bytes : List ℕ) → AreBytes bytes → Sized bytes 126
unfolding payload_length
medium_Sized bytes h = elim (Bool-cases (ltb (length bytes) 4)) [
  | inl short ↦ inl (rw short refl)
  | inr f ↦
      let enough : 4 ≤ length bytes = ground (arith, f) in
      let (b2, (e2, l2)) = byte_at_lem bytes 2 h (omega (arith, enough)) in
      let (b3, (e3, l3)) = byte_at_lem bytes 3 h (omega (arith, enough)) in
      let small : bit_or (b2 * 2 ^ 8) b3 < 2 ^ 64 =
        omega (arith, bit_or-shifted 8 b2 b3 l3, l2, l3) in
      inr (
        bit_or (b2 * 2 ^ 8) b3,
        (4, (rw (f, e2, e3, ◌>>=◌) refl, ((omega arith, omega arith), small))),
      )
]

long_Sized :
    (bytes : List ℕ) (t : ℕ)
    → AreBytes bytes
    → leb t 125 ≡ false
    → (t == 126) ≡ false
    → Sized bytes t
unfolding payload_length
long_Sized bytes t h not_short not_medium = elim (Bool-cases (ltb (length bytes) 10)) [
  | inl short ↦ inl (rw (not_short, not_medium, short) refl)
  | inr f ↦
      let enough : 10 ≤ length bytes = ground (arith, f) in
      let (b2, (e2, l2)) = byte_at_lem bytes 2 h (omega (arith, enough)) in
      let (b3, (e3, l3)) = byte_at_lem bytes 3 h (omega (arith, enough)) in
      let (b4, (e4, l4)) = byte_at_lem bytes 4 h (omega (arith, enough)) in
      let (b5, (e5, l5)) = byte_at_lem bytes 5 h (omega (arith, enough)) in
      let (b6, (e6, l6)) = byte_at_lem bytes 6 h (omega (arith, enough)) in
      let (b7, (e7, l7)) = byte_at_lem bytes 7 h (omega (arith, enough)) in
      let (b8, (e8, l8)) = byte_at_lem bytes 8 h (omega (arith, enough)) in
      let (b9, (e9, l9)) = byte_at_lem bytes 9 h (omega (arith, enough)) in
      let small : join8 b2 b3 b4 b5 b6 b7 b8 b9 < 2 ^ 64 = omega (
        arith,
        join8_sum b2 b3 b4 b5 b6 b7 b8 b9 l3 l4 l5 l6 l7 l8 l9,
        l2,
        l3,
        l4,
        l5,
        l6,
        l7,
        l8,
        l9,
      ) in
      inr (
        join8 b2 b3 b4 b5 b6 b7 b8 b9,
        (
          10,
          (
            rw (not_short, not_medium, f, e2, e3, e4, e5, e6, e7, e8, e9, ◌>>=◌) refl,
            ((omega arith, omega arith), small),
          ),
        ),
      )
]

pub payload_length-Sized : (bytes : List ℕ) (t : ℕ) → AreBytes bytes → Sized bytes t
unfolding payload_length
payload_length-Sized bytes t h = elim (Bool-cases (leb t 125)) [
  | inl short ↦ inr (t, (2, (rw short refl, ((omega arith, omega arith), ground (arith, short)))))
  | inr f ↦ elim (Bool-cases (t == 126)) [
    | inl medium ↦
        let e : t ≡ 126 = ground (arith, medium) in
        subst (Sized bytes) (sym e) (medium_Sized bytes h)
    | inr g ↦ long_Sized bytes t h f g
  ]
]

pub mask_key_lem :
    (mask : Bool) (bytes : List ℕ) (offset : ℕ)
    → AreBytes bytes
    → (mask_key mask bytes offset ≡ ok none)
      ⊎ ((key : Key) × ((start : ℕ) × ((mask_key mask bytes offset ≡ ok (some (key, start)))
              × (start ≡ offset + (if mask then 4 else 0)))))
unfolding mask_key
mask_key_lem false bytes offset h = inr (no_key, (offset, (refl, omega arith)))
mask_key_lem true bytes offset h = elim (Bool-cases (ltb (length bytes) (offset + 4))) [
  | inl short ↦ inl (rw short refl)
  | inr f ↦
      let enough : offset + 4 ≤ length bytes = ground (arith, f) in
      let (b0, (e0, _)) = byte_at_lem bytes offset h (omega (arith, enough)) in
      let (b1, (e1, _)) = byte_at_lem bytes (offset + 1) h (omega (arith, enough)) in
      let (b2, (e2, _)) = byte_at_lem bytes (offset + 2) h (omega (arith, enough)) in
      let (b3, (e3, _)) = byte_at_lem bytes (offset + 3) h (omega (arith, enough)) in
      inr (
        record { k0 = b0; k1 = b1; k2 = b2; k3 = b3 },
        (offset + 4, (rw (f, e0, e1, e2, e3, ◌>>=◌) refl, refl)),
      )
]

pub read_payload_lem :
    (left i offset : ℕ) (mask : Bool) (key : Key) (bytes : List ℕ)
    → AreBytes bytes
    → offset + i + left ≤ length bytes
    → (xs : List ℕ) × ((read_payload left i offset mask key bytes ≡ ok xs) × (length xs ≡ left))
unfolding read_payload
read_payload_lem zero i offset mask key bytes h room = ([], (refl, refl))
read_payload_lem (suc left) i offset mask key bytes h room =
    let (b, (e, _)) = byte_at_lem bytes (offset + i) h (omega (arith, room)) in
    let (xs, (es, count)) =
      read_payload_lem left (i + 1) offset mask key bytes h (omega (arith, room)) in
    ((if mask then bit_xor b (key_byte key i) else b) ∷ xs, (rw (e, es, ◌>>=◌) refl, ap suc count))
