-- ===== src/Network/WebSocket.antt =====
-- The WebSocket frames of network/WebSocket.cpp. A byte is the number of its 8 bits, whatever the sign of
-- `char`; `size_t` and `uint64_t` have 64 bits.
pub mod Parts
pub mod RoundTrip
pub mod Safety
pub mod Total
use cs16mem_model_vm.Base.{
  ℕ, zero, suc, ◌+◌, ◌-◌, ◌*◌, ◌/◌, ◌%◌, ◌^◌, Bool, true, false, Option, none, some, List, [], ◌∷◌,
  leb, ltb, ◌==◌, if◌then◌else◌, get_elem?, length, bit_or, bit_xor,
}
use cs16mem_model_vm.Base.Words.{test_bit}

-- What a run of the parser does: it returns, `resize` throws, or it has read behind the bytes.
pub data Outcome {ℓ} (A : Type ℓ) : Type ℓ where
  ok : A → Outcome A
  length_error : Outcome A
  out_of_bounds : Outcome A

infixl 5 ◌>>=◌
abbrev pub ◌>>=◌ {ℓ κ} : {A : Type ℓ} {B : Type κ} → Outcome A → (A → Outcome B) → Outcome B
ok a >>= f = f a
length_error >>= f = length_error
out_of_bounds >>= f = out_of_bounds

-- `ClientToServerPacket`; the member `maskKey` is never set.
pub record Packet : Type 0 where
  pub payload : List ℕ
  pub opcode : ℕ
  pub fin : Bool
  pub mask : Bool
  pub failed_parse : Bool

abbrev pub new_packet : Packet
new_packet = record { payload = []; opcode = 0; fin = false; mask = false; failed_parse = false }

abbrev pub failed : Packet → Packet
failed p = record p { failed_parse = true }

-- `bytes[i]`: past the end it has no meaning.
abbrev pub byte_at : List ℕ → ℕ → Outcome ℕ
byte_at bytes i = elim (get_elem? bytes i) [ none ↦ out_of_bounds | some b ↦ ok b ]

-- `vector<char>::max_size`; `resize` throws above it.
abbrev pub max_size : ℕ
max_size = 2 ^ 63 - 1

-- The eight bytes of a long length.
unfoldable pub join8 : (b0 b1 b2 b3 b4 b5 b6 b7 : ℕ) → ℕ
join8 b0 b1 b2 b3 b4 b5 b6 b7 =
    bit_or
      (bit_or
        (bit_or
          (bit_or (bit_or (bit_or (bit_or (b0 * 2 ^ 56) (b1 * 2 ^ 48)) (b2 * 2 ^ 40)) (b3 * 2 ^ 32))
            (b4 * 2 ^ 24))
          (b5 * 2 ^ 16))
        (b6 * 2 ^ 8))
      b7

-- The payload's length and the offset behind it. `none`: too few bytes.
unfoldable pub payload_length : List ℕ → (tpayload : ℕ) → Outcome (Option (ℕ × ℕ))
payload_length bytes tpayload =
    if leb tpayload 125
    then ok (some (tpayload, 2))
    else if tpayload == 126
    then (if ltb (length bytes) 4
        then ok none
        else (do b2 ← byte_at bytes 2; b3 ← byte_at bytes 3; ok (some (bit_or (b2 * 2 ^ 8) b3, 4))))
    else (if ltb (length bytes) 10 then ok none else (do
      b2 ← byte_at bytes 2
      b3 ← byte_at bytes 3
      b4 ← byte_at bytes 4
      b5 ← byte_at bytes 5
      b6 ← byte_at bytes 6
      b7 ← byte_at bytes 7
      b8 ← byte_at bytes 8
      b9 ← byte_at bytes 9
      ok (some (join8 b2 b3 b4 b5 b6 b7 b8 b9, 10))))

pub record Key : Type 0 where
  pub k0 : ℕ
  pub k1 : ℕ
  pub k2 : ℕ
  pub k3 : ℕ

-- `maskKey[i % 4]`
abbrev pub key_byte : Key → ℕ → ℕ
key_byte key i =
    if i % 4 == 0
    then key.k0
    else if i % 4 == 1
    then key.k1
    else if i % 4 == 2
    then key.k2
    else key.k3

abbrev pub no_key : Key
no_key = record { k0 = 0; k1 = 0; k2 = 0; k3 = 0 }

-- The local `maskKey`, and the offset behind it.
unfoldable pub mask_key : Bool → List ℕ → (offset : ℕ) → Outcome (Option (Key × ℕ))
mask_key mask bytes offset =
    if mask
    then (if ltb (length bytes) (offset + 4) then ok none else (do
      b0 ← byte_at bytes offset
      b1 ← byte_at bytes (offset + 1)
      b2 ← byte_at bytes (offset + 2)
      b3 ← byte_at bytes (offset + 3)
      ok (some (record { k0 = b0; k1 = b1; k2 = b2; k3 = b3 }, offset + 4))))
    else ok (some (no_key, offset))

-- The loop over the payload, from `i` on.
unfoldable pub read_payload : (left i offset : ℕ) → Bool → Key → List ℕ → Outcome (List ℕ)
read_payload zero i offset mask key bytes = ok []
read_payload (suc left) i offset mask key bytes = do
  b ← byte_at bytes (offset + i)
  rest ← read_payload left (i + 1) offset mask key bytes
  ok ((if mask then bit_xor b (key_byte key i) else b) ∷ rest)

-- What follows the key: the size check, whose sum wraps, `resize`, and the loop.
unfoldable pub read_rest : (len offset : ℕ) → Packet → Key → List ℕ → Outcome Packet
read_rest len offset p key bytes =
    if ltb (length bytes) ((offset + len) % 2 ^ 64)
    then ok (failed p)
    else if leb len max_size
    then (do
      payload ← read_payload len 0 offset p.mask key bytes
      ok (record p { payload = payload }))
    else length_error

unfoldable pub client_to_server_packet : List ℕ → Outcome Packet
client_to_server_packet bytes = if ltb (length bytes) 2 then ok (failed new_packet) else (do
  b0 ← byte_at bytes 0
  b1 ← byte_at bytes 1
  let p = record new_packet { fin = test_bit b0 7; opcode = b0 % 2 ^ 4; mask = test_bit b1 7 }
  size ← payload_length bytes (b1 % 2 ^ 7)
  elim size [
    | none ↦ ok (failed p)
    | some (len, offset) ↦ do
      key ← mask_key p.mask bytes offset
      elim key [ none ↦ ok (failed p) | some (k, start) ↦ read_rest len start p k bytes ]
  ])

-- `convertToPacket`: one text frame without a mask.
unfoldable pub convert_to_packet : List ℕ → List ℕ
convert_to_packet str =
    let n = length str in
    if leb n 125
    then 129 ∷ n ∷ str
    else if leb n 65535
    then 129 ∷ 126 ∷ (n / 2 ^ 8 % 2 ^ 8) ∷ (n % 2 ^ 8) ∷ str
    else 129
      ∷ 127
      ∷ (n / 2 ^ 56 % 2 ^ 8)
      ∷ (n / 2 ^ 48 % 2 ^ 8)
      ∷ (n / 2 ^ 40 % 2 ^ 8)
      ∷ (n / 2 ^ 32 % 2 ^ 8)
      ∷ (n / 2 ^ 24 % 2 ^ 8)
      ∷ (n / 2 ^ 16 % 2 ^ 8)
      ∷ (n / 2 ^ 8 % 2 ^ 8)
      ∷ (n % 2 ^ 8)
      ∷ str
