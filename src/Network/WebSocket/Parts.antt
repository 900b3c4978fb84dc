-- ===== src/Network/WebSocket/Parts.antt =====
-- The parts of the frames of network/WebSocket.cpp as the parser reads them: the length, the key, the
-- payload with or without a mask.
use cs16mem_model_vm.Base.{
  ℕ, suc, ◌+◌, ◌*◌, ◌/◌, ◌%◌, ◌^◌, ◌<◌, ◌≤◌, ◌≡◌, ◌∙◌, ap, sym, refl, true, false, some, List, [],
  ◌∷◌, ◌++◌, leb, ltb, get_elem?, length, bit_or, bit_xor, arith,
}
use cs16mem_model_vm.Base.Bits.{bit_or-shifted, bit_or-disjoint, bit_xor_undo}
use cs16mem_model_vm.Base.Words.{test_bit}
use cs16mem_model_vm.Network.WebSocket.{
  ok, ◌>>=◌, Packet, new_packet, max_size, join8, payload_length, Key, key_byte, no_key, mask_key,
  read_payload, read_rest, client_to_server_packet,
}

-- A payload under a mask: each byte under the first of the key, which turns by one byte then.
abbrev pub turned : Key → Key
turned key = record { k0 = key.k1; k1 = key.k2; k2 = key.k3; k3 = key.k0 }

abbrev pub masked : Key → List ℕ → List ℕ
masked key [] = []
masked key (x ∷ xs) = bit_xor x key.k0 ∷ masked (turned key) xs

abbrev pub AreBytes : List ℕ → Type 0
AreBytes [] = Unit {0}
AreBytes (x ∷ xs) = (x < 2 ^ 8) × AreBytes xs

pub record IsKey (key : Key) : Type 0 where
  pub low0 : key.k0 < 2 ^ 8
  pub low1 : key.k1 < 2 ^ 8
  pub low2 : key.k2 < 2 ^ 8
  pub low3 : key.k3 < 2 ^ 8

turned-IsKey : (key : Key) → IsKey key → IsKey (turned key)
turned-IsKey key k = record { low0 = k.low1; low1 = k.low2; low2 = k.low3; low3 = k.low0 }

-- The bytes of a turned key, and those of a key that has turned `i` times.
key_byte-turned : (key : Key) (j : ℕ) → key_byte (turned key) j ≡ key_byte key (j + 1)
key_byte-turned key j = ground arith

abbrev TurnedBy : (i : ℕ) → Key → Key → Type 0
TurnedBy i key now = (j : ℕ) → key_byte key (i + j) ≡ key_byte now j

turned-TurnedBy : (i : ℕ) (key now : Key) → TurnedBy i key now → TurnedBy (i + 1) key (turned now)
turned-TurnedBy i key now h j =
    let next : i + 1 + j ≡ i + (j + 1) = omega arith in
    ap (key_byte key) next ∙ h (j + 1) ∙ sym (key_byte-turned now j)

-- The bytes from an offset on are those of a list.
abbrev pub From : (bytes : List ℕ) (offset : ℕ) (xs : List ℕ) → Type 0
From bytes offset xs = (j : ℕ) → get_elem? bytes (offset + j) ≡ get_elem? xs j

tail_From :
    (bytes : List ℕ) (offset i x : ℕ) (xs : List ℕ)
    → From bytes (offset + i) (x ∷ xs)
    → From bytes (offset + (i + 1)) xs
tail_From bytes offset i x xs h j =
    let next : offset + (i + 1) + j ≡ offset + i + suc j = omega arith in
    ap (get_elem? bytes) next ∙ h (suc j)

head_From :
    (bytes : List ℕ) (offset x : ℕ) (xs : List ℕ)
    → From bytes offset (x ∷ xs)
    → get_elem? bytes offset ≡ some x
head_From bytes offset x xs h =
    let here : offset ≡ offset + 0 = omega arith in ap (get_elem? bytes) here ∙ h 0

pub read_plain :
    (xs : List ℕ) (i offset : ℕ) (key : Key) (bytes : List ℕ)
    → From bytes (offset + i) xs
    → read_payload (length xs) i offset false key bytes ≡ ok xs
unfolding read_payload
read_plain [] i offset key bytes h = refl
read_plain (x ∷ xs) i offset key bytes h =
    rw
      (
        head_From bytes (offset + i) x xs h,
        read_plain xs (i + 1) offset key bytes (tail_From bytes offset i x xs h),
        ◌>>=◌,
      )
      refl

pub length-masked : (key : Key) (xs : List ℕ) → length (masked key xs) ≡ length xs
length-masked key [] = refl
length-masked key (x ∷ xs) = ap suc (length-masked (turned key) xs)

read_masked_from :
    (xs : List ℕ) (i offset : ℕ) (key now : Key) (bytes : List ℕ)
    → IsKey now
    → TurnedBy i key now
    → AreBytes xs
    → From bytes (offset + i) (masked now xs)
    → read_payload (length xs) i offset true key bytes ≡ ok xs
unfolding read_payload
read_masked_from [] i offset key now bytes k t b h = refl
read_masked_from (x ∷ xs) i offset key now bytes k t b h =
    let here : i ≡ i + 0 = omega arith in
    let byte : key_byte key i ≡ now.k0 = ap (key_byte key) here ∙ t 0 in
    let undo : bit_xor (bit_xor x now.k0) (key_byte key i) ≡ x =
      ap (bit_xor (bit_xor x now.k0)) byte ∙ bit_xor_undo 8 x now.k0 b.0 k.low0 in
    let rest =
      read_masked_from xs (i + 1) offset key (turned now) bytes (turned-IsKey now k)
        (turned-TurnedBy i key now t) b.1 (tail_From bytes offset i _ _ h) in
    rw (head_From bytes (offset + i) _ _ h, rest, ◌>>=◌) (ap (λ y. ok (y ∷ xs)) undo)

pub read_masked :
    (xs : List ℕ) (offset : ℕ) (key : Key) (bytes : List ℕ)
    → IsKey key
    → AreBytes xs
    → From bytes (offset + 0) (masked key xs)
    → read_payload (length xs) 0 offset true key bytes ≡ ok xs
read_masked xs offset key bytes k b h =
    read_masked_from xs 0 offset key key bytes k
      (λ j. let same : 0 + j ≡ j = omega arith in ap (key_byte key) same) b h

pub join8_sum :
    (a b c d e f g h : ℕ)
    → b < 2 ^ 8
    → c < 2 ^ 8
    → d < 2 ^ 8
    → e < 2 ^ 8
    → f < 2 ^ 8
    → g < 2 ^ 8
    → h < 2 ^ 8
    → join8 a b c d e f g h
      ≡ a * 2 ^ 56 + b * 2 ^ 48 + c * 2 ^ 40 + d * 2 ^ 32 + e * 2 ^ 24 + f * 2 ^ 16 + g * 2 ^ 8 + h
unfolding join8
join8_sum a b c d e f g h lb lc ld le lf lg lh =
    let s1 = a * 2 ^ 56 + b * 2 ^ 48 in
    let e1 : bit_or (a * 2 ^ 56) (b * 2 ^ 48) ≡ s1 =
      bit_or-disjoint 56 (a * 2 ^ 56) (b * 2 ^ 48) (omega arith) (omega (arith, lb)) in
    let s2 = s1 + c * 2 ^ 40 in
    let e2 : bit_or s1 (c * 2 ^ 40) ≡ s2 =
      bit_or-disjoint 48 s1 (c * 2 ^ 40) (omega arith) (omega (arith, lc)) in
    let s3 = s2 + d * 2 ^ 32 in
    let e3 : bit_or s2 (d * 2 ^ 32) ≡ s3 =
      bit_or-disjoint 40 s2 (d * 2 ^ 32) (omega arith) (omega (arith, ld)) in
    let s4 = s3 + e * 2 ^ 24 in
    let e4 : bit_or s3 (e * 2 ^ 24) ≡ s4 =
      bit_or-disjoint 32 s3 (e * 2 ^ 24) (omega arith) (omega (arith, le)) in
    let s5 = s4 + f * 2 ^ 16 in
    let e5 : bit_or s4 (f * 2 ^ 16) ≡ s5 =
      bit_or-disjoint 24 s4 (f * 2 ^ 16) (omega arith) (omega (arith, lf)) in
    let s6 = s5 + g * 2 ^ 8 in
    let e6 : bit_or s5 (g * 2 ^ 8) ≡ s6 =
      bit_or-disjoint 16 s5 (g * 2 ^ 8) (omega arith) (omega (arith, lg)) in
    let e7 : bit_or s6 h ≡ s6 + h = bit_or-disjoint 8 s6 h (omega arith) lh in
    rw (e1, e2, e3, e4, e5, e6) e7

join8_split :
    (n : ℕ)
    → n < 2 ^ 64
    → join8
        (n / 2 ^ 56 % 2 ^ 8)
        (n / 2 ^ 48 % 2 ^ 8)
        (n / 2 ^ 40 % 2 ^ 8)
        (n / 2 ^ 32 % 2 ^ 8)
        (n / 2 ^ 24 % 2 ^ 8)
        (n / 2 ^ 16 % 2 ^ 8)
        (n / 2 ^ 8 % 2 ^ 8)
        (n % 2 ^ 8)
      ≡ n
join8_split n h =
    join8_sum (n / 2 ^ 56 % 2 ^ 8) (n / 2 ^ 48 % 2 ^ 8) (n / 2 ^ 40 % 2 ^ 8) (n / 2 ^ 32 % 2 ^ 8)
      (n / 2 ^ 24 % 2 ^ 8) (n / 2 ^ 16 % 2 ^ 8) (n / 2 ^ 8 % 2 ^ 8) (n % 2 ^ 8) (omega arith)
      (omega arith) (omega arith) (omega arith) (omega arith) (omega arith) (omega arith)
    ∙ omega arith

-- A frame is its two first bytes, the length and the key as the code reads them, and the rest.
pub parsed :
    (b0 b1 len offset start : ℕ) (key : Key) (rest : List ℕ)
    → payload_length (b0 ∷ b1 ∷ rest) (b1 % 2 ^ 7) ≡ ok (some (len, offset))
    → mask_key (test_bit b1 7) (b0 ∷ b1 ∷ rest) offset ≡ ok (some (key, start))
    → client_to_server_packet (b0 ∷ b1 ∷ rest)
      ≡ read_rest len start
          (record new_packet { fin = test_bit b0 7; opcode = b0 % 2 ^ 4; mask = test_bit b1 7 })
          key
          (b0 ∷ b1 ∷ rest)
unfolding client_to_server_packet
parsed b0 b1 len offset start key rest e k =
    let enough : ltb (length (b0 ∷ b1 ∷ rest)) 2 ≡ false = ground arith in
    rw (enough, e, k, ◌>>=◌) refl

pub whole :
    (len start : ℕ) (p : Packet) (key : Key) (bytes xs : List ℕ)
    → length bytes ≡ start + len
    → start ≤ 14
    → len ≤ max_size
    → read_payload len 0 start p.mask key bytes ≡ ok xs
    → read_rest len start p key bytes ≡ ok (record p { payload = xs })
unfolding read_rest
whole len start p key bytes xs count low fits e =
    let complete : ltb (length bytes) ((start + len) % 2 ^ 64) ≡ false = ground (arith, count) in
    let allowed : leb len max_size ≡ true = ground arith in rw (complete, allowed, e, ◌>>=◌) refl

pub length_short : (bytes : List ℕ) (n : ℕ) → n ≤ 125 → payload_length bytes n ≡ ok (some (n, 2))
unfolding payload_length
length_short bytes n h = ground arith

pub length_medium :
    (b0 b1 n : ℕ) (rest : List ℕ)
    → n ≤ 65535
    → payload_length (b0 ∷ b1 ∷ (n / 2 ^ 8 % 2 ^ 8) ∷ (n % 2 ^ 8) ∷ rest) 126 ≡ ok (some (n, 4))
unfolding payload_length
length_medium b0 b1 n rest h =
    let enough : ltb (length (b0 ∷ b1 ∷ (n / 2 ^ 8 % 2 ^ 8) ∷ (n % 2 ^ 8) ∷ rest)) 4 ≡ false =
      ground arith in
    let joined : bit_or (n / 2 ^ 8 % 2 ^ 8 * 2 ^ 8) (n % 2 ^ 8) ≡ n =
      bit_or-shifted 8 (n / 2 ^ 8 % 2 ^ 8) (n % 2 ^ 8) (omega arith) ∙ omega arith in
    rw (enough, joined, ◌>>=◌) refl

pub length_long :
    (b0 b1 n : ℕ) (rest : List ℕ)
    → n < 2 ^ 64
    → payload_length
        (b0
          ∷ b1
          ∷ (n / 2 ^ 56 % 2 ^ 8)
          ∷ (n / 2 ^ 48 % 2 ^ 8)
          ∷ (n / 2 ^ 40 % 2 ^ 8)
          ∷ (n / 2 ^ 32 % 2 ^ 8)
          ∷ (n / 2 ^ 24 % 2 ^ 8)
          ∷ (n / 2 ^ 16 % 2 ^ 8)
          ∷ (n / 2 ^ 8 % 2 ^ 8)
          ∷ (n % 2 ^ 8)
          ∷ rest)
        127
      ≡ ok (some (n, 10))
unfolding payload_length
length_long b0 b1 n rest h =
    let enough : ltb (10 + length rest) 10 ≡ false = ground arith in
    let count : length (
          b0
          ∷ b1
          ∷ (n / 2 ^ 56 % 2 ^ 8)
          ∷ (n / 2 ^ 48 % 2 ^ 8)
          ∷ (n / 2 ^ 40 % 2 ^ 8)
          ∷ (n / 2 ^ 32 % 2 ^ 8)
          ∷ (n / 2 ^ 24 % 2 ^ 8)
          ∷ (n / 2 ^ 16 % 2 ^ 8)
          ∷ (n / 2 ^ 8 % 2 ^ 8)
          ∷ (n % 2 ^ 8)
          ∷ rest)
        ≡ 10 + length rest =
      omega arith in
    rw (count, enough, join8_split n h, ◌>>=◌) refl

pub key_at :
    (key : Key) (bytes : List ℕ) (offset : ℕ)
    → offset + 4 ≤ length bytes
    → get_elem? bytes offset ≡ some key.k0
    → get_elem? bytes (offset + 1) ≡ some key.k1
    → get_elem? bytes (offset + 2) ≡ some key.k2
    → get_elem? bytes (offset + 3) ≡ some key.k3
    → mask_key true bytes offset ≡ ok (some (key, offset + 4))
unfolding mask_key
key_at key bytes offset room e0 e1 e2 e3 =
    let enough : ltb (length bytes) (offset + 4) ≡ false = ground arith in
    rw (enough, e0, e1, e2, e3, ◌>>=◌) refl

pub no_key_at :
    (bytes : List ℕ) (offset : ℕ) → mask_key false bytes offset ≡ ok (some (no_key, offset))
unfolding mask_key
no_key_at bytes offset = refl

-- What follows a prefix of a list stands behind it.
pub behind : (before xs : List ℕ) → From (before ++ xs) (length before) xs
behind [] xs j = let here : 0 + j ≡ j = omega arith in ap (get_elem? xs) here
behind (x ∷ before) xs j =
    let next : length (x ∷ before) + j ≡ suc (length before + j) = omega arith in
    ap (get_elem? (x ∷ before ++ xs)) next ∙ behind before xs j
