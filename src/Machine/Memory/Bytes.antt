-- ===== src/Machine/Memory/Bytes.antt =====
-- The words of memory as big-endian sums of bytes.
use cs16mem_model_vm.Base.{ℕ, ◌+◌, ◌*◌, ◌/◌, ◌%◌, ◌^◌, ◌<◌, ◌≡◌, ◌≢◌, bit_or, arith}
use cs16mem_model_vm.Base.Bits.{bit_or-disjoint}
use cs16mem_model_vm.Base.Words.{shl}
use cs16mem_model_vm.Machine.Memory.{Memory, load_big_endian, put_half_word, put_word}

-- Four bytes read as a big-endian number.
pub load_big_endian_sum :
    (b0 b1 b2 b3 : ℕ)
    → b0 < 2 ^ 8
    → b1 < 2 ^ 8
    → b2 < 2 ^ 8
    → b3 < 2 ^ 8
    → load_big_endian b0 b1 b2 b3 ≡ b0 * 2 ^ 24 + b1 * 2 ^ 16 + b2 * 2 ^ 8 + b3
unfolding load_big_endian
load_big_endian_sum b0 b1 b2 b3 h0 h1 h2 h3 = ground (
  arith,
  bit_or-disjoint 24 (shl b0 24) (shl b1 16) (omega arith) (omega arith),
  bit_or-disjoint 16 (b0 * 2 ^ 24 + b1 * 2 ^ 16) (shl b2 8) (omega arith) (omega arith),
  bit_or-disjoint 8 (b0 * 2 ^ 24 + b1 * 2 ^ 16 + b2 * 2 ^ 8) b3 (omega arith) h3,
)

-- The bytes of a word, put together again.
pub load_big_endian_split :
    (w : ℕ)
    → w < 2 ^ 32
    → load_big_endian (w / 2 ^ 24) (w / 2 ^ 16 % 2 ^ 8) (w / 2 ^ 8 % 2 ^ 8) (w % 2 ^ 8) ≡ w
load_big_endian_split w h = omega (
  arith,
  load_big_endian_sum (w / 2 ^ 24) (w / 2 ^ 16 % 2 ^ 8) (w / 2 ^ 8 % 2 ^ 8) (w % 2 ^ 8)
      (omega arith) (omega arith) (omega arith) (omega arith),
)

pub half_split : (h : ℕ) → h < 2 ^ 16 → bit_or (h / 2 ^ 8 * 2 ^ 8 % 2 ^ 16) (h % 2 ^ 8) ≡ h
half_split h p =
    omega (
      arith,
      bit_or-disjoint 8 (h / 2 ^ 8 * 2 ^ 8 % 2 ^ 16) (h % 2 ^ 8) (omega arith) (omega arith),
    )

module _ (m : Memory) (p w : ℕ) where
  pub put_word_at :
      (put_word m p w p ≡ w / 2 ^ 24)
      × (put_word m p w (p + 1) ≡ w / 2 ^ 16 % 2 ^ 8)
      × (put_word m p w (p + 2) ≡ w / 2 ^ 8 % 2 ^ 8)
      × (put_word m p w (p + 3) ≡ w % 2 ^ 8)
  unfolding put_word
  put_word_at = ground arith

  -- A store of a word leaves every byte outside its four as it was.
  pub put_word_frame : (q : ℕ) → q ≢ p → q ≢ p + 1 → q ≢ p + 2 → q ≢ p + 3 → put_word m p w q ≡ m q
  unfolding put_word
  put_word_frame q n0 n1 n2 n3 = ground arith

  pub put_half_word_at :
      (put_half_word m p w p ≡ w / 2 ^ 8) × (put_half_word m p w (p + 1) ≡ w % 2 ^ 8)
  unfolding put_half_word
  put_half_word_at = ground arith
