-- ===== src/Base/BitTests.antt =====
-- A single bit of `|`, `&` and of a complement.
use Prim.Native.Nat.{ℕ, zero, suc, ◌-◌, ◌/◌, ◌%◌, ◌^◌, ◌<◌, bit_and, bit_or}
use mathlib.Core.Path.{◌≡◌, refl, ap, sym, ◌∙◌}
use mathlib.Core.Logic.{◌≢◌}
use mathlib.Core.Bool.{Bool, true, false, not, ◌&&◌, ◌||◌}
use native.Mathlib.Nat.{pow-suc, pow-succ', div-div-eq-div-mul}
use native.Mathlib.Omega.{arith}
use cs16mem_model_vm.Base.Tests.{◌==◌}
use cs16mem_model_vm.Base.Bits.{bit_or_step, bit_and_step}
use cs16mem_model_vm.Base.Words.{test_bit}

-- The bit `k` of a number, by halving.
abbrev pub bit : ℕ → ℕ → Bool
bit w zero = w % 2 == 1
bit w (suc k) = bit (w / 2) k

pub bit-bit_or : (k a b : ℕ) → bit (bit_or a b) k ≡ (bit a k || bit b k)
bit-bit_or zero a b = ground (arith, bit_or_step a b)
bit-bit_or (suc k) a b = ap (λ w. bit w k) half ∙ bit-bit_or k (a / 2) (b / 2)
  where
    half : bit_or a b / 2 ≡ bit_or (a / 2) (b / 2)
    half = omega (arith, bit_or_step a b)

pub bit-bit_and : (k a b : ℕ) → bit (bit_and a b) k ≡ (bit a k && bit b k)
bit-bit_and zero a b = ground (arith, bit_and_step a b)
bit-bit_and (suc k) a b = ap (λ w. bit w k) half ∙ bit-bit_and k (a / 2) (b / 2)
  where
    half : bit_and a b / 2 ≡ bit_and (a / 2) (b / 2)
    half = omega (arith, bit_and_step a b)

-- The complement in a word of `n` bits.
pub bit-complement : (n k w : ℕ) → k < n → w < 2 ^ n → bit (2 ^ n - 1 - w) k ≡ not (bit w k)
bit-complement zero k w h l = absurd (omega arith)
bit-complement (suc n) zero w h l = ground (arith, pow-suc 2 n)
bit-complement (suc n) (suc k) w h l =
    ap (λ v. bit v k) half ∙ bit-complement n k (w / 2) (omega arith) (omega (arith, pow-suc 2 n))
  where
    half : (2 ^ suc n - 1 - w) / 2 ≡ 2 ^ n - 1 - w / 2
    half = omega (arith, pow-suc 2 n)

-- The number with one bit.
pub bit-pow_self : (k : ℕ) → bit (2 ^ k) k ≡ true
bit-pow_self zero = refl
bit-pow_self (suc k) = ap (λ v. bit v k) half ∙ bit-pow_self k
  where
    half : 2 ^ suc k / 2 ≡ 2 ^ k
    half = omega (arith, pow-suc 2 k)

pub bit-pow_ne : (j k : ℕ) → j ≢ k → bit (2 ^ j) k ≡ false
bit-pow_ne zero zero h = absurd (h refl)
bit-pow_ne zero (suc k) h = bit-zero k
  where
    bit-zero : (k : ℕ) → bit 0 k ≡ false
    bit-zero zero = refl
    bit-zero (suc k) = bit-zero k
bit-pow_ne (suc j) zero h = ground (arith, pow-suc 2 j)
bit-pow_ne (suc j) (suc k) h = ap (λ v. bit v k) half ∙ bit-pow_ne j k (λ e. h (ap suc e))
  where
    half : 2 ^ suc j / 2 ≡ 2 ^ j
    half = omega (arith, pow-suc 2 j)

-- `bool(w & (1 << k))` is the bit `k`.
pub test_bit-bit : (k w : ℕ) → test_bit w k ≡ bit w k
test_bit-bit zero w = ground arith
test_bit-bit (suc k) w = ap (λ v. v % 2 == 1) half ∙ test_bit-bit k (w / 2)
  where
    half : w / 2 ^ suc k ≡ w / 2 / 2 ^ k
    half = ap (λ t. w / t) (pow-succ' 2 k) ∙ sym (div-div-eq-div-mul w 2 (2 ^ k))

pub pow-lt_pow : (k n : ℕ) → k < n → 2 ^ k < 2 ^ n
pow-lt_pow k zero h = absurd (omega arith)
pow-lt_pow zero (suc zero) h = omega arith
pow-lt_pow zero (suc (suc n)) h =
    omega (arith, pow-suc 2 (suc n), pow-lt_pow zero (suc n) (omega arith))
pow-lt_pow (suc k) (suc n) h = omega (arith, pow-suc 2 k, pow-suc 2 n, pow-lt_pow k n (omega arith))
