-- ===== src/Kernel/Bitset/Count.antt =====
-- `bitset::count` of kernel/kstl/Bitset.h, against the number of ones.
use cs16mem_model_vm.Base.{
  ℕ, zero, suc, ◌+◌, ◌-◌, ◌/◌, ◌%◌, ◌^◌, ◌<◌, ◌≤◌, ◌≡◌, refl, sym, ap, ◌∙◌, [], ◌∷◌, bit_and, ◌==◌,
  false, ℕ_discrete, arith, some,
}
use native.Mathlib.Nat.{pow-suc}
use cs16mem_model_vm.Base.Bits.{bit_and_step, bit_and-le}
use cs16mem_model_vm.Kernel.Bitset.{Bitset, count_block, count}

-- The ones among the `n` low bits.
abbrev pub ones : (n b : ℕ) → ℕ
ones zero b = 0
ones (suc n) b = b % 2 + ones n (b / 2)

abbrev pub all_ones : Bitset → ℕ
all_ones [] = 0
all_ones (b ∷ bs) = ones 32 b + all_ones bs

abbrev pub Words : Bitset → Type 0
Words [] = Unit {0}
Words (b ∷ bs) = (b < 2 ^ 32) × Words bs

ones-le : (n b : ℕ) → ones n b ≤ n
ones-le zero b = omega arith
ones-le (suc n) b = omega (arith, ones-le n (b / 2))

ones-zero : (n : ℕ) → ones n 0 ≡ 0
ones-zero zero = refl
ones-zero (suc n) = omega (arith, ones-zero n)

half_and : (b c : ℕ) → bit_and b c / 2 ≡ bit_and (b / 2) (c / 2)
half_and b c = omega (arith, bit_and_step b c)

low_and : (b c : ℕ) → b % 2 ≤ c % 2 → bit_and b c % 2 ≡ b % 2
low_and b c h = omega (arith, bit_and_step b c)

ones_self : (n b : ℕ) → ones n (bit_and b b) ≡ ones n b
ones_self zero b = refl
ones_self (suc n) b =
    omega (arith, low_and b b (omega arith), ap (ones n) (half_and b b), ones_self n (b / 2))

-- `b & (b - 1)` has one bit less than `b`.
clear_lowest : (n b : ℕ) → 0 < b → b < 2 ^ n → ones n (bit_and b (b - 1)) + 1 ≡ ones n b
clear_lowest zero b h l = absurd (omega arith)
clear_lowest (suc n) b h l = elim (ℕ_discrete (b % 2) 1) [
  | yes odd ↦
      let low : bit_and b (b - 1) % 2 ≡ 0 = omega (arith, bit_and_step b (b - 1)) in
      let same : (b - 1) / 2 ≡ b / 2 = omega arith in
      omega (
        arith,
        low,
        ap (ones n) (half_and b (b - 1) ∙ ap (bit_and (b / 2)) same),
        ones_self n (b / 2),
      )
  | no even ↦
      let low : bit_and b (b - 1) % 2 ≡ 0 = omega (arith, bit_and_step b (b - 1)) in
      let less : (b - 1) / 2 ≡ b / 2 - 1 = omega arith in
      omega (
        arith,
        low,
        ap (ones n) (half_and b (b - 1) ∙ ap (bit_and (b / 2)) less),
        clear_lowest n (b / 2) (omega arith) (omega (arith, pow-suc 2 n)),
      )
]

count_block_fuel :
    (n fuel b : ℕ) → b < 2 ^ n → ones n b ≤ fuel → count_block fuel b ≡ some (ones n b)
unfolding count_block
count_block_fuel n zero b l f = elim (ℕ_discrete b 0) [
  | yes e ↦ rw e (ap some (sym (ones-zero n)))
  | no ne ↦ absurd (omega (arith, clear_lowest n b (omega arith) l))
]
count_block_fuel n (suc fuel) b l f = elim (ℕ_discrete b 0) [
  | yes e ↦ rw e (ap some (sym (ones-zero n)))
  | no ne ↦
      let less = clear_lowest n b (omega arith) l in
      let some_bit : (b == 0) ≡ false = ground arith in
      let rest =
        count_block_fuel n fuel (bit_and b (b - 1)) (omega (arith, bit_and-le b (b - 1)))
          (omega arith) in
      let total : suc (ones n (bit_and b (b - 1))) ≡ ones n b = omega arith in
      rw (some_bit, rest) (ap some total)
]

-- `count` ends, with at most 32 rounds of its loop on each block, and gives the number of ones, for
-- blocks that are words.
pub count_lem : (bs : Bitset) → Words bs → count bs ≡ some (all_ones bs)
unfolding count mathlib.Core.Option.bind
count_lem [] w = refl
count_lem (b ∷ bs) w = rw (count_block_fuel 32 32 b w.0 (ones-le 32 b), count_lem bs w.1) refl
