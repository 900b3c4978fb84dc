-- ===== src/Base/Bits.antt =====
-- `|` of disjoint fields and `&` with low masks, as arithmetic on the native numbers, and the
-- bounds that keep the result of a bit operation inside its word.
use Prim.Native.Nat.{ℕ, zero, suc, ◌+◌, ◌*◌, ◌/◌, ◌%◌, ◌^◌, ◌≤◌, ◌<◌, min, max}
use Prim.Native.Nat.{bit_and, bit_or, bit_xor, digits, differ}
use Prim.Native.Nat.{bit_and-bitwise, bit_or-bitwise, bit_xor-bitwise}
use mathlib.Core.Path.{◌≡◌, refl, ap, sym, subst, ◌∙◌}
use native.Mathlib.Nat.{pow-suc, div-add-mod}
use native.Mathlib.Omega.{arith}

-- The library's recursion on binary digits takes fuel; a halving needs no more than its operand.
module _ (rest : ℕ → ℕ) (join : ℕ → ℕ → ℕ) where
  digits_once_more :
      (fuel x y : ℕ) → x ≤ fuel → digits rest join (suc fuel) x y ≡ digits rest join fuel x y
  digits_once_more zero zero y enough = refl
  digits_once_more (suc fuel) zero y enough = refl
  digits_once_more zero (suc x) y enough = absurd (omega arith)
  digits_once_more (suc fuel) (suc x) y enough =
      rw (digits_once_more fuel (suc x / 2) (y / 2) (omega arith))

  digits_surplus : (extra x y : ℕ) → digits rest join (extra + x) x y ≡ digits rest join x x y
  digits_surplus zero x y = ap (λ fuel. digits rest join fuel x y) (omega arith)
  digits_surplus (suc extra) x y =
      let next : suc extra + x ≡ suc (extra + x) = omega arith in
      ap (λ fuel. digits rest join fuel x y) next
      ∙ digits_once_more (extra + x) x y (omega arith)
      ∙ digits_surplus extra x y

  -- With `x` in place of the exact fuel `suc x / 2`.
  digits_halved :
      (x y : ℕ) → digits rest join x (suc x / 2) y ≡ digits rest join (suc x / 2) (suc x / 2) y
  digits_halved x y =
      let split : x ≡ x / 2 + suc x / 2 = omega arith in
      ap (λ fuel. digits rest join fuel (suc x / 2) y) split ∙ digits_surplus (x / 2) (suc x / 2) y

pub zero-bit_or : (b : ℕ) → bit_or 0 b ≡ b
zero-bit_or b = bit_or-bitwise 0 b

pub bit_or_step : (a b : ℕ) → bit_or a b ≡ bit_or (a / 2) (b / 2) * 2 + max (a % 2) (b % 2)
bit_or_step zero b = omega (arith, zero-bit_or b, zero-bit_or (b / 2))
bit_or_step (suc a) b = omega (
  arith,
  bit_or-bitwise (suc a) b,
  bit_or-bitwise (suc a / 2) (b / 2),
  digits_halved (λ y. y) max a (b / 2),
)

-- The halving recursion is on fuel `n`, an upper bound of the first operand.
bit_or-zero_fuel : (n a : ℕ) → a ≤ n → bit_or a 0 ≡ a
bit_or-zero_fuel n zero h = refl
bit_or-zero_fuel zero (suc a) h = absurd (omega arith)
bit_or-zero_fuel (suc n) (suc a) h =
    omega (arith, bit_or_step (suc a) 0, bit_or-zero_fuel n (suc a / 2) (omega arith))

pub bit_or-zero : (a : ℕ) → bit_or a 0 ≡ a
bit_or-zero a = bit_or-zero_fuel a a (omega arith)

scale-suc : (q k : ℕ) → q * 2 ^ suc k ≡ 2 * (q * 2 ^ k)
scale-suc q k = omega (arith, ap (λ (t : ℕ). q * t) (pow-suc 2 k))

-- `(q << k) | r` is the sum of its two fields when `r` has at most `k` bits.
pub bit_or-shifted : (k q r : ℕ) → r < 2 ^ k → bit_or (q * 2 ^ k) r ≡ q * 2 ^ k + r
bit_or-shifted zero q r h = ground (arith, bit_or-zero q)
bit_or-shifted (suc k) q r h = ground (
  arith,
  bit_or_step (q * 2 ^ suc k) r,
  scale-suc q k,
  pow-suc 2 k,
  bit_or-shifted k q (r / 2) (omega (arith, pow-suc 2 k)),
)

pub bit_or-lt_pow : (k a b : ℕ) → a < 2 ^ k → b < 2 ^ k → bit_or a b < 2 ^ k
bit_or-lt_pow zero a b p q = ground (arith, bit_or-zero a)
bit_or-lt_pow (suc k) a b p q = omega (
  arith,
  bit_or_step a b,
  pow-suc 2 k,
  bit_or-lt_pow k (a / 2) (b / 2) (omega (arith, pow-suc 2 k)) (omega (arith, pow-suc 2 k)),
)

bit_or-ge_fuel : (n a b : ℕ) → a ≤ n → a ≤ bit_or a b
bit_or-ge_fuel n zero b h = omega arith
bit_or-ge_fuel zero (suc a) b h = absurd (omega arith)
bit_or-ge_fuel (suc n) (suc a) b h =
    omega (arith, bit_or_step (suc a) b, bit_or-ge_fuel n (suc a / 2) (b / 2) (omega arith))

pub bit_or-ge : (a b : ℕ) → a ≤ bit_or a b
bit_or-ge a b = bit_or-ge_fuel a a b (omega arith)

pub bit_and_step : (a b : ℕ) → bit_and a b ≡ bit_and (a / 2) (b / 2) * 2 + min (a % 2) (b % 2)
bit_and_step zero b = omega (arith, bit_and-bitwise 0 b, bit_and-bitwise 0 (b / 2))
bit_and_step (suc a) b = omega (
  arith,
  bit_and-bitwise (suc a) b,
  bit_and-bitwise (suc a / 2) (b / 2),
  digits_halved (λ y. 0) min a (b / 2),
)

pub bit_and-le_fuel : (n a b : ℕ) → a ≤ n → bit_and a b ≤ a
bit_and-le_fuel n zero b h = omega (arith, bit_and-bitwise 0 b)
bit_and-le_fuel zero (suc a) b h = absurd (omega arith)
bit_and-le_fuel (suc n) (suc a) b h =
    omega (arith, bit_and_step (suc a) b, bit_and-le_fuel n (suc a / 2) (b / 2) (omega arith))

pub bit_and-le : (a b : ℕ) → bit_and a b ≤ a
bit_and-le a b = bit_and-le_fuel a a b (omega arith)

-- The same for a number whose low `k` bits are clear.
pub bit_or-disjoint : (k x r : ℕ) → x % 2 ^ k ≡ 0 → r < 2 ^ k → bit_or x r ≡ x + r
bit_or-disjoint k x r clear h =
    let e : x ≡ x / 2 ^ k * 2 ^ k = grind (arith, div-add-mod x (2 ^ k)) in
    subst (λ t. bit_or t r ≡ t + r) (sym e) (bit_or-shifted k (x / 2 ^ k) r h)

zero-bit_xor : (b : ℕ) → bit_xor 0 b ≡ b
zero-bit_xor b = bit_xor-bitwise 0 b

differ_lem : (x y : ℕ) → x < 2 → y < 2 → differ x y ≡ (x + y) % 2
differ_lem zero y p q = omega arith
differ_lem (suc zero) zero p q = omega arith
differ_lem (suc zero) (suc zero) p q = omega arith
differ_lem (suc (suc x)) y p q = absurd (omega arith)
differ_lem (suc zero) (suc (suc y)) p q = absurd (omega arith)

pub bit_xor_step : (a b : ℕ) → bit_xor a b ≡ bit_xor (a / 2) (b / 2) * 2 + (a % 2 + b % 2) % 2
bit_xor_step zero b = omega (arith, zero-bit_xor b, zero-bit_xor (b / 2))
bit_xor_step (suc a) b = omega (
  arith,
  bit_xor-bitwise (suc a) b,
  bit_xor-bitwise (suc a / 2) (b / 2),
  digits_halved (λ y. y) differ a (b / 2),
  differ_lem (suc a % 2) (b % 2) (omega arith) (omega arith),
)

-- A second exclusive or with the same operand undoes the first.
pub bit_xor_undo : (k a b : ℕ) → a < 2 ^ k → b < 2 ^ k → bit_xor (bit_xor a b) b ≡ a
bit_xor_undo zero a b p q = ground (arith, zero-bit_xor b, zero-bit_xor 0)
bit_xor_undo (suc k) a b p q =
    let x = bit_xor a b in
    let step = bit_xor_step a b in
    let half : x / 2 ≡ bit_xor (a / 2) (b / 2) = omega (arith, step) in
    omega (
      arith,
      step,
      bit_xor_step x b,
      ap (λ h. bit_xor h (b / 2)) half,
      bit_xor_undo k (a / 2) (b / 2) (omega (arith, pow-suc 2 k)) (omega (arith, pow-suc 2 k)),
    )

pub bit_xor-lt_pow : (k a b : ℕ) → a < 2 ^ k → b < 2 ^ k → bit_xor a b < 2 ^ k
bit_xor-lt_pow zero a b p q = ground (arith, zero-bit_xor b)
bit_xor-lt_pow (suc k) a b p q = omega (
  arith,
  bit_xor_step a b,
  pow-suc 2 k,
  bit_xor-lt_pow k (a / 2) (b / 2) (omega (arith, pow-suc 2 k)) (omega (arith, pow-suc 2 k)),
)
