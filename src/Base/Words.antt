-- ===== src/Base/Words.antt =====
-- 32-bit words: shifts, single bits, sign extension, and the `int` that a word stands for.
use Prim.Native.Nat.{ℕ, ◌+◌, ◌-◌, ◌*◌, ◌/◌, ◌%◌, ◌^◌}
use mathlib.Core.Bool.{Bool}
use cs16mem_model_vm.Base.Tests.{ltb, leb, ◌==◌, if◌then◌else◌}
use cs16mem_model_vm.Base.Int.{ℤ, pos, negsuc, to_signed, of_signed}

abbrev pub word : ℕ
word = 2 ^ 32

-- `Word` shifts: to the left the word wraps. A mask of the k low bits is a remainder by 2 ^ k.
abbrev pub shl : ℕ → ℕ → ℕ
shl w k = w * 2 ^ k % 2 ^ 32

abbrev pub shr : ℕ → ℕ → ℕ
shr w k = w / 2 ^ k

-- `bool(w & (1 << k))`
abbrev pub test_bit : ℕ → ℕ → Bool
test_bit w k = shr w k % 2 == 1

-- `Word` sums and differences.
abbrev pub add32 : ℕ → ℕ → ℕ
add32 a b = (a + b) % 2 ^ 32

abbrev pub sub32 : ℕ → ℕ → ℕ
sub32 a b = (a + 2 ^ 32 - b) % 2 ^ 32

-- A `char` (signed on the hosts that the emulator is built for) or a `short` as an `int`.
abbrev pub extend8 : ℕ → ℕ
extend8 b = if ltb b (2 ^ 7) then b else b + (2 ^ 32 - 2 ^ 8)

abbrev pub extend16 : ℕ → ℕ
extend16 h = if ltb h (2 ^ 15) then h else h + (2 ^ 32 - 2 ^ 16)

-- The `int` of a word, and the word of an integer.
abbrev pub signed : ℕ → ℤ
signed = to_signed (2 ^ 31)

abbrev pub unsigned : ℤ → ℕ
unsigned = of_signed (2 ^ 32)

abbrev pub is_negative : ℕ → Bool
is_negative w = leb (2 ^ 31) w

-- Whether an integer is an `int`.
abbrev pub fits_int : ℤ → Bool
fits_int (pos n) = ltb n (2 ^ 31)
fits_int (negsuc n) = ltb n (2 ^ 31)

-- `int >> k`: the sign bit comes in from the left.
abbrev pub shift_right_arithmetic : ℕ → ℕ → ℕ
shift_right_arithmetic w k =
    if is_negative w then 2 ^ 32 - 1 - (2 ^ 32 - 1 - w) / 2 ^ k else w / 2 ^ k

-- The magnitude of an `int`, and a magnitude with a sign.
abbrev pub magnitude : ℕ → ℕ
magnitude w = if is_negative w then 2 ^ 32 - w else w

abbrev pub negate : ℕ → ℕ
negate w = (2 ^ 32 - w) % 2 ^ 32

-- C++ division of `int`s cuts towards zero, and the remainder has the sign of the dividend.
abbrev pub quotient : ℕ → ℕ → ℕ
quotient a b =
    let q = magnitude a / magnitude b in
    if is_negative a
    then (if is_negative b then q else negate q)
    else (if is_negative b then negate q else q)

abbrev pub remainder : ℕ → ℕ → ℕ
remainder a b = let r = magnitude a % magnitude b in if is_negative a then negate r else r
