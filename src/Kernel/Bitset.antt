-- ===== src/Kernel/Bitset.antt =====
-- `ministl::bitset` of kernel/kstl/Bitset.h: `blocks` is the array `blocks_` of 32-bit words. `none` is
-- a failed assertion of the array's bounds check, which halts the machine.
pub mod Laws
pub mod Count
use cs16mem_model_vm.Base.{
  ℕ, zero, suc, ◌+◌, ◌-◌, ◌*◌, ◌/◌, ◌%◌, ◌^◌, Bool, true, false, not, ◌&&◌, ◌||◌, Option, none,
  some, List, [], ◌∷◌, length, get_elem?, set, replicate, bit_and, bit_or, bit_xor, ltb, leb, ◌==◌,
  if◌then◌else◌, ltb,
}
use mathlib.Core.Option.{map, bind}
use cs16mem_model_vm.Base.Words.{shl, shr, test_bit}

abbrev pub Bitset : Type 0
Bitset = List ℕ

abbrev pub bits_per_block : ℕ
bits_per_block = 32

pub num_blocks : ℕ → ℕ
num_blocks n = (n + bits_per_block - 1) / bits_per_block

-- `~` on a block.
abbrev pub complement : ℕ → ℕ
complement b = 2 ^ 32 - 1 - b

-- `1 << off`
abbrev pub bit_at : ℕ → ℕ
bit_at off = shl 1 off

pub high_mask : ℕ → ℕ
high_mask n = if n % bits_per_block == 0 then complement 0 else bit_at (n % bits_per_block) - 1

-- `reset()`, which is also what the constructor does.
unfoldable pub reset_all : ℕ → Bitset
reset_all n = replicate (num_blocks n) 0

unfoldable pub test : Bitset → ℕ → Option Bool
test bs pos = elim (get_elem? bs (pos / bits_per_block)) [
  | none ↦ none
  | some b ↦ some (test_bit b (pos % bits_per_block))
]

-- A change of the block that holds a position.
unfoldable pub change : (ℕ → ℕ) → Bitset → ℕ → Option Bitset
change f bs pos = elim (get_elem? bs (pos / bits_per_block)) [
  | none ↦ none
  | some b ↦ some (set bs (pos / bits_per_block) (f b))
]

-- `set(pos, value)`; `reset(pos)` sets false.
unfoldable pub set_bit : Bitset → ℕ → Bool → Option Bitset
set_bit bs pos true = change (λ b. bit_or b (bit_at (pos % bits_per_block))) bs pos
set_bit bs pos false = change (λ b. bit_and b (complement (bit_at (pos % bits_per_block)))) bs pos

-- `flip(pos)`
unfoldable pub flip_bit : Bitset → ℕ → Option Bitset
flip_bit bs pos = change (λ b. bit_xor b (bit_at (pos % bits_per_block))) bs pos

-- `count`: the loop `while (b) { b &= (b - 1); ++total; }` on fuel, where `none` is a
-- loop that has not ended; 32 rounds are enough for a block.
unfoldable pub count_block : (fuel b : ℕ) → Option ℕ
count_block zero b = if b == 0 then some 0 else none
count_block (suc fuel) b =
    let rest = count_block fuel (bit_and b (b - 1)) in if b == 0 then some 0 else map suc rest

unfoldable pub count : Bitset → Option ℕ
count [] = some 0
count (b ∷ bs) = bind (count_block 32 b) (λ here. map (λ total. here + total) (count bs))

unfoldable pub any : Bitset → Option Bool
any bs = map (ltb 0) (count bs)

-- `&=`, `|=` and `^=`, block by block, and `==`.
unfoldable pub combine : (ℕ → ℕ → ℕ) → Bitset → Bitset → Bitset
combine f [] cs = []
combine f (b ∷ bs) [] = b ∷ bs
combine f (b ∷ bs) (c ∷ cs) = f b c ∷ combine f bs cs

unfoldable pub and_assign : Bitset → Bitset → Bitset
and_assign = combine bit_and

unfoldable pub or_assign : Bitset → Bitset → Bitset
or_assign = combine bit_or

unfoldable pub xor_assign : Bitset → Bitset → Bitset
xor_assign = combine bit_xor

unfoldable pub equal : Bitset → Bitset → Bool
equal [] cs = true
equal (b ∷ bs) [] = true
equal (b ∷ bs) (c ∷ cs) = b == c && equal bs cs

-- `flip()` complements each block and clears the unused bits of the last one.
unfoldable pub flip_blocks : (mask : ℕ) → Bitset → Bitset
flip_blocks mask [] = []
flip_blocks mask (b ∷ []) = bit_and (complement b) mask ∷ []
flip_blocks mask (b ∷ c ∷ bs) = complement b ∷ flip_blocks mask (c ∷ bs)

unfoldable pub flip_all : ℕ → Bitset → Bitset
flip_all n bs = flip_blocks (high_mask n) bs
