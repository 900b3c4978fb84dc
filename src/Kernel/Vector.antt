-- ===== src/Kernel/Vector.antt =====
-- `ministl::vector` of kernel/kstl/Vector.h: a buffer of slots, each raw memory or a value. A value that is
-- given to `emplace_back` is one of its own, not a reference into the vector.
pub mod Slots
pub mod Growth
pub mod Ends
pub mod Resize
pub mod Access
use cs16mem_model_vm.Base.{
  ℕ, zero, suc, ◌+◌, ◌-◌, ◌*◌, ◌%◌, ◌^◌, ◌/◌, Bool, true, false, Option, none, some, List, [], ◌∷◌,
  ltb, leb, ◌==◌, if◌then◌else◌, get_elem?, set, length, replicate, bit_or,
}
use cs16mem_model_vm.Base.Words.{shr}
use cs16mem_model_vm.Machine.Trap.{Result, ok, crash, require, ◌>>=◌, ◌>>◌}

abbrev pub default_cap : ℕ
default_cap = 8

abbrev pub growth_factor : ℕ
growth_factor = 2

-- `x |= x >> k`
abbrev pub smear : ℕ → ℕ → ℕ
smear x k = bit_or x (shr x k)

-- `roundToNearestPowOf2`
unfoldable pub round_to_pow2 : ℕ → ℕ
round_to_pow2 x =
    if x == 0 then 1 else (smear (smear (smear (smear (smear (x - 1) 1) 2) 4) 8) 16 + 1) % 2 ^ 32

pub record Vector {ℓ} (V : Type ℓ) : Type ℓ where
  pub slots : List (Option V)
  pub size : ℕ
  pub capacity : ℕ

module _ {ℓ} {V : Type ℓ} where
  abbrev pub raw : ℕ → List (Option V)
  raw n = replicate n none

  abbrev pub empty_vector : Vector V
  empty_vector = record { slots = raw default_cap; size = 0; capacity = default_cap }

  -- A value in its slot; raw memory and what is past the buffer have no meaning.
  abbrev pub value_at : List (Option V) → ℕ → Result V
  value_at slots i = elim (get_elem? slots i) [
    | none ↦ crash
    | some none ↦ crash
    | some (some v) ↦ ok v
  ]

  -- `new (_data + i) T(v)`
  abbrev pub construct_at : ℕ → V → List (Option V) → Result (List (Option V))
  construct_at i v slots = require (ltb i (length slots)) >> ok (set slots i (some v))

  abbrev pub destroy_at : ℕ → List (Option V) → Result (List (Option V))
  destroy_at i slots = value_at slots i >>= λ _. ok (set slots i none)

  -- The loop of `reserve` from `i` on: the value is moved and the old one destroyed. The buffers are
  -- the old one and the replacement.
  unfoldable pub move_slots :
      (left i : ℕ) → List (Option V) × List (Option V) → Result (List (Option V) × List (Option V))
  move_slots zero i buffers = ok buffers
  move_slots (suc left) i (old, fresh) = do
    v ← value_at old i
    fresh' ← construct_at i v fresh
    old' ← destroy_at i old
    move_slots left (i + 1) (old', fresh')

  -- The product `sizeof(T) * _capacity` is taken not to wrap: the kernel's heap is smaller than that.
  unfoldable pub reserve : ℕ → Vector V → Result (Vector V)
  reserve count v =
      let wanted = if count == 0 then 1 else count in
      if leb wanted v.capacity then ok v else (do
        let capacity = round_to_pow2 wanted
        (_, fresh) ← move_slots v.size 0 (v.slots, raw capacity)
        ok (record { slots = fresh; size = v.size; capacity = capacity }))

  unfoldable pub emplace_back : V → Vector V → Result (Vector V)
  emplace_back x v = do
    room ← (if v.size == v.capacity then reserve (v.capacity * growth_factor % 2 ^ 32) v else ok v)
    slots ← construct_at room.size x room.slots
    ok (record room { slots = slots; size = (room.size + 1) % 2 ^ 32 })

  unfoldable pub pop_back : Vector V → Result (Vector V)
  pop_back v = do
    require (ltb 0 v.size)
    slots ← destroy_at (v.size - 1) v.slots
    ok (record v { slots = slots; size = v.size - 1 })

  -- `operator[]` and `at`
  unfoldable pub at : Vector V → ℕ → Result V
  at v idx = do require (ltb idx v.size); value_at v.slots idx

  -- `_data[idx] = x` through `operator[]`
  unfoldable pub assign : ℕ → V → Vector V → Result (Vector V)
  assign idx x v = do
    require (ltb idx v.size)
    _ ← value_at v.slots idx
    ok (record v { slots = set v.slots idx (some x) })

  unfoldable pub back : Vector V → Result V
  back v = do require (ltb 0 v.size); value_at v.slots (v.size - 1)

  -- The loops of `resize(count, value)`, with a bound on their rounds.
  unfoldable pub shrink : (fuel count : ℕ) → Vector V → Result (Vector V)
  shrink zero count v = if ltb count v.size then crash else ok v
  shrink (suc fuel) count v =
      if ltb count v.size then (pop_back v >>= λ v'. shrink fuel count v') else ok v

  unfoldable pub extend : (fuel count : ℕ) → V → Vector V → Result (Vector V)
  extend zero count x v = if ltb v.size count then crash else ok v
  extend (suc fuel) count x v =
      if ltb v.size count then (emplace_back x v >>= λ v'. extend fuel count x v') else ok v

  unfoldable pub resize : (fuel count : ℕ) → V → Vector V → Result (Vector V)
  resize fuel count x v = do short ← shrink fuel count v; extend fuel count x short
