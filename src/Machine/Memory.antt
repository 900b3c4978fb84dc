-- ===== src/Machine/Memory.antt =====
-- `Hardware::Memory` of machine/Memory.h and machine/Memory.cpp, and `Binary::loadBigEndian`.
pub mod Bytes
pub mod RoundTrip
use cs16mem_model_vm.Base.{
  ℕ, ◌+◌, ◌-◌, ◌*◌, ◌/◌, ◌%◌, ◌^◌, Bool, bit_or, ltb, ◌==◌, if◌then◌else◌, update,
}
use cs16mem_model_vm.Machine.Trap.{Result, ok, throw, crash, ◌>>=◌, ◌>>◌, require}
use cs16mem_model_vm.Base.Words.{shl, shr}
use cs16mem_model_vm.Machine.Tlb.{Tlb, LookupType, load, store, translate}

-- `physMem`: a byte for each address below `phys_mem_size`. The C++ leaves the first contents
-- open, and an access past the end has no meaning there: it is a crash here.
abbrev pub Memory : Type 0
Memory = ℕ → ℕ

abbrev pub phys_mem_size : ℕ
phys_mem_size = 5242880

-- The checks in front of an access of `size` bytes: the alignment that the code asserts, and the
-- end of the array.
abbrev pub accessible : (size p : ℕ) → Result (Unit {0})
accessible size p = do require (p % size == 0); require (ltb (p + (size - 1)) phys_mem_size)

-- `Binary::loadBigEndian`
unfoldable pub load_big_endian : ℕ → ℕ → ℕ → ℕ → ℕ
load_big_endian b0 b1 b2 b3 = bit_or (bit_or (bit_or (shl b0 24) (shl b1 16)) (shl b2 8)) b3

module _ (m : Memory) (tlb : Tlb) (asid addr : ℕ) where
  pub get_byte : Result ℕ
  get_byte = do p ← translate tlb addr load asid; accessible 1 p; ok (m p)

  -- `HalfWord(loc[0] << 8) | HalfWord(loc[1])`
  unfoldable pub get_half_word : Result ℕ
  get_half_word = do
    p ← translate tlb addr load asid
    accessible 2 p
    ok (bit_or (m p * 2 ^ 8 % 2 ^ 16) (m (p + 1)))

  unfoldable pub get_word : Result ℕ
  get_word = do
    p ← translate tlb addr load asid
    accessible 4 p
    ok (load_big_endian (m p) (m (p + 1)) (m (p + 2)) (m (p + 3)))

-- What the stores write, at a physical address.
pub put_byte : Memory → ℕ → ℕ → Memory
put_byte m p byte = update m p byte

unfoldable pub put_half_word : Memory → ℕ → ℕ → Memory
put_half_word m p half = update (update m p (shr half 8)) (p + 1) (half % 2 ^ 8)

unfoldable pub put_word : Memory → ℕ → ℕ → Memory
put_word m p word =
    update
      (update (update (update m p (shr word 24)) (p + 1) (shr word 16 % 2 ^ 8)) (p + 2)
        (shr word 8 % 2 ^ 8))
      (p + 3) (word % 2 ^ 8)

module _ (m : Memory) (tlb : Tlb) (asid addr value : ℕ) where
  pub set_byte : Result Memory
  set_byte = do p ← translate tlb addr store asid; accessible 1 p; ok (put_byte m p value)

  unfoldable pub set_half_word : Result Memory
  set_half_word = do p ← translate tlb addr store asid; accessible 2 p; ok (put_half_word m p value)

  unfoldable pub set_word : Result Memory
  set_word = do p ← translate tlb addr store asid; accessible 4 p; ok (put_word m p value)
