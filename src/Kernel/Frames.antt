-- ===== src/Kernel/Frames.antt =====
-- `MemoryManager` of kernel/SharedResources/VirtualMemory.cpp, and the address space identifiers of
-- `AddressSpace`, which are handed out by the same scan. `none` is a failed assertion.
pub mod Laws
pub mod History
use cs16mem_model_vm.Base.{
  ℕ, zero, suc, ◌+◌, ◌-◌, ◌*◌, ◌/◌, ◌^◌, ◌≤◌, Bool, true, false, Option, none, some, ◌∷◌,
}
use cs16mem_model_vm.Base.Words.{shl, shr}
use cs16mem_model_vm.Kernel.Bitset.{Bitset, reset_all, test, set_bit}

-- `for (i = start; i < start + left; ++i) { if (bits[i]) continue; bits.set(i); ... }`, and past the
-- loop the assertion that something was free.
unfoldable pub reserve_first : (left start : ℕ) → Bitset → Option (ℕ × Bitset)
reserve_first zero i bs = none
reserve_first (suc left) i bs = elim (test bs i) [
  | none ↦ none
  | some true ↦ reserve_first left (i + 1) bs
  | some false ↦ elim (set_bit bs i true) [ none ↦ none | some bs' ↦ some (i, bs') ]
]

abbrev pub page_size : ℕ
page_size = 4096

-- `5_mb / PAGE_SIZE`
abbrev pub num_pages : ℕ
num_pages = 1280

pub record MemoryManager : Type 0 where
  pub reserved_pages : Bitset
  pub kernel_reserved_boundary : ℕ

-- The constructor; `end` is the address of `_end` in the kernel's image, from 0x80000000 on.
pub memory_manager : (end : ℕ) → MemoryManager
memory_manager end = record {
  reserved_pages = reset_all num_pages;
  kernel_reserved_boundary = ((end - 2 ^ 31) + page_size - 1) / page_size;
}

-- `reserveFrame` returns the physical address of the frame.
unfoldable pub reserve_frame : MemoryManager → Option (ℕ × MemoryManager)
reserve_frame m =
    elim (reserve_first (num_pages - m.kernel_reserved_boundary) m.kernel_reserved_boundary
      m.reserved_pages) [
        | none ↦ none
        | some (i, bs) ↦ some (shl i 12, record m { reserved_pages = bs })
      ]

-- `freeFrame`
unfoldable pub free_frame : MemoryManager → (paddr : ℕ) → Option MemoryManager
free_frame m paddr = elim (set_bit m.reserved_pages (shr paddr 12) false) [
  | none ↦ none
  | some bs ↦ some (record m { reserved_pages = bs })
]

-- `reservedASIDs`: the constructor of `AddressSpace` takes the first free one, its destructor gives it
-- back.
abbrev pub num_asids : ℕ
num_asids = 255

unfoldable pub reserve_asid : Bitset → Option (ℕ × Bitset)
reserve_asid bs = reserve_first num_asids 0 bs

unfoldable pub free_asid : Bitset → (asid : ℕ) → Option Bitset
free_asid bs asid = set_bit bs asid false
