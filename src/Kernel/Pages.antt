-- ===== src/Kernel/Pages.antt =====
-- The kernel's side of virtual memory in kernel/SharedResources/VirtualMemory.cpp: the two words of
-- a TLB entry, page table entries, the kernel's own page table, and the translation of an address.
pub mod Refill
pub mod KernelTable
pub mod HashTable
use cs16mem_model_vm.Base.{
  ℕ, zero, suc, ◌+◌, ◌-◌, ◌*◌, ◌/◌, ◌%◌, ◌^◌, Bool, true, false, not, ◌&&◌, ◌||◌, Option, none,
  some, List, [], ◌∷◌, get_elem?, set, bit_or, bit_of, ltb, leb, ◌==◌, if◌then◌else◌,
}
use cs16mem_model_vm.Base.Words.{shl, shr, sub32, test_bit}
use cs16mem_model_vm.Kernel.Frames.{MemoryManager, reserve_frame, free_frame}

-- `kernel::TLBEntry`
pub record TlbEntry : Type 0 where
  pub hi : ℕ
  pub lo : ℕ

-- Bits of `TLBEntry::Flags`: GLOBAL, DIRTY and VALID are the bits 0, 1 and 2.
abbrev pub valid_flag : ℕ
valid_flag = 4

-- `TLBEntry(vpn, pfn, asid, flags)`
unfoldable pub tlb_entry : (vpn pfn asid flags : ℕ) → TlbEntry
tlb_entry vpn pfn asid flags = record {
  hi = bit_or (bit_or (shl vpn 12) (shl (bit_of (test_bit flags 0)) 11)) asid;
  lo =
      bit_or (bit_or (shl pfn 6) (shl (bit_of (test_bit flags 1)) 2))
        (shl (bit_of (test_bit flags 2)) 1);
}

-- `PageTable::Entry`
pub record Entry : Type 0 where
  pub pfn : ℕ
  pub global : Bool
  pub writable : Bool
  pub user : Bool
  pub present : Bool

-- `Entry(pfn, flags)`: `present` is set by the flag USER (bit 2), as `user` is.
pub entry : (pfn flags : ℕ) → Entry
entry pfn flags = record {
  pfn = pfn;
  global = test_bit flags 7;
  writable = test_bit flags 1;
  user = test_bit flags 2;
  present = test_bit flags 2;
}

-- `Entry::toTLBEntry`: valid, and global if the page is.
unfoldable pub to_tlb_entry : Entry → (vpn asid : ℕ) → TlbEntry
to_tlb_entry e vpn asid = tlb_entry vpn e.pfn asid (bit_or valid_flag (bit_of e.global))

-- `KernelPageTable`: 64 pages from 0xC0000000 on. `none` is a failed assertion.
abbrev pub kheap_boundary : ℕ
kheap_boundary = 0xC0000000

abbrev pub kheap_pages : ℕ
kheap_pages = 64

abbrev pub kernel_entry : (pfn : ℕ) → Entry
kernel_entry pfn = record {
  pfn = pfn;
  global = true;
  writable = true;
  user = false;
  present = true;
}

-- The loop of the constructor: a frame for each page.
pub kernel_pages : (count : ℕ) → MemoryManager → Option (List Entry × MemoryManager)
kernel_pages zero m = some ([], m)
kernel_pages (suc count) m = elim (reserve_frame m) [
  | none ↦ none
  | some (paddr, m') ↦ elim (kernel_pages count m') [
    | none ↦ none
    | some (pt, m'') ↦ some (kernel_entry (shr paddr 12) ∷ pt, m'')
  ]
]

-- `KernelPageTable::walkTable`
pub walk_kernel : List Entry → (vaddr : ℕ) → Option Entry
walk_kernel pt vaddr =
    if ltb vaddr kheap_boundary
    then none
    else (if ltb (shr (vaddr - kheap_boundary) 12) kheap_pages
        then get_elem? pt (shr (vaddr - kheap_boundary) 12)
        else none)

-- `KernelPageTable::mapPTE` gives the frame of the old entry back.
unfoldable pub map_kernel :
    Entry → (vpn : ℕ) → List Entry → MemoryManager → Option (List Entry × MemoryManager)
map_kernel pte vpn pt m =
    if ltb vpn (shr kheap_boundary 12)
    then none
    else (if ltb (vpn - shr kheap_boundary 12) kheap_pages
        then (elim (get_elem? pt (vpn - shr kheap_boundary 12)) [
          | none ↦ none
          | some old ↦ elim (free_frame m (shl old.pfn 12)) [
            | none ↦ none
            | some m' ↦
                some (set pt (vpn - shr kheap_boundary 12) (record pte { global = true }), m')
          ]
        ])
        else none)

-- `AddressSpace::translate`, for what its page table answers: a missing or absent page is a failed
-- assertion.
unfoldable pub translate : (walked : Option Entry) → (vaddr asid : ℕ) → Option TlbEntry
translate none vaddr asid = none
translate (some e) vaddr asid =
    if e.present then some (to_tlb_entry e (shr vaddr 12) asid) else none
