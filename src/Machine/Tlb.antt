-- ===== src/Machine/Tlb.antt =====
-- `Hardware::TLBEntry` and `Hardware::TLB` of machine/Memory.h and machine/Memory.cpp.
pub mod Entry
pub mod Lookup
use cs16mem_model_vm.Base.{
  ℕ, ◌+◌, ◌-◌, ◌*◌, ◌/◌, ◌%◌, ◌^◌, Bool, true, false, ◌&&◌, ◌||◌, not, List, [], ◌∷◌, bit_or, ltb,
  leb, ◌==◌, if◌then◌else◌, bit_of,
}
use cs16mem_model_vm.Base.Words.{shl, shr, test_bit}
use cs16mem_model_vm.Machine.Trap.{ExceptionCode, Result, ok, throw, ◌>>=◌}

pub record TlbEntry : Type 0 where
  pub vpn : ℕ
  pub pfn : ℕ
  pub global : Bool
  pub dirty : Bool
  pub valid : Bool
  pub asid : ℕ
  pub cc : ℕ

-- `TLBEntry()`
abbrev pub empty_entry : TlbEntry
empty_entry = record {
  vpn = 0;
  pfn = 0;
  global = false;
  dirty = false;
  valid = false;
  asid = 0;
  cc = 0;
}

-- `TLBEntry(hi, lo)`
unfoldable pub from_words : ℕ → ℕ → TlbEntry
from_words hi lo = record {
  vpn = shr hi 12;
  pfn = shr lo 6;
  global = test_bit hi 11;
  dirty = test_bit lo 2;
  valid = test_bit lo 1;
  asid = hi % 2 ^ 8;
  cc = shr lo 3 % 2 ^ 3;
}

pub hi_lo_pair : TlbEntry → ℕ × ℕ
hi_lo_pair e = (
  bit_or (bit_or (shl e.vpn 12) (shl (bit_of e.global) 11)) e.asid,
  bit_or (bit_or (bit_or (shl e.pfn 6) (shl e.cc 3)) (shl (bit_of e.dirty) 2))
      (shl (bit_of e.valid) 1),
)

-- `TLB::LookupType`
pub data LookupType : Type 0 where
  load store : LookupType

-- `tlbEntries`: an array of `tlb_entries` entries.
abbrev pub Tlb : Type 0
Tlb = List TlbEntry

abbrev pub tlb_entries : ℕ
tlb_entries = 64

-- The test of `lookup`'s loop, as the code writes it: true if the entry is passed over.
abbrev pub skips : (vpn asid : ℕ) → TlbEntry → Bool
skips vpn asid e = not (vpn == e.vpn) || not e.valid || (not (e.asid == asid) && not e.global)

abbrev pub miss : LookupType → ExceptionCode
miss load = ExceptionCode.tlb_l
miss store = ExceptionCode.tlb_s

-- `TLB::lookup`: the list is what the loop has not yet seen.
unfoldable pub lookup : Tlb → ℕ → LookupType → ℕ → Result TlbEntry
lookup [] vaddr type asid = throw (record { code = miss type; bad_addr = vaddr })
lookup (e ∷ es) vaddr type asid =
    let rest = lookup es vaddr type asid in if skips (shr vaddr 12) asid e then rest else ok e

-- The addresses that map directly to physical memory.
abbrev pub is_direct : ℕ → Bool
is_direct vaddr = leb 0x80000000 vaddr && ltb vaddr 0xC0000000

unfoldable pub translate : Tlb → ℕ → LookupType → ℕ → Result ℕ
translate tlb vaddr type asid =
    if is_direct vaddr
    then ok (vaddr - 0x80000000)
    else (do e ← lookup tlb vaddr type asid; ok (bit_or (shl e.pfn 12) (vaddr % 2 ^ 12)))
