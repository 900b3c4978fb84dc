-- ===== src/Kernel/Pages/Refill.antt =====
-- The refill of the TLB on a miss, by `AddressSpace::translate` of
-- kernel/SharedResources/VirtualMemory.cpp and `TLB::translate` of machine/Memory.cpp.
use cs16mem_model_vm.Base.{
  ℕ, ◌+◌, ◌*◌, ◌%◌, ◌^◌, ◌<◌, ◌≡◌, refl, sym, ap, ◌∙◌, inl, inr, Bool, true, false, Bool-cases,
  length, set, bit_or, bit_of, some, some-injective, arith,
}
use cs16mem_model_vm.Base.Bits.{bit_or-zero, bit_or-disjoint}
use cs16mem_model_vm.Base.Words.{shl, shr}
use cs16mem_model_vm.Machine.Trap.{ok}
use cs16mem_model_vm.Machine.Tlb
use cs16mem_model_vm.Machine.Tlb.{Tlb, LookupType, from_words, lookup, is_direct, skips}
use cs16mem_model_vm.Machine.Tlb.Entry.{hi_word}
use cs16mem_model_vm.Machine.Tlb.Lookup.{NoneAnswers, lookup-set, translate-lookup}
use cs16mem_model_vm.Kernel.Pages.{TlbEntry, tlb_entry, Entry, to_tlb_entry, translate}

lo_sum : (f : ℕ) → f < 2 ^ 26 → bit_or (bit_or (shl f 6) 0) 2 ≡ f * 2 ^ 6 + 2
lo_sum f h =
    ground (arith, bit_or-zero (shl f 6), bit_or-disjoint 6 (shl f 6) 2 (omega arith) (omega arith))

-- The two words of a page's entry, as sums of their fields.
words_of :
    (vpn pfn asid : ℕ) (g : Bool)
    → vpn < 2 ^ 20
    → pfn < 2 ^ 26
    → asid < 2 ^ 8
    → ((tlb_entry vpn pfn asid (bit_or 4 (bit_of g))).hi ≡ vpn * 2 ^ 12 + bit_of g * 2 ^ 11 + asid)
      × ((tlb_entry vpn pfn asid (bit_or 4 (bit_of g))).lo ≡ pfn * 2 ^ 6 + 2)
unfolding tlb_entry
words_of vpn pfn asid true hv hp ha = (hi_word vpn asid true hv ha, lo_sum pfn hp)
words_of vpn pfn asid false hv hp ha = (hi_word vpn asid false hv ha, lo_sum pfn hp)

-- The machine reads the kernel's pair of words as the mapping that the page table holds.
from_words-to_tlb_entry :
    (e : Entry) (vpn asid : ℕ)
    → vpn < 2 ^ 20
    → e.pfn < 2 ^ 26
    → asid < 2 ^ 8
    → from_words (to_tlb_entry e vpn asid).hi (to_tlb_entry e vpn asid).lo ≡ record {
      vpn = vpn;
      pfn = e.pfn;
      global = e.global;
      dirty = false;
      valid = true;
      asid = asid;
      cc = 0;
    }
unfolding from_words to_tlb_entry
from_words-to_tlb_entry e vpn asid hv hp ha =
    let (h, l) = words_of vpn e.pfn asid e.global hv hp ha in
    rw (to_tlb_entry, h, l) (ground (arith, hv, hp, ha))

abbrev mapping : Entry → (vaddr asid : ℕ) → Tlb.TlbEntry
mapping e vaddr asid = record {
  vpn = shr vaddr 12;
  pfn = e.pfn;
  global = e.global;
  dirty = false;
  valid = true;
  asid = asid;
  cc = 0;
}

-- The refill of a miss: no entry of the TLB answers the address, the page table walk gives the entry
-- `e`, and its words are written to the slot `i`. Then the machine translates the address, for loads
-- and for stores, to the frame of `e`.
pub refill_translates :
    (tlb : Tlb) (i vaddr asid : ℕ) (type : LookupType) (e : Entry) (w : TlbEntry)
    → i < length tlb
    → vaddr < 2 ^ 32
    → e.pfn < 2 ^ 26
    → asid < 2 ^ 8
    → is_direct vaddr ≡ false
    → NoneAnswers vaddr asid tlb
    → translate (some e) vaddr asid ≡ some w
    → Tlb.translate (set tlb i (from_words w.hi w.lo)) vaddr type asid
      ≡ ok (e.pfn % 2 ^ 20 * 2 ^ 12 + vaddr % 2 ^ 12)
unfolding translate to_tlb_entry
refill_translates tlb i vaddr asid type e w h hv hp ha d n t = elim (Bool-cases e.present) [
  | inl p ↦
      let same : to_tlb_entry e (shr vaddr 12) asid ≡ w = some-injective _ _ (rw p at t) in
      let read =
        ap (λ (x : TlbEntry). from_words x.hi x.lo) (sym same)
        ∙ from_words-to_tlb_entry e (shr vaddr 12) asid (omega arith) hp ha in
      rw read (
        translate-lookup _ vaddr type asid (mapping e vaddr asid) d
          (lookup-set tlb i vaddr asid type (mapping e vaddr asid) h n (refl, refl, inl refl)))
  | inr q ↦ absurd (ground (arith, q, t))
]
