-- ===== src/Machine/Tlb/Entry.antt =====
-- `TLBEntry` between its fields and the pair of words that the kernel reads and writes.
use cs16mem_model_vm.Base.{
  ℕ, ◌+◌, ◌-◌, ◌*◌, ◌/◌, ◌%◌, ◌^◌, ◌<◌, ◌≡◌, ◌∙◌, bit_or, bit_of, Bool, arith,
}
use cs16mem_model_vm.Base.Bits.{bit_or-disjoint}
use cs16mem_model_vm.Base.Words.{shl, shr, test_bit}
use cs16mem_model_vm.Machine.Tlb.{TlbEntry, from_words, hi_lo_pair}

-- The widths of the fields: what `TLBEntry(hi, lo)` can produce from two words.
pub record Fits (e : TlbEntry) : Type 0 where
  pub vpn : e.vpn < 2 ^ 20
  pub pfn : e.pfn < 2 ^ 26
  pub asid : e.asid < 2 ^ 8
  pub cc : e.cc < 2 ^ 3

pub from_words-Fits : (hi lo : ℕ) → hi < 2 ^ 32 → lo < 2 ^ 32 → Fits (from_words hi lo)
unfolding from_words
from_words-Fits hi lo p q = omega arith

-- The high word is the sum of its fields.
pub hi_word :
    (v a : ℕ) (g : Bool)
    → v < 2 ^ 20
    → a < 2 ^ 8
    → bit_or (bit_or (shl v 12) (shl (bit_of g) 11)) a ≡ v * 2 ^ 12 + bit_of g * 2 ^ 11 + a
hi_word v a g p q = ground (
  arith,
  bit_or-disjoint 12 (shl v 12) (shl (bit_of g) 11) (omega arith) (ground arith),
  bit_or-disjoint 8 (v * 2 ^ 12 + bit_of g * 2 ^ 11) a (ground arith) q,
)

pub lo_word :
    (f c : ℕ) (d v : Bool)
    → f < 2 ^ 26
    → c < 2 ^ 3
    → bit_or (bit_or (bit_or (shl f 6) (shl c 3)) (shl (bit_of d) 2)) (shl (bit_of v) 1)
      ≡ f * 2 ^ 6 + c * 2 ^ 3 + bit_of d * 2 ^ 2 + bit_of v * 2 ^ 1
lo_word f c d v p q = ground (
  arith,
  bit_or-disjoint 6 (shl f 6) (shl c 3) (omega arith) (omega arith),
  bit_or-disjoint 3 (f * 2 ^ 6 + c * 2 ^ 3) (shl (bit_of d) 2) (omega arith) (ground arith),
  bit_or-disjoint 2 (f * 2 ^ 6 + c * 2 ^ 3 + bit_of d * 2 ^ 2) (shl (bit_of v) 1) (ground arith)
      (ground arith),
)

-- Writing an entry out as two words and reading it back gives the entry.
from_words-hi_lo_pair : (e : TlbEntry) → Fits e → from_words (hi_lo_pair e).0 (hi_lo_pair e).1 ≡ e
unfolding from_words hi_lo_pair
from_words-hi_lo_pair e w =
    rw (hi_word e.vpn e.asid e.global w.vpn w.asid, lo_word e.pfn e.cc e.dirty e.valid w.pfn w.cc)
      (ground arith)

-- Reading two words as an entry and writing it out clears the bits that no field holds: 8 to 10 of
-- the high word, and 0 of the low one.
hi_lo_pair-from_words :
    (hi lo : ℕ)
    → hi < 2 ^ 32
    → lo < 2 ^ 32
    → (((hi_lo_pair (from_words hi lo)).0 ≡ hi - hi / 2 ^ 8 % 2 ^ 3 * 2 ^ 8)
        × ((hi_lo_pair (from_words hi lo)).1 ≡ lo - lo % 2))
unfolding from_words hi_lo_pair
hi_lo_pair-from_words hi lo p q = (
  hi_word (shr hi 12) (hi % 2 ^ 8) (test_bit hi 11) (omega arith) (omega arith) ∙ ground arith,
  lo_word (shr lo 6) (shr lo 3 % 2 ^ 3) (test_bit lo 2) (test_bit lo 1) (omega arith) (omega arith)
      ∙ ground arith,
)
