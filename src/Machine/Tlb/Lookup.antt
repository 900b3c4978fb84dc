-- ===== src/Machine/Tlb/Lookup.antt =====
-- `TLB::lookup` against the first entry that answers an address, and what `TLB::translate` makes
-- of it.
use cs16mem_model_vm.Base.{
  ℕ, zero, suc, ap, length, set, ◌+◌, ◌-◌, ◌*◌, ◌%◌, ◌^◌, ◌≤◌, ◌<◌, ◌≡◌, refl, ◌⊎◌, inl, inr,
  Bool-cases, true, false, [], ◌∷◌, ◌++◌, arith, bit_or,
}
use cs16mem_model_vm.Base.Bits.{bit_or-disjoint}
use cs16mem_model_vm.Machine.Trap.{ExceptionCode, Result, ok, throw, >>=-eq-ok}
use cs16mem_model_vm.Base.Words.{shl, shr}
use cs16mem_model_vm.Machine.Tlb.{
  TlbEntry, Tlb, LookupType, load, store, lookup, translate, skips, is_direct,
}

-- The entry answers the address for the address space: a valid mapping of its page that is global
-- or belongs to `asid`.
abbrev pub Answers : (vaddr asid : ℕ) → TlbEntry → Type 0
Answers vaddr asid e =
    (shr vaddr 12 ≡ e.vpn) × (e.valid ≡ true) × ((e.asid ≡ asid) ⊎ (e.global ≡ true))

abbrev pub NoneAnswers : (vaddr asid : ℕ) → Tlb → Type 0
NoneAnswers vaddr asid [] = Unit {0}
NoneAnswers vaddr asid (e ∷ es) = (¬ Answers vaddr asid e) × NoneAnswers vaddr asid es

-- The test of the loop is the negation of `Answers`.
skips-Answers :
    (vaddr asid : ℕ) (e : TlbEntry) → skips (shr vaddr 12) asid e ≡ false → Answers vaddr asid e
skips-Answers vaddr asid e h = ground arith

Answers-skips :
    (vaddr asid : ℕ) (e : TlbEntry) → Answers vaddr asid e → skips (shr vaddr 12) asid e ≡ false
Answers-skips vaddr asid e h = ground arith

not_skips :
    (vaddr asid : ℕ) (e : TlbEntry) → ¬ Answers vaddr asid e → skips (shr vaddr 12) asid e ≡ true
not_skips vaddr asid e h = elim (Bool-cases (skips (shr vaddr 12) asid e)) [
  | inl s ↦ s
  | inr s ↦ absurd (h (skips-Answers vaddr asid e s))
]

-- What `lookup` returns: the first entry that answers, or a trap that carries the address.
pub data Found (tlb : Tlb) (vaddr : ℕ) (type : LookupType) (asid : ℕ)
    : Result TlbEntry → Type 0 where
  first :
      (before after : Tlb) (e : TlbEntry)
      → tlb ≡ before ++ e ∷ after
      → NoneAnswers vaddr asid before
      → Answers vaddr asid e
      → Found tlb vaddr type asid (ok e)
  missing_load :
      type ≡ load
      → NoneAnswers vaddr asid tlb
      → Found tlb vaddr type asid (throw (record { code = ExceptionCode.tlb_l; bad_addr = vaddr }))
  missing_store :
      type ≡ store
      → NoneAnswers vaddr asid tlb
      → Found tlb vaddr type asid (throw (record { code = ExceptionCode.tlb_s; bad_addr = vaddr }))

none_found :
    (vaddr : ℕ) (type : LookupType) (asid : ℕ)
    → Found [] vaddr type asid (lookup [] vaddr type asid)
unfolding lookup
none_found vaddr load asid = missing_load refl tt
none_found vaddr store asid = missing_store refl tt

module _ (vaddr : ℕ) (type : LookupType) (asid : ℕ) where
  Found-cons :
      (e : TlbEntry) (es : Tlb) {r : Result TlbEntry}
      → ¬ Answers vaddr asid e
      → Found es vaddr type asid r
      → Found (e ∷ es) vaddr type asid r
  Found-cons e es n (first before after f split none_before here) =
      first (e ∷ before) after f (rw split) (n, none_before) here
  Found-cons e es n (missing_load l h) = missing_load l (n, h)
  Found-cons e es n (missing_store s h) = missing_store s (n, h)

  -- `lookup` returns the first entry of the TLB that answers the address, passing over only
  -- entries that do not, and exactly when none answers throws the address with TLB_L for a load and
  -- TLB_S for a store.
  pub lookup-Found : (tlb : Tlb) → Found tlb vaddr type asid (lookup tlb vaddr type asid)
  unfolding lookup
  lookup-Found [] = none_found vaddr type asid
  lookup-Found (e ∷ es) = elim (Bool-cases (skips (shr vaddr 12) asid e)) [
    | inl s ↦ rw s (Found-cons e es (λ a. cc (Answers-skips vaddr asid e a, s)) (lookup-Found es))
    | inr s ↦ rw s (first [] es e refl tt (skips-Answers vaddr asid e s))
  ]

-- The physical address: the frame of the entry, and the offset of the address.
pub frame_addr : (f v : ℕ) → bit_or (shl f 12) (v % 2 ^ 12) ≡ f % 2 ^ 20 * 2 ^ 12 + v % 2 ^ 12
frame_addr f v =
    ground (arith, bit_or-disjoint 12 (shl f 12) (v % 2 ^ 12) (omega arith) (omega arith))

-- A translation that succeeds is the direct map of 0x80000000..0xC0000000, or else goes through an
-- entry that answers the address.
translate-eq-ok :
    (tlb : Tlb) (vaddr : ℕ) (type : LookupType) (asid : ℕ) {p : ℕ}
    → translate tlb vaddr type asid ≡ ok p
    → (((0x80000000 ≤ vaddr) × (vaddr < 0xC0000000) × (p ≡ vaddr - 0x80000000))
        ⊎ ((e : TlbEntry) × (lookup tlb vaddr type asid ≡ ok e)
            × (p ≡ e.pfn % 2 ^ 20 * 2 ^ 12 + vaddr % 2 ^ 12)))
unfolding translate
translate-eq-ok tlb vaddr type asid h = elim (Bool-cases (is_direct vaddr)) [
  | inl d ↦ inl (ground arith)
  | inr n ↦
      let (e, here, found) = >>=-eq-ok _ (lookup tlb vaddr type asid) (rw n at h) in
      inr (e, found, ground (arith, frame_addr e.pfn vaddr))
]

lookup-load_store :
    (tlb : Tlb) (vaddr asid : ℕ) {e : TlbEntry}
    → lookup tlb vaddr store asid ≡ ok e
    → lookup tlb vaddr load asid ≡ ok e
unfolding lookup
lookup-load_store [] vaddr asid h = cc
lookup-load_store (e ∷ es) vaddr asid h = elim (Bool-cases (skips (shr vaddr 12) asid e)) [
  | inl s ↦ rw s (lookup-load_store es vaddr asid (rw s at h))
  | inr s ↦ rw s (rw s at h)
]

-- Loads and stores translate alike, but for the trap of a miss.
pub translate-load_store :
    (tlb : Tlb) (vaddr asid : ℕ) {p : ℕ}
    → translate tlb vaddr store asid ≡ ok p
    → translate tlb vaddr load asid ≡ ok p
unfolding translate
translate-load_store tlb vaddr asid h = elim (Bool-cases (is_direct vaddr)) [
  | inl d ↦ rw d (rw d at h)
  | inr n ↦
      let (e, here, found) = >>=-eq-ok _ (lookup tlb vaddr store asid) (rw n at h) in
      rw (n, lookup-load_store tlb vaddr asid found) here
]

-- An entry that is written over a TLB in which none answers is the one that `lookup` finds.
pub lookup-set :
    (tlb : Tlb) (i vaddr asid : ℕ) (type : LookupType) (e : TlbEntry)
    → i < length tlb
    → NoneAnswers vaddr asid tlb
    → Answers vaddr asid e
    → lookup (set tlb i e) vaddr type asid ≡ ok e
unfolding lookup
lookup-set [] i vaddr asid type e h n a = absurd (omega arith)
lookup-set (x ∷ xs) zero vaddr asid type e h n a = rw (Answers-skips vaddr asid e a) refl
lookup-set (x ∷ xs) (suc i) vaddr asid type e h n a =
    rw (not_skips vaddr asid x n.0) (lookup-set xs i vaddr asid type e (omega arith) n.1 a)

pub translate-lookup :
    (tlb : Tlb) (vaddr : ℕ) (type : LookupType) (asid : ℕ) (e : TlbEntry)
    → is_direct vaddr ≡ false
    → lookup tlb vaddr type asid ≡ ok e
    → translate tlb vaddr type asid ≡ ok (e.pfn % 2 ^ 20 * 2 ^ 12 + vaddr % 2 ^ 12)
unfolding translate
translate-lookup tlb vaddr type asid e d h = rw (d, h) (ap ok (frame_addr e.pfn vaddr))
