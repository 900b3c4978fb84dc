-- ===== src/Kernel/Processes/Copy/Pairs.antt =====
-- The pages of a copied page table (kernel/KernelObjects/PageTables.cpp) and those of its original.
use cs16mem_model_vm.Base.{
  ℕ, ◌≡◌, ◌∙◌, ap, sym, refl, subst, Option, none, some, List, [], ◌∷◌, length, arith, ℕ_discrete,
  update, Among, Distinct, inl, inr, Option-cases,
}
use cs16mem_model_vm.Kernel.Pages.{Entry}
use cs16mem_model_vm.Kernel.UnorderedMap.{find_in}
use cs16mem_model_vm.Kernel.Processes.Entries.{Unique}
use cs16mem_model_vm.Kernel.Processes.Copy.{mapped}
use cs16mem_model_vm.Kernel.Processes.Copy.Bytes.{frame_of}

frame_of-Among :
    (v f : ℕ) (es : List (ℕ × Entry)) (fs : List ℕ) → frame_of v es fs ≡ some f → Among f fs
frame_of-Among v f [] fs h = cc
frame_of-Among v f (_ ∷ _) [] h = cc
frame_of-Among v f ((k, pte) ∷ es) (g ∷ fs) h = elim (ℕ_discrete v k) [
  | yes e ↦ inl (ground (arith, h, e))
  | no n ↦ inr (frame_of-Among v f es fs (ground (arith, h, n)))
]

-- Distinct frames stand beside distinct pages.
frame_of-injective :
    (v w f : ℕ) (es : List (ℕ × Entry)) (fs : List ℕ)
    → Distinct fs
    → frame_of v es fs ≡ some f
    → frame_of w es fs ≡ some f
    → v ≡ w
frame_of-injective v w f [] fs d h k = cc
frame_of-injective v w f (_ ∷ _) [] d h k = cc
frame_of-injective v w f ((x, pte) ∷ es) (g ∷ fs) d h k = elim (ℕ_discrete v x) [
  | yes e ↦ elim (ℕ_discrete w x) [
    | yes e' ↦ e ∙ sym e'
    | no n' ↦
        let here : g ≡ f = ground (arith, h, e) in
        absurd (
          d.0
            (subst (λ y. Among y fs) (sym here) (frame_of-Among w f es fs (ground (arith, k, n')))))
  ]
  | no n ↦ elim (ℕ_discrete w x) [
    | yes e' ↦
        let here : g ≡ f = ground (arith, k, e') in
        absurd (
          d.0
            (subst (λ y. Among y fs) (sym here) (frame_of-Among v f es fs (ground (arith, h, n)))))
    | no n' ↦ frame_of-injective v w f es fs d.1 (ground (arith, h, n)) (ground (arith, k, n'))
  ]
]

mapped_ne :
    (v : ℕ) (es : List (ℕ × Entry)) (fs : List ℕ) (pages : ℕ → Option Entry)
    → find_in v es ≡ none
    → mapped es fs pages v ≡ pages v
mapped_ne v [] fs pages h = refl
mapped_ne v (_ ∷ _) [] pages h = refl
mapped_ne v ((k, pte) ∷ es) (f ∷ fs) pages h =
    mapped_ne v es fs (update pages k (some (record pte { pfn = f }))) (ground arith) ∙ ground arith

mapped_self :
    (v : ℕ) (p : Entry) (es : List (ℕ × Entry)) (fs : List ℕ) (pages : ℕ → Option Entry)
    → Unique es
    → length fs ≡ length es
    → find_in v es ≡ some p
    → (f : ℕ) × ((frame_of v es fs ≡ some f) × (mapped es fs pages v ≡ some (record p { pfn = f })))
mapped_self v p [] fs pages u c h = cc
mapped_self v p (_ ∷ _) [] pages u c h = absurd (omega arith)
mapped_self v p ((k, pte) ∷ es) (f ∷ fs) pages u c h = elim (ℕ_discrete v k) [
  | yes e ↦
      let is : pte ≡ p = ground (arith, h, e) in
      let alone : find_in v es ≡ none = ap (λ x. find_in x es) e ∙ u.1 in
      (
        f,
        (
          ground (arith, e),
          mapped_ne v es fs (update pages k (some (record pte { pfn = f }))) alone
              ∙ ground (arith, e)
              ∙ ap (λ (x : Entry). some (record x { pfn = f })) is,
        ),
      )
  | no n ↦
      let (g, (beside, m)) =
        mapped_self v p es fs (update pages k (some (record pte { pfn = f }))) u.2 (omega arith)
          (ground (arith, h, n)) in
      (g, (ground (arith, n, beside), m))
]

-- The frame of a page that is mapped stands beside it.
pub frame_of-mapped :
    (es : List (ℕ × Entry)) (fs : List ℕ)
    → Unique es
    → length fs ≡ length es
    → (v : ℕ) (e : Entry) → mapped es fs (λ _. none) v ≡ some e
    → frame_of v es fs ≡ some e.pfn
frame_of-mapped es fs u c v e h = elim (Option-cases (find_in v es)) [
  | inl no_page ↦ let gone : none ≡ some e = sym (mapped_ne v es fs (λ _. none) no_page) ∙ h in cc
  | inr (p, found) ↦
      let (f, (there, m)) = mapped_self v p es fs (λ _. none) u c found in
      let is : some (record p { pfn = f }) ≡ some e = sym m ∙ h in there ∙ number p f is
]
  where
    number : (p : Entry) (f : ℕ) → some (record p { pfn = f }) ≡ some e → some f ≡ some e.pfn
    number p f is = cc

-- The child maps the pages of the parent, with the same flags, each to a frame of the list, and no two
-- pages to one frame.
pub record SamePages (parent child : ℕ → Option Entry) (fs : List ℕ) : Type 0 where
  pub unmapped : (v : ℕ) → parent v ≡ none → child v ≡ none
  pub copied :
      (v : ℕ) (p : Entry)
      → parent v ≡ some p
      → (f : ℕ) × (Among f fs × (child v ≡ some (record p { pfn = f })))
  pub apart : (v w : ℕ) (e d : Entry) → child v ≡ some e → child w ≡ some d → e.pfn ≡ d.pfn → v ≡ w

pub mapped-SamePages :
    (es : List (ℕ × Entry)) (fs : List ℕ)
    → Unique es
    → length fs ≡ length es
    → Distinct fs
    → SamePages (λ v. find_in v es) (mapped es fs (λ _. none)) fs
mapped-SamePages es fs u c d = record {
  unmapped = λ v h. mapped_ne v es fs (λ _. none) h;
  copied = λ v p h.
      let (f, (beside, m)) = mapped_self v p es fs (λ _. none) u c h in
      (f, (frame_of-Among v f es fs beside, m));
  apart = λ v w e d' h k same.
      let at_v = frame_of-mapped es fs u c v e h in
      let at_w = frame_of-mapped es fs u c w d' k in
      frame_of-injective v w e.pfn es fs d at_v (at_w ∙ ap some (sym same));
}
