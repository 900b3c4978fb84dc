-- ===== src/Kernel/Processes/Copy/Bytes.antt =====
-- The bytes that the constructor of `HashPageTable` from an iterator copies,
-- kernel/KernelObjects/PageTables.cpp: each page is followed by three pages more, which land in the
-- frames behind the new one.
use cs16mem_model_vm.Base.{
  ℕ, ◌+◌, ◌<◌, ◌≤◌, ◌≡◌, ◌∙◌, ap, sym, refl, Option, none, some, List, [], ◌∷◌, arith, ℕ_discrete,
  ◌==◌, if◌then◌else◌, ◌⊎◌, inl, inr, Among,
}
use cs16mem_model_vm.Kernel.Frames.{num_pages}
use cs16mem_model_vm.Kernel.Pages.{Entry}
use cs16mem_model_vm.Kernel.UnorderedMap.{find_in}
use cs16mem_model_vm.Kernel.Processes.{Physical, first_word}
use cs16mem_model_vm.Kernel.Processes.Copy.Words.{Copied}
use cs16mem_model_vm.Kernel.Processes.Entries.{Unique}

-- The frame that stands beside the first entry of a page.
abbrev pub frame_of : ℕ → List (ℕ × Entry) → List ℕ → Option ℕ
frame_of v [] fs = none
frame_of v (_ ∷ _) [] = none
frame_of v ((k, pte) ∷ es) (f ∷ fs) = if v == k then some f else frame_of v es fs

-- No frame of the list, nor the three behind it, is the frame `src`.
abbrev pub Clear : ℕ → List ℕ → Type 0
Clear src fs = (g : ℕ) → Among g fs → (src < g) ⊎ (g + 4 ≤ src)

-- The word is in no frame of the list, nor in the three behind one.
abbrev pub Outside : ℕ → List ℕ → Type 0
Outside w fs = (g : ℕ) → Among g fs → (w < first_word g) ⊎ (first_word g + 4096 ≤ w)

-- What the copies leave: each new frame has three more behind it in memory, no other word changed, and
-- the frame of a page holds the page, when no copy ran over the original.
pub record Filled (es : List (ℕ × Entry)) (fs : List ℕ) (p p' : Physical) : Type 0 where
  pub room : (g : ℕ) → Among g fs → g + 4 ≤ num_pages
  pub elsewhere : (w : ℕ) → Outside w fs → p' w ≡ p w
  pub content :
      (v : ℕ) (e : Entry) (f i : ℕ)
      → find_in v es ≡ some e
      → frame_of v es fs ≡ some f
      → Clear e.pfn fs
      → i < 1024
      → p' (first_word f + i) ≡ p (first_word e.pfn + i)

pub none_Filled : (p : Physical) → Filled [] [] p p
none_Filled p = record {
  room = λ g a. absurd a;
  elsewhere = λ w a. refl;
  content = λ v e f i h k c l. cc;
}

pub next_Filled :
    (vpn : ℕ) (pte : Entry) (es : List (ℕ × Entry)) (f : ℕ) (fs : List ℕ) (p q p' : Physical)
    → Copied 4096 (first_word pte.pfn) (first_word f) p q
    → ((g : ℕ) → Among g fs → f < g)
    → Filled es fs q p'
    → Filled ((vpn, pte) ∷ es) (f ∷ fs) p p'
next_Filled vpn pte es f fs p q p' c later r = record {
  room = room;
  elsewhere = elsewhere;
  content = content;
}
  where
    room : (g : ℕ) → Among g (f ∷ fs) → g + 4 ≤ num_pages
    room g (inl same) = let (a, b) = c.in_range 4095 (omega arith) in omega (arith, b, same)
    room g (inr a) = r.room g a

    elsewhere : (w : ℕ) → Outside w (f ∷ fs) → p' w ≡ p w
    elsewhere w out = r.elsewhere w (λ g a. out g (inr a)) ∙ c.elsewhere w (out f (inl refl))

    apart :
        (src i : ℕ)
        → i < 1024
        → (src < f) ⊎ (f + 4 ≤ src)
        → (first_word src + i < first_word f) ⊎ (first_word f + 4096 ≤ first_word src + i)
    apart src i l (inl below) = inl (omega (arith, below, l))
    apart src i l (inr above) = inr (omega (arith, above))

    ahead :
        (src i : ℕ)
        → i < 1024
        → (src < f) ⊎ (f + 4 ≤ src)
        → (first_word f ≤ first_word src) ⊎ (first_word src + i < first_word f)
    ahead src i l (inl below) = inr (omega (arith, below, l))
    ahead src i l (inr above) = inl (omega (arith, above))

    own : (i : ℕ) → i < 1024 → Outside (first_word f + i) fs
    own i l g a = inl (omega (arith, l, later g a))

    here :
        (i : ℕ)
        → i < 1024
        → Clear pte.pfn (f ∷ fs)
        → p' (first_word f + i) ≡ p (first_word pte.pfn + i)
    here i l clear =
        r.elsewhere (first_word f + i) (own i l)
        ∙ c.content i (omega (arith, l)) (ahead pte.pfn i l (clear f (inl refl)))

    content :
        (v : ℕ) (e : Entry) (g i : ℕ)
        → find_in v ((vpn, pte) ∷ es) ≡ some e
        → frame_of v ((vpn, pte) ∷ es) (f ∷ fs) ≡ some g
        → Clear e.pfn (f ∷ fs)
        → i < 1024
        → p' (first_word g + i) ≡ p (first_word e.pfn + i)
    content v e g i h k clear l = elim (ℕ_discrete v vpn) [
      | yes same ↦
          let is : pte ≡ e = ground (arith, h, same) in
          let at : f ≡ g = ground (arith, k, same) in
          let number : pte.pfn ≡ e.pfn = ap (λ (x : Entry). x.pfn) is in
          ap (λ x. p' (first_word x + i)) (sym at)
          ∙ here i l (λ x a. rw number (clear x a))
          ∙ ap (λ x. p (first_word x + i)) number
      | no other ↦
          r.content v e g i (ground (arith, h, other)) (ground (arith, k, other))
            (λ x a. clear x (inr a)) l
          ∙ c.elsewhere (first_word e.pfn + i) (apart e.pfn i l (clear f (inl refl)))
    ]

-- The frame is that of an entry of the list.
abbrev pub Source : List (ℕ × Entry) → ℕ → Type 0
Source [] g = ⊥
Source ((v, e) ∷ es) g = (g ≡ e.pfn) ⊎ Source es g

pub find-Source :
    (es : List (ℕ × Entry)) (g : ℕ)
    → Unique es
    → Source es g
    → (v : ℕ) × ((e : Entry) × ((find_in v es ≡ some e) × (g ≡ e.pfn)))
find-Source [] g u s = absurd s
find-Source ((k, pte) ∷ es) g u (inl is) = (k, (pte, (ground arith, is)))
find-Source ((k, pte) ∷ es) g u (inr s) =
    let (v, (e, (found, is))) = find-Source es g u.2 s in
    elim (ℕ_discrete v k) [
      | yes same ↦ let gone : find_in v es ≡ none = ap (λ x. find_in x es) same ∙ u.1 in cc
      | no other ↦ (v, (e, (ground (arith, other, found), is)))
    ]
