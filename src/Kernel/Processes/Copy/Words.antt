-- ===== src/Kernel/Processes/Copy/Words.antt =====
-- The copy of a page's bytes in the constructor of `HashPageTable` from an iterator,
-- kernel/KernelObjects/PageTables.cpp: the loop over 4096 `int`s, which are four pages.
use cs16mem_model_vm.Base.{
  ℕ, zero, suc, ◌+◌, ◌<◌, ◌≤◌, ◌≡◌, ◌∙◌, refl, ltb, arith, ◌⊎◌, inl, inr, Bool-cases, update,
}
use cs16mem_model_vm.Machine.Trap.{ok, crash, ◌>>=◌, ◌>>◌}
use cs16mem_model_vm.Kernel.Processes.{Physical, physical_words, copy_words}

-- What the loop leaves: only words of physical memory were read and written, the words outside the
-- target are as they were, and a word of the target is the one of the source, but where the loop had
-- written that before it read it.
pub record Copied (n src dst : ℕ) (p p' : Physical) : Type 0 where
  pub in_range : (i : ℕ) → i < n → (src + i < physical_words) × (dst + i < physical_words)
  pub elsewhere : (w : ℕ) → (w < dst) ⊎ (dst + n ≤ w) → p' w ≡ p w
  pub content : (i : ℕ) → i < n → (dst ≤ src) ⊎ (src + i < dst) → p' (dst + i) ≡ p (src + i)

one_more :
    (n src dst : ℕ) (p p' : Physical)
    → src < physical_words
    → dst < physical_words
    → Copied n (src + 1) (dst + 1) (update p dst (p src)) p'
    → Copied (suc n) src dst p p'
one_more n src dst p p' s d c = record {
  in_range = in_range;
  elsewhere = elsewhere;
  content = content;
}
  where
    in_range : (i : ℕ) → i < suc n → (src + i < physical_words) × (dst + i < physical_words)
    in_range zero h = (omega (arith, s), omega (arith, d))
    in_range (suc i) h =
        let (a, b) = c.in_range i (omega (arith, h)) in (omega (arith, a), omega (arith, b))

    elsewhere : (w : ℕ) → (w < dst) ⊎ (dst + suc n ≤ w) → p' w ≡ p w
    elsewhere w (inl below) = c.elsewhere w (inl (omega (arith, below))) ∙ ground (arith, below)
    elsewhere w (inr above) = c.elsewhere w (inr (omega (arith, above))) ∙ ground (arith, above)

    content : (i : ℕ) → i < suc n → (dst ≤ src) ⊎ (src + i < dst) → p' (dst + i) ≡ p (src + i)
    content zero h k =
        let here : dst + 0 ≡ dst = omega arith in
        let from : src + 0 ≡ src = omega arith in
        rw (here, from) (c.elsewhere dst (inl (omega arith)) ∙ ground arith)
    content (suc i) h (inl behind) =
        let there : dst + suc i ≡ dst + 1 + i = omega arith in
        let from : src + suc i ≡ src + 1 + i = omega arith in
        rw (there, from)
          (c.content i (omega (arith, h)) (inl (omega (arith, behind))) ∙ ground (arith, behind))
    content (suc i) h (inr before) =
        let there : dst + suc i ≡ dst + 1 + i = omega arith in
        let from : src + suc i ≡ src + 1 + i = omega arith in
        rw (there, from)
          (c.content i (omega (arith, h)) (inr (omega (arith, before))) ∙ ground (arith, before))

-- The copy of `n` words ends in one of two ways. Either source and target lie in physical memory, and
-- then no word outside the target changed, and a word of the target holds the word of the source as it
-- was before the copy, unless the loop had overwritten that one before it came to it; or one of them
-- reaches past the end of physical memory, and the copy fails.
pub copy_words_lem :
    (n src dst : ℕ) (p : Physical)
    → ((p' : Physical) × ((copy_words n src dst p ≡ ok p') × Copied n src dst p p'))
      ⊎ ((copy_words n src dst p ≡ crash)
          × ((physical_words < src + n) ⊎ (physical_words < dst + n)))
unfolding copy_words
copy_words_lem zero src dst p = inl (
  p,
  (
    refl,
    record {
      in_range = λ i h. absurd (omega (arith, h));
      elsewhere = λ w h. refl;
      content = λ i h k. absurd (omega (arith, h));
    },
  ),
)
copy_words_lem (suc n) src dst p = elim (Bool-cases (ltb src physical_words)) [
  | inr f ↦
      let past : physical_words ≤ src = ground (arith, f) in
      inr (rw (f, ◌>>◌, ◌>>=◌) refl, inl (omega (arith, past)))
  | inl t ↦
      let s : src < physical_words = ground (arith, t) in
      elim (Bool-cases (ltb dst physical_words)) [
        | inr f ↦
            let past : physical_words ≤ dst = ground (arith, f) in
            inr (rw (t, f, ◌>>◌, ◌>>=◌) refl, inr (omega (arith, past)))
        | inl u ↦
            let d : dst < physical_words = ground (arith, u) in
            elim (copy_words_lem n (src + 1) (dst + 1) (update p dst (p src))) [
              | inl (p', (e, c)) ↦
                  inl (p', (rw (t, u, ◌>>◌, ◌>>=◌) e, one_more n src dst p p' s d c))
              | inr (e, inl past) ↦ inr (rw (t, u, ◌>>◌, ◌>>=◌) e, inl (omega (arith, past)))
              | inr (e, inr past) ↦ inr (rw (t, u, ◌>>◌, ◌>>=◌) e, inr (omega (arith, past)))
            ]
      ]
]
