-- ===== src/Kernel/Processes/Copy/Frames.antt =====
-- The frames that a copy of a page table takes, one after the other (kernel/KernelObjects/PageTables.cpp).
use cs16mem_model_vm.Base.{
  ℕ, ◌<◌, ◌≤◌, ◌≡◌, ◌≢◌, ◌∙◌, ap, sym, refl, subst, Bool, Option, some, List, [], ◌∷◌, arith,
  ℕ_discrete, dec_lt, Among, Distinct, true, false, inl, inr,
}
use cs16mem_model_vm.Kernel.Bitset.{test}
use cs16mem_model_vm.Kernel.Frames.{MemoryManager, num_pages}
use cs16mem_model_vm.Kernel.Frames.Laws.{IsValid, Taken}

-- The frames of a list were free, are above the kernel and within memory, and are now taken; they are
-- distinct, and no other frame changed.
pub record Reserved (m m' : MemoryManager) (fs : List ℕ) : Type 0 where
  pub valid : IsValid m'
  pub boundary : m'.kernel_reserved_boundary ≡ m.kernel_reserved_boundary
  pub fresh :
      (f : ℕ)
      → Among f fs
      → (test m.reserved_pages f ≡ some false)
        × ((m.kernel_reserved_boundary ≤ f) × (f < num_pages))
  pub taken : (f : ℕ) → Among f fs → test m'.reserved_pages f ≡ some true
  pub other : (f : ℕ) → ¬ Among f fs → test m'.reserved_pages f ≡ test m.reserved_pages f
  pub distinct : Distinct fs

pub none_Reserved : (m : MemoryManager) → IsValid m → Reserved m m []
none_Reserved m v = record {
  valid = v;
  boundary = refl;
  fresh = λ f a. absurd a;
  taken = λ f a. absurd a;
  other = λ f a. refl;
  distinct = tt;
}

pub clash : {o : Option Bool} → o ≡ some true → o ≡ some false → ⊥
clash e f = cc

-- The frames are taken from the lowest on.
pub later :
    (m n l : MemoryManager) (f : ℕ) (fs : List ℕ)
    → n.kernel_reserved_boundary ≡ m.kernel_reserved_boundary
    → Taken m.reserved_pages n.reserved_pages m.kernel_reserved_boundary num_pages f
    → Reserved n l fs
    → (g : ℕ) → Among g fs
    → f < g
later m n l f fs b t r g a =
    let (free, (low, high)) = r.fresh g a in
    elim (ℕ_discrete f g) [
      | yes same ↦ absurd (clash (ap (test n.reserved_pages) (sym same) ∙ t.written.here) free)
      | no other ↦ elim (dec_lt f g) [
        | yes above ↦ above
        | no below ↦
            let taken = t.first g (omega (arith, b, low)) (omega (arith, other, below)) in
            let same = t.written.elsewhere g (λ e. other (sym e)) in
            absurd (clash taken (sym same ∙ free))
      ]
    ]

-- One frame, and then the others.
pub next_Reserved :
    (m n l : MemoryManager) (f : ℕ) (fs : List ℕ)
    → n.kernel_reserved_boundary ≡ m.kernel_reserved_boundary
    → Taken m.reserved_pages n.reserved_pages m.kernel_reserved_boundary num_pages f
    → Reserved n l fs
    → Reserved m l (f ∷ fs)
next_Reserved m n l f fs b t r = record {
  valid = r.valid;
  boundary = r.boundary ∙ b;
  fresh = λ g a. fresh g a;
  taken = λ g a. taken g a;
  other =
      λ g a. r.other g (λ in_rest. a (inr in_rest)) ∙ t.written.elsewhere g (λ same. a (inl same));
  distinct = (again, r.distinct);
}
  where
    again : ¬ Among f fs
    again a = let (e, range) = r.fresh f a in absurd (clash t.written.here e)

    apart : (g : ℕ) → Among g fs → g ≢ f
    apart g a same = again (subst (λ x. Among x fs) same a)

    fresh :
        (g : ℕ)
        → Among g (f ∷ fs)
        → (test m.reserved_pages g ≡ some false)
          × ((m.kernel_reserved_boundary ≤ g) × (g < num_pages))
    fresh g (inl same) = rw same (t.was_free, (t.low, t.high))
    fresh g (inr a) =
        let (e, (low, high)) = r.fresh g a in
        (sym (t.written.elsewhere g (apart g a)) ∙ e, (omega (arith, b, low), high))

    taken : (g : ℕ) → Among g (f ∷ fs) → test l.reserved_pages g ≡ some true
    taken g (inl same) = rw same (r.other f again ∙ t.written.here)
    taken g (inr a) = r.taken g a
