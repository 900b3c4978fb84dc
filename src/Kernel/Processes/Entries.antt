-- ===== src/Kernel/Processes/Entries.antt =====
-- The entries that an iterator of `unordered_map` (kernel/kstl/UnorderedMap.h) passes, bucket after
-- bucket, as one list.
use cs16mem_model_vm.Base.{
  ℕ, zero, suc, ◌+◌, ◌<◌, ◌≡◌, ◌∙◌, refl, subst, none, List, [], ◌∷◌, ◌++◌, arith,
}
use cs16mem_model_vm.Kernel.UnorderedMap.{find_in, bucket_at}
use cs16mem_model_vm.Kernel.UnorderedMap.Buckets.{or_else, or_else-none, Holds, Holds-elsewhere}
use cs16mem_model_vm.Kernel.Processes.{entries}

module _ {ℓ} {V : Type ℓ} where
  -- No key stands twice.
  abbrev pub Unique : List (ℕ × V) → Type ℓ
  Unique es = Holds (λ _. 0) 0 es

  find_in-++ :
      (key : ℕ) (a b : List (ℕ × V))
      → find_in key (a ++ b) ≡ or_else (find_in key a) (find_in key b)
  find_in-++ key [] b = refl
  find_in-++ key ((k, v) ∷ a) b = ground (arith, find_in-++ key a b)

  module _ (hashed : ℕ → ℕ) where
    -- The buckets from `j` on.
    abbrev pub From : ℕ → List (List (ℕ × V)) → Type ℓ
    From j bs = (i : ℕ) → Holds hashed (j + i) (bucket_at bs i)

    rest_From :
        (j : ℕ) (b : List (ℕ × V)) (bs : List (List (ℕ × V))) → From j (b ∷ bs) → From (suc j) bs
    rest_From j b bs w i = subst (λ n. Holds hashed n (bucket_at bs i)) (omega arith) (w (suc i))

    first_Holds :
        (j : ℕ) (b : List (ℕ × V)) (bs : List (List (ℕ × V))) → From j (b ∷ bs) → Holds hashed j b
    first_Holds j b bs w = subst (λ n. Holds hashed n b) (omega arith) (w 0)

    before :
        (j key : ℕ) (bs : List (List (ℕ × V)))
        → From j bs
        → hashed key < j
        → find_in key (entries bs) ≡ none
    before j key [] w h = refl
    before j key (b ∷ bs) w h =
        let here : find_in key b ≡ none =
          Holds-elsewhere hashed j key b (first_Holds j b bs w) (omega arith) in
        find_in-++ key b (entries bs)
        ∙ rw here (before (suc j) key bs (rest_From j b bs w) (omega arith))

    pub find_in-entries :
        (j key i : ℕ) (bs : List (List (ℕ × V)))
        → From j bs
        → hashed key ≡ j + i
        → find_in key (entries bs) ≡ find_in key (bucket_at bs i)
    find_in-entries j key i [] w h = refl
    find_in-entries j key zero (b ∷ bs) w h =
        find_in-++ key b (entries bs)
        ∙ rw (before (suc j) key bs (rest_From j b bs w) (omega arith))
            (or_else-none (find_in key b))
    find_in-entries j key (suc i) (b ∷ bs) w h =
        let here : find_in key b ≡ none =
          Holds-elsewhere hashed j key b (first_Holds j b bs w) (omega arith) in
        find_in-++ key b (entries bs)
        ∙ rw here (find_in-entries (suc j) key i bs (rest_From j b bs w) (omega arith))

    joined :
        (j : ℕ) (a : List (ℕ × V)) (bs : List (List (ℕ × V)))
        → Holds hashed j a
        → From (suc j) bs
        → Unique (entries bs)
        → Unique (a ++ entries bs)
    joined j [] bs h w u = u
    joined j ((k, v) ∷ a) bs h w u =
        let later : find_in k (entries bs) ≡ none = before (suc j) k bs w (omega (arith, h.0)) in
        (refl, find_in-++ k a (entries bs) ∙ rw (h.1, later) refl, joined j a bs h.2 w u)

    pub entries-Unique : (j : ℕ) (bs : List (List (ℕ × V))) → From j bs → Unique (entries bs)
    entries-Unique j [] w = tt
    entries-Unique j (b ∷ bs) w =
        let w' = rest_From j b bs w in
        joined j b bs (first_Holds j b bs w) w' (entries-Unique (suc j) bs w')
