-- ===== src/Machine/Lru/Assoc.antt =====
-- Association lists, as the cache's tracker and its recency list use them.
use cs16mem_model_vm.Base.{
  ℕ, suc, ◌≡◌, ◌≢◌, refl, none, some, List, [], ◌∷◌, length, Among, Distinct, arith,
}
use cs16mem_model_vm.Machine.Lru.{lookup, erase}

module _ {ℓ ℓ'} {K : Type ℓ} {B : Type ℓ'} (dec : Discrete K) where
  -- No key twice.
  abbrev pub DistinctKeys : List (K × B) → Type ℓ'
  DistinctKeys [] = Unit
  DistinctKeys ((j, i) ∷ t) = (lookup dec j t ≡ none) × DistinctKeys t

  pub lookup-erase_ne :
      (j k : K) (t : List (K × B)) → j ≢ k → lookup dec j (erase dec k t) ≡ lookup dec j t
  unfolding lookup erase
  lookup-erase_ne j k [] h = refl
  lookup-erase_ne j k ((l, i) ∷ t) h = ground (arith, lookup-erase_ne j k t h)

  pub lookup-erase_self :
      (k : K) (t : List (K × B)) → DistinctKeys t → lookup dec k (erase dec k t) ≡ none
  unfolding lookup erase
  lookup-erase_self k [] d = refl
  lookup-erase_self k ((l, i) ∷ t) d = ground (arith, lookup-erase_self k t d.1)

  pub erase_absent : (k : K) (t : List (K × B)) → lookup dec k t ≡ none → erase dec k t ≡ t
  unfolding lookup erase
  erase_absent k [] h = refl
  erase_absent k ((l, i) ∷ t) h = ground (arith, erase_absent k t)

  pub length-erase :
      (k : K) (t : List (K × B)) (i : B)
      → lookup dec k t ≡ some i
      → suc (length (erase dec k t)) ≡ length t
  unfolding lookup erase
  length-erase k [] i h = ground arith
  length-erase k ((l, j) ∷ t) i h = ground (arith, length-erase k t i)

  pub erase-DistinctKeys :
      (k : K) (t : List (K × B)) → DistinctKeys t → DistinctKeys (erase dec k t)
  unfolding erase
  erase-DistinctKeys k [] d = tt
  erase-DistinctKeys k ((l, i) ∷ t) d =
      ground (arith, lookup-erase_ne l k t, erase-DistinctKeys k t d.1)

-- The numbers of an association list.
abbrev pub ids {ℓ} : {K : Type ℓ} → List (K × ℕ) → List ℕ
ids [] = []
ids ((k, i) ∷ t) = i ∷ ids t

module _ {ℓ} {K : Type ℓ} (dec : Discrete K) where
  pub Among-lookup : (k : K) (t : List (K × ℕ)) (i : ℕ) → lookup dec k t ≡ some i → Among i (ids t)
  unfolding lookup
  Among-lookup k [] i h = ground arith
  Among-lookup k ((l, j) ∷ t) i h = ground (arith, Among-lookup k t i)

  pub Among-erase :
      (k : K) (t : List (K × ℕ)) (i : ℕ) → Among i (ids (erase dec k t)) → Among i (ids t)
  unfolding erase
  Among-erase k [] i h = h
  Among-erase k ((l, j) ∷ t) i h = ground (arith, Among-erase k t i)

  pub erase-Distinct :
      (k : K) (t : List (K × ℕ)) → Distinct (ids t) → Distinct (ids (erase dec k t))
  unfolding erase
  erase-Distinct k [] d = tt
  erase-Distinct k ((l, j) ∷ t) d = ground (arith, Among-erase k t j, erase-Distinct k t d.1)

  -- The number of an erased key is gone.
  pub not-Among-erase :
      (k : K) (t : List (K × ℕ)) (i : ℕ)
      → Distinct (ids t)
      → lookup dec k t ≡ some i
      → ¬ Among i (ids (erase dec k t))
  unfolding lookup erase
  not-Among-erase k [] i d h = ground arith
  not-Among-erase k ((l, j) ∷ t) i d h =
      ground (arith, not-Among-erase k t i d.1, Among-lookup k t i)
