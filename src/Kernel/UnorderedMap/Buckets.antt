-- ===== src/Kernel/UnorderedMap/Buckets.antt =====
-- The buckets of `unordered_map`, kernel/kstl/UnorderedMap.h, as a table from keys to values.
use cs16mem_model_vm.Base.{
  ℕ, zero, suc, ◌<◌, ◌≡◌, ◌≢◌, ap, refl, ◌==◌, Bool, true, false, if◌then◌else◌, Option, none, some,
  List, [], ◌∷◌, ◌++◌, length, replicate, arith,
}
use cs16mem_model_vm.Kernel.UnorderedMap.{find_in, bucket_at, set_bucket}

module _ {ℓ} {V : Type ℓ} where
  -- The first answer of two.
  abbrev pub or_else : Option V → Option V → Option V
  or_else (some v) o = some v
  or_else none o = o

  abbrev pub is_none : Option V → Bool
  is_none none = true
  is_none (some _) = false

  abbrev pub value_or : V → Option V → V
  value_or init none = init
  value_or init (some v) = v

  pub or_else-none : (o : Option V) → or_else o none ≡ o
  or_else-none none = refl
  or_else-none (some v) = refl

  pub or_else_assoc : (a b c : Option V) → or_else (or_else a b) c ≡ or_else a (or_else b c)
  or_else_assoc none b c = refl
  or_else_assoc (some v) b c = refl

  -- What one entry answers.
  abbrev pub hit : ℕ → ℕ × V → Option V
  hit key (k, v) = if key == k then some v else none

  pub find_in-append :
      (key : ℕ) (b : List (ℕ × V)) (e : ℕ × V)
      → find_in key (b ++ e ∷ []) ≡ or_else (find_in key b) (hit key e)
  find_in-append key [] e = refl
  find_in-append key ((k, v) ∷ b) e = ground (arith, find_in-append key b e)

  pub length-set_bucket :
      (bs : List (List (ℕ × V))) (i : ℕ) (b : List (ℕ × V)) → length (set_bucket bs i b) ≡ length bs
  length-set_bucket [] i b = refl
  length-set_bucket (_ ∷ bs) zero b = refl
  length-set_bucket (_ ∷ bs) (suc i) b = ap suc (length-set_bucket bs i b)

  pub bucket_at-set_bucket_self :
      (bs : List (List (ℕ × V))) (i : ℕ) (b : List (ℕ × V))
      → i < length bs
      → bucket_at (set_bucket bs i b) i ≡ b
  bucket_at-set_bucket_self [] i b h = absurd (omega arith)
  bucket_at-set_bucket_self (_ ∷ bs) zero b h = refl
  bucket_at-set_bucket_self (_ ∷ bs) (suc i) b h = bucket_at-set_bucket_self bs i b (omega arith)

  pub bucket_at-set_bucket_ne :
      (bs : List (List (ℕ × V))) (i j : ℕ) (b : List (ℕ × V))
      → i ≢ j
      → bucket_at (set_bucket bs i b) j ≡ bucket_at bs j
  bucket_at-set_bucket_ne [] i j b h = refl
  bucket_at-set_bucket_ne (_ ∷ bs) zero zero b h = absurd (h refl)
  bucket_at-set_bucket_ne (_ ∷ bs) zero (suc j) b h = refl
  bucket_at-set_bucket_ne (_ ∷ bs) (suc i) zero b h = refl
  bucket_at-set_bucket_ne (_ ∷ bs) (suc i) (suc j) b h =
      bucket_at-set_bucket_ne bs i j b (λ e. h (ap suc e))

  pub bucket_at-replicate : (n i : ℕ) → bucket_at {V = V} (replicate n []) i ≡ []
  bucket_at-replicate zero i = refl
  bucket_at-replicate (suc n) zero = refl
  bucket_at-replicate (suc n) (suc i) = bucket_at-replicate n i

  -- A bucket holds the keys that `hashed` sends to it, each once.
  abbrev pub Holds : (hashed : ℕ → ℕ) (i : ℕ) → List (ℕ × V) → Type ℓ
  Holds hashed i [] = Unit
  Holds hashed i ((k, v) ∷ b) = (hashed k ≡ i) × (find_in k b ≡ none) × Holds hashed i b

  pub Holds-elsewhere :
      (hashed : ℕ → ℕ) (i key : ℕ) (b : List (ℕ × V))
      → Holds hashed i b
      → hashed key ≢ i
      → find_in key b ≡ none
  Holds-elsewhere hashed i key [] w h = refl
  Holds-elsewhere hashed i key ((k, v) ∷ b) w h =
      ground (arith, Holds-elsewhere hashed i key b w.2 h)

  pub append-Holds :
      (hashed : ℕ → ℕ) (i key : ℕ) (v : V) (b : List (ℕ × V))
      → Holds hashed i b
      → hashed key ≡ i
      → find_in key b ≡ none
      → Holds hashed i (b ++ (key, v) ∷ [])
  append-Holds hashed i key v [] w h n = (h, refl, tt)
  append-Holds hashed i key v ((k, u) ∷ b) w h n =
      ground (arith, append-Holds hashed i key v b w.2, find_in-append k b (key, v))
