-- ===== src/Kernel/UnorderedMap/Rehash.antt =====
-- `rehash` of kernel/kstl/UnorderedMap.h: the entries move one by one into new buckets, each bucket
-- from its tail.
use cs16mem_model_vm.Base.{
  ℕ, zero, suc, ◌+◌, ◌%◌, ◌<◌, ◌≤◌, ◌≡◌, ◌≢◌, ◌∙◌, ap, sym, refl, Option, none, List, [], ◌∷◌,
  length, arith, ℕ_discrete, subst,
}
use cs16mem_model_vm.Kernel.UnorderedMap.{find_in, bucket_at, push_at, drain, drain_all}
use cs16mem_model_vm.Kernel.UnorderedMap.Buckets.{
  or_else, or_else-none, or_else_assoc, hit, find_in-append, length-set_bucket,
  bucket_at-set_bucket_self, bucket_at-set_bucket_ne, Holds, Holds-elsewhere, append-Holds,
}

module _ {ℓ} {V : Type ℓ} (hasher : ℕ → ℕ) where
  -- The value that `count` buckets give a key.
  abbrev pub look_in : ℕ → List (List (ℕ × V)) → ℕ → Option V
  look_in count bs key = find_in key (bucket_at bs (hasher key % count))

  -- Every bucket holds the keys that hash to it.
  abbrev pub Hashed : ℕ → List (List (ℕ × V)) → Type ℓ
  Hashed count bs = (i : ℕ) → Holds (λ k. hasher k % count) i (bucket_at bs i)

  hit_elsewhere :
      (count key k : ℕ) (v : V) → hasher k % count ≢ hasher key % count → hit key (k, v) ≡ none
  hit_elsewhere count key k v n = ground arith

  pub look_in-push_at :
      (count key k : ℕ) (v : V) (bs : List (List (ℕ × V)))
      → hasher k % count < length bs
      → look_in count (push_at bs (hasher k % count) (k, v)) key
        ≡ or_else (look_in count bs key) (hit key (k, v))
  look_in-push_at count key k v bs h = elim (ℕ_discrete (hasher k % count) (hasher key % count)) [
    | yes e ↦
        rw (sym e, bucket_at-set_bucket_self bs (hasher k % count) _ h)
          (find_in-append key (bucket_at bs (hasher k % count)) (k, v))
    | no n ↦ rw (
      bucket_at-set_bucket_ne bs (hasher k % count) (hasher key % count) _ n,
      hit_elsewhere count key k v n,
      or_else-none (look_in count bs key),
    )
  ]

  pub push_at-Hashed :
      (count k : ℕ) (v : V) (bs : List (List (ℕ × V)))
      → hasher k % count < length bs
      → look_in count bs k ≡ none
      → Hashed count bs
      → Hashed count (push_at bs (hasher k % count) (k, v))
  push_at-Hashed count k v bs h n w i = elim (ℕ_discrete (hasher k % count) i) [
    | yes e ↦
        let loc = hasher k % count in
        let here : Holds (λ x. hasher x % count) loc (bucket_at (push_at bs loc (k, v)) loc) =
          rw (bucket_at-set_bucket_self bs loc _ h)
            (append-Holds (λ x. hasher x % count) loc k v (bucket_at bs loc) (w loc) refl n) in
        subst (λ j. Holds (λ x. hasher x % count) j (bucket_at (push_at bs loc (k, v)) j)) e here
    | no ne ↦ rw (bucket_at-set_bucket_ne bs (hasher k % count) i _ ne) (w i)
  ]

  -- The answer of the entry nearest the tail.
  abbrev pub find_last : ℕ → List (ℕ × V) → Option V
  find_last key [] = none
  find_last key ((k, v) ∷ b) = or_else (find_last key b) (hit key (k, v))

  pub find_last-find_in :
      (hashed : ℕ → ℕ) (i key : ℕ) (b : List (ℕ × V))
      → Holds hashed i b
      → find_last key b ≡ find_in key b
  find_last-find_in hashed i key [] w = refl
  find_last-find_in hashed i key ((k, v) ∷ b) w =
      ground (arith, find_last-find_in hashed i key b w.2)

  module _ (count : ℕ) (positive : 0 < count) where
    pub length-drain :
        (b : List (ℕ × V)) (fresh : List (List (ℕ × V)))
        → length (drain hasher count b fresh) ≡ length fresh
    length-drain [] fresh = refl
    length-drain ((k, v) ∷ b) fresh =
        length-set_bucket (drain hasher count b fresh) (hasher k % count) _ ∙ length-drain b fresh

    fits :
        (k : ℕ) (b : List (ℕ × V)) (fresh : List (List (ℕ × V)))
        → length fresh ≡ count
        → hasher k % count < length (drain hasher count b fresh)
    fits k b fresh e = omega (arith, length-drain b fresh)

    pub look_in-drain :
        (key : ℕ) (b : List (ℕ × V)) (fresh : List (List (ℕ × V)))
        → length fresh ≡ count
        → look_in count (drain hasher count b fresh) key
          ≡ or_else (look_in count fresh key) (find_last key b)
    look_in-drain key [] fresh e = sym (or_else-none (look_in count fresh key))
    look_in-drain key ((k, v) ∷ b) fresh e =
        look_in-push_at count key k v (drain hasher count b fresh) (fits k b fresh e)
        ∙ ap (λ o. or_else o (hit key (k, v))) (look_in-drain key b fresh e)
        ∙ or_else_assoc (look_in count fresh key) (find_last key b) (hit key (k, v))

    -- A bucket of the old table, none of whose keys is in the new one yet.
    pub drain-Hashed :
        (hashed : ℕ → ℕ) (i : ℕ) (b : List (ℕ × V)) (fresh : List (List (ℕ × V)))
        → length fresh ≡ count
        → Holds hashed i b
        → ((k : ℕ) → hashed k ≡ i → look_in count fresh k ≡ none)
        → Hashed count fresh
        → Hashed count (drain hasher count b fresh)
    drain-Hashed hashed i [] fresh e w new f = f
    drain-Hashed hashed i ((k, v) ∷ b) fresh e w new f =
        push_at-Hashed count k v (drain hasher count b fresh) (fits k b fresh e)
          (rw (look_in-drain k b fresh e, new k w.0, find_last-find_in hashed i k b w.2) w.1)
          (drain-Hashed hashed i b fresh e w.2 new f)

    -- The buckets of an old table from number `first` on.
    abbrev pub HashedFrom : (ℕ → ℕ) → ℕ → List (List (ℕ × V)) → Type ℓ
    HashedFrom hashed first bs = (i : ℕ) → Holds hashed (first + i) (bucket_at bs i)

    next_buckets :
        (hashed : ℕ → ℕ) (first : ℕ) (b : List (ℕ × V)) (bs : List (List (ℕ × V)))
        → HashedFrom hashed first (b ∷ bs)
        → HashedFrom hashed (suc first) bs
    next_buckets hashed first b bs w i =
        let e : first + suc i ≡ suc first + i = omega arith in
        subst (λ n. Holds hashed n (bucket_at bs i)) e (w (suc i))

    first_bucket :
        (hashed : ℕ → ℕ) (first : ℕ) (b : List (ℕ × V)) (bs : List (List (ℕ × V)))
        → HashedFrom hashed first (b ∷ bs)
        → Holds hashed first b
    first_bucket hashed first b bs w =
        let e : first + 0 ≡ first = omega arith in subst (λ n. Holds hashed n b) e (w 0)

    pub length-drain_all :
        (bs fresh : List (List (ℕ × V))) → length (drain_all hasher count bs fresh) ≡ length fresh
    length-drain_all [] fresh = refl
    length-drain_all (b ∷ bs) fresh =
        length-drain_all bs (drain hasher count b fresh) ∙ length-drain b fresh

    -- A bucket answers only for the keys that hash to it.
    look_in-drain_ne :
        (hashed : ℕ → ℕ) (i key : ℕ) (b : List (ℕ × V)) (fresh : List (List (ℕ × V)))
        → length fresh ≡ count
        → Holds hashed i b
        → hashed key ≢ i
        → look_in count (drain hasher count b fresh) key ≡ look_in count fresh key
    look_in-drain_ne hashed i key b fresh e w n =
        look_in-drain key b fresh e
        ∙ ap (λ o. or_else (look_in count fresh key) o)
            (find_last-find_in hashed i key b w ∙ Holds-elsewhere hashed i key b w n)
        ∙ or_else-none (look_in count fresh key)

    pub drain_all-Hashed :
        (hashed : ℕ → ℕ) (first : ℕ) (bs fresh : List (List (ℕ × V)))
        → length fresh ≡ count
        → HashedFrom hashed first bs
        → ((k : ℕ) → first ≤ hashed k → look_in count fresh k ≡ none)
        → Hashed count fresh
        → Hashed count (drain_all hasher count bs fresh)
    drain_all-Hashed hashed first [] fresh e w new f = f
    drain_all-Hashed hashed first (b ∷ bs) fresh e w new f =
        let here = first_bucket hashed first b bs w in
        drain_all-Hashed hashed (suc first) bs (drain hasher count b fresh)
          (length-drain b fresh ∙ e) (next_buckets hashed first b bs w)
          (λ k h.
            look_in-drain_ne hashed first k b fresh e here (λ q. omega arith) ∙ new k (omega arith))
          (drain-Hashed hashed first b fresh e here (λ k q. new k (omega arith)) f)

    -- The keys of earlier buckets are left alone.
    look_in-drain_all_before :
        (hashed : ℕ → ℕ) (first key : ℕ) (bs fresh : List (List (ℕ × V)))
        → length fresh ≡ count
        → HashedFrom hashed first bs
        → hashed key < first
        → look_in count (drain_all hasher count bs fresh) key ≡ look_in count fresh key
    look_in-drain_all_before hashed first key [] fresh e w h = refl
    look_in-drain_all_before hashed first key (b ∷ bs) fresh e w h =
        look_in-drain_all_before hashed (suc first) key bs (drain hasher count b fresh)
          (length-drain b fresh ∙ e) (next_buckets hashed first b bs w) (omega arith)
        ∙ look_in-drain_ne hashed first key b fresh e (first_bucket hashed first b bs w)
            (λ q. omega arith)

    -- The new table answers what the old one did, where it had no answer of its own.
    pub look_in-drain_all :
        (hashed : ℕ → ℕ) (first key i : ℕ) (bs fresh : List (List (ℕ × V)))
        → length fresh ≡ count
        → HashedFrom hashed first bs
        → hashed key ≡ first + i
        → look_in count (drain_all hasher count bs fresh) key
          ≡ or_else (look_in count fresh key) (find_in key (bucket_at bs i))
    look_in-drain_all hashed first key i [] fresh e w h =
        sym (or_else-none (look_in count fresh key))
    look_in-drain_all hashed first key zero (b ∷ bs) fresh e w h =
        look_in-drain_all_before hashed (suc first) key bs (drain hasher count b fresh)
          (length-drain b fresh ∙ e) (next_buckets hashed first b bs w) (omega arith)
        ∙ look_in-drain key b fresh e
        ∙ ap (λ o. or_else (look_in count fresh key) o)
            (find_last-find_in hashed first key b (first_bucket hashed first b bs w))
    look_in-drain_all hashed first key (suc i) (b ∷ bs) fresh e w h =
        look_in-drain_all hashed (suc first) key i bs (drain hasher count b fresh)
          (length-drain b fresh ∙ e) (next_buckets hashed first b bs w) (omega arith)
        ∙ ap (λ o. or_else o (find_in key (bucket_at bs i)))
            (look_in-drain_ne hashed first key b fresh e (first_bucket hashed first b bs w)
              (λ q. omega arith))
