-- ===== src/Machine/Lru/Refine/Operations.antt =====
-- The parts that the operations of `LRUCache` are made of.
use cs16mem_model_vm.Base.{
  ℕ, ◌+◌, ◌<◌, ◌≡◌, refl, sym, ap, ◌∙◌, subst, inl, inr, none, some, ◌∷◌, length, ◌==◌,
  Option-cases, Bool-cases, arith,
}
use cs16mem_model_vm.Machine.Lru.{
  LruCache, empty_cache, lookup, erase, unlink, back, pop, insert_new, find,
}
use cs16mem_model_vm.Machine.Lru.Assoc.{erase_absent, lookup-erase_ne, lookup-erase_self}
use cs16mem_model_vm.Machine.Lru.Tracks.{Tracks, front-Tracks, erase-Tracks, cons-Tracks}
use cs16mem_model_vm.Machine.Lru.Refine.{pairs, entries, drop_last, make_room, IsValid}
use cs16mem_model_vm.Machine.Lru.Refine.Located.{
  Located, locate, lookup-none, length-pairs, length-entries, entries-pop_back, back-pairs,
  length-pop_back, back-none, length-unlink,
}

module _ {ℓ} {K V : Type ℓ} (dec : Discrete K) (capacity : ℕ) where
  pub empty_cache-IsValid : IsValid {V = V} dec capacity empty_cache
  empty_cache-IsValid = record {
    tracks = record {
      agrees = λ k. refl;
      tracker_keys = tt;
      storage_keys = tt;
      nodes = tt;
      fresh = λ i a. absurd a;
      sizes = refl;
    };
    bounded = omega arith;
  }

  -- The changes of the storage that the operations are made of: `rest` is a storage whose nodes, or
  -- whose entries, are those without the key.
  module _ (c : LruCache K V) (v : IsValid dec capacity c) where
    pub pop-IsValid : IsValid dec capacity (pop dec c)
    unfolding pop
    pop-IsValid = elim (Option-cases (back c.storage)) [
      | inl e ↦ rw (pop, e) v
      | inr (b, e) ↦
          let (f, p) = back-pairs dec c.storage b v.tracks.storage_keys e in
          rw (pop, e)
            record {
              tracks =
                  subst (λ s. Tracks dec (erase dec b.key c.tracker) s c.next_node) (sym p)
                    (erase-Tracks dec c.tracker (pairs c.storage) c.next_node b.key b.id v.tracks
                      f);
              bounded = omega (arith, v.bounded, length-pop_back dec c.storage b e);
            }
    ]

    pub entries-pop : entries (pop dec c).storage ≡ drop_last (entries c.storage)
    unfolding pop
    entries-pop = elim (Option-cases (back c.storage)) [
      | inl e ↦ rw (pop, e) (rw (back-none dec c.storage e) refl)
      | inr (b, e) ↦ rw (pop, e) (entries-pop_back dec c.storage)
    ]

    pub front-IsValid :
        (k : K) (i : ℕ) (w x : V)
        → lookup dec k c.tracker ≡ some i
        → Located dec k i w c.storage
        → IsValid dec capacity
            (record c { storage = record { id = i; key = k; value = x } ∷ unlink i c.storage })
    front-IsValid k i w x h l = record {
      tracks =
          subst (λ s. Tracks dec c.tracker ((k, i) ∷ s) c.next_node) (sym l.pairs_rest)
            (front-Tracks dec c.tracker (pairs c.storage) c.next_node k i v.tracks h);
      bounded = omega (arith, v.bounded, length-unlink dec i _ c.storage l.node);
    }

    pub located :
        (k : K) (i : ℕ) → lookup dec k c.tracker ≡ some i → (w : V) × Located dec k i w c.storage
    located k i h = locate dec k i c.storage v.tracks.nodes (sym (v.tracks.agrees k) ∙ h)

    pub absent : (k : K) → lookup dec k c.tracker ≡ none → lookup dec k (entries c.storage) ≡ none
    absent k h = lookup-none dec k c.storage (sym (v.tracks.agrees k) ∙ h)

    -- `find` reads the entry in the recency list.
    pub find_lem : (k : K) → find dec k c ≡ lookup dec k (entries c.storage)
    unfolding find
    find_lem k = elim (Option-cases (lookup dec k c.tracker)) [
      | inl e ↦ rw (find, e) (sym (absent k e))
      | inr (i, e) ↦ let (w, l) = located k i e in rw (find, e, l.node) (sym l.value)
    ]

    -- A key that is missing is missing after `pop`, and `pop` makes room in a full cache.
    absent-pop : (k : K) → lookup dec k c.tracker ≡ none → lookup dec k (pop dec c).tracker ≡ none
    unfolding pop lookup
    absent-pop k h = elim (Option-cases (back c.storage)) [
      | inl e ↦ rw (pop, e) h
      | inr (b, e) ↦
          rw (pop, e)
            (ground (
              arith,
              dec k b.key,
              lookup-erase_ne dec k b.key c.tracker,
              lookup-erase_self dec b.key c.tracker v.tracks.tracker_keys,
              h,
            ))
    ]

    length-pop : 0 < capacity → length (pop dec c).storage < capacity
    unfolding pop
    length-pop pos = elim (Option-cases (back c.storage)) [
      | inl e ↦ rw (pop, e) (rw (back-none dec c.storage e) pos)
      | inr (b, e) ↦ rw (pop, e) (omega (arith, v.bounded, length-pop_back dec c.storage b e))
    ]

    length-tracker : length c.tracker ≡ length c.storage
    length-tracker = v.tracks.sizes ∙ length-pairs dec c.storage

  -- A new entry at the front of a cache with room.
  pushed-IsValid :
      (c : LruCache K V) (k : K) (x : V)
      → IsValid dec capacity c
      → length c.storage < capacity
      → lookup dec k c.tracker ≡ none
      → IsValid dec capacity (record {
        storage = record { id = c.next_node; key = k; value = x } ∷ c.storage;
        tracker = (k, c.next_node) ∷ erase dec k c.tracker;
        next_node = c.next_node + 1;
      })
  pushed-IsValid c k x v room h = record {
    tracks =
        subst
          (λ t.
            Tracks dec ((k, c.next_node) ∷ t) ((k, c.next_node) ∷ pairs c.storage)
              (c.next_node + 1))
          (sym (erase_absent dec k c.tracker h))
          (cons-Tracks dec c.tracker (pairs c.storage) c.next_node k v.tracks h);
    bounded = omega (arith, room);
  }

  module _ (c : LruCache K V) (v : IsValid dec capacity c) where
    pub insert_new-IsValid :
        (k : K) (x : V)
        → 0 < capacity
        → lookup dec k c.tracker ≡ none
        → IsValid dec capacity (insert_new dec capacity k x c)
    unfolding insert_new
    insert_new-IsValid k x pos h = elim (Bool-cases (length c.tracker == capacity)) [
      | inl e ↦
          rw (insert_new, e)
            (pushed-IsValid (pop dec c) k x (pop-IsValid c v) (length-pop c v pos)
              (absent-pop c v k h))
      | inr e ↦
          rw (insert_new, e)
            (pushed-IsValid c k x v (ground (arith, v.bounded, length-tracker c v)) h)
    ]

    pub entries-insert_new :
        (k : K) (x : V)
        → entries (insert_new dec capacity k x c).storage
          ≡ (k, x) ∷ make_room capacity (entries c.storage)
    unfolding insert_new
    entries-insert_new k x = elim (Bool-cases (length c.tracker == capacity)) [
      | inl e ↦
          rw (insert_new, e, length-entries dec c.storage, sym (length-tracker c v))
            (rw e (ap (λ t. (k, x) ∷ t) (entries-pop c v)))
      | inr e ↦
          rw (insert_new, e, length-entries dec c.storage, sym (length-tracker c v)) (rw e refl)
    ]
