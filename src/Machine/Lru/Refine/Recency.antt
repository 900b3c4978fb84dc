-- ===== src/Machine/Lru/Refine/Recency.antt =====
-- What the operations of `LRUCache` do to the recency list.
use cs16mem_model_vm.Base.{
  ℕ, ◌<◌, ◌≡◌, refl, sym, ap, ◌∙◌, false, not, none, some, ◌∷◌, ◌==◌, List, inl, inr,
  some-injective, Option-cases, arith,
}
use cs16mem_model_vm.Machine.Trap.{ok}
use cs16mem_model_vm.Machine.Lru.{
  LruCache, lookup, erase, unlink, touch, insert_new, emplace, index, at, find, contains,
}
use cs16mem_model_vm.Machine.Lru.Refine.{entries, make_room, recent_emplace, recent_index, IsValid}
use cs16mem_model_vm.Machine.Lru.Refine.Located.{Located, touch-write}
use cs16mem_model_vm.Machine.Lru.Refine.Operations.{
  front-IsValid, located, absent, insert_new-IsValid, entries-insert_new, find_lem,
}

not_zero : (n : ℕ) → 0 < n → (n == 0) ≡ false
not_zero n pos = ground arith

module _ {ℓ} {K V : Type ℓ} (dec : Discrete K) (capacity : ℕ) where
  -- A cache that is well formed and has the recency list `xs`.
  pub record Holds (xs : List (K × V)) (c : LruCache K V) : Type ℓ where
    pub valid : IsValid dec capacity c
    pub recent : entries c.storage ≡ xs

  module _ (c : LruCache K V) (v : IsValid dec capacity c) (k : K) where
    inserted-Holds :
        (x : V)
        → 0 < capacity
        → lookup dec k c.tracker ≡ none
        → Holds ((k, x) ∷ make_room capacity (entries c.storage)) (insert_new dec capacity k x c)
    inserted-Holds x pos e = record {
      valid = insert_new-IsValid dec capacity c v k x pos e;
      recent = entries-insert_new dec capacity c v k x;
    }

    -- The node `i` of the key is in front, with the value `x` or with its own.
    fronted-Holds :
        (i : ℕ) (w x : V)
        → lookup dec k c.tracker ≡ some i
        → Located dec k i w c.storage
        → Holds
            ((k, x) ∷ erase dec k (entries c.storage))
            (record c { storage = record { id = i; key = k; value = x } ∷ unlink i c.storage })
    fronted-Holds i w x e l = record {
      valid = front-IsValid dec capacity c v k i w x e l;
      recent = ap (λ t. (k, x) ∷ t) l.entries_rest;
    }

    touched-Holds :
        (i : ℕ) (w : V)
        → lookup dec k c.tracker ≡ some i
        → Located dec k i w c.storage
        → Holds
            ((k, w) ∷ erase dec k (entries c.storage))
            (record c { storage = touch i c.storage })
    unfolding touch
    touched-Holds i w e l = rw (touch, l.node) (fronted-Holds i w w e l)

    -- A well-formed cache of a positive capacity: `emplace` leaves it well formed, its recency list
    -- is the one that the specification gives (the entry in front; the least recent one gone if the
    -- key is new and the cache was full), and the Boolean says whether the key was missing.
    pub emplace_lem :
        (x : V)
        → 0 < capacity
        → Holds (recent_emplace dec capacity k x (entries c.storage)) (emplace dec capacity k x c).0
          × ((emplace dec capacity k x c).1 ≡ not (contains dec k c))
    unfolding emplace contains
    emplace_lem x pos = elim (Option-cases (lookup dec k c.tracker)) [
      | inl e ↦
          rw
            (
              emplace,
              contains,
              e,
              recent_emplace,
              absent dec capacity c v k e,
              not_zero capacity pos,
            )
            (inserted-Holds x pos e, refl)
      | inr (i, e) ↦
          let (w, l) = located dec capacity c v k i e in
          rw (emplace, contains, e, recent_emplace, l.value, touch-write dec i x _ c.storage l.node)
            (fronted-Holds i w x e l, refl)
    ]

    -- `operator[]` of a well-formed cache of a positive capacity does not throw; it leaves the cache
    -- well formed, with the entry of the key in front: the old one, or the default `d` in a new one.
    pub index_lem :
        (d : V)
        → 0 < capacity
        → (c' : LruCache K V) × ((index dec capacity k d c ≡ ok c')
            × Holds (recent_index dec capacity k d (entries c.storage)) c')
    unfolding index
    index_lem d pos = elim (Option-cases (lookup dec k c.tracker)) [
      | inl e ↦
          rw (index, e, recent_index, absent dec capacity c v k e, not_zero capacity pos)
            (insert_new dec capacity k d c, (refl, inserted-Holds d pos e))
      | inr (i, e) ↦
          let (w, l) = located dec capacity c v k i e in
          rw (index, e, recent_index, l.value)
            (record c { storage = touch i c.storage }, (refl, touched-Holds i w e l))
    ]

    -- `at` on a key that a well-formed cache holds returns its value and moves the entry to the front.
    at_lem :
        (x : V)
        → find dec k c ≡ some x
        → (c' : LruCache K V) × ((at dec k c ≡ ok (x, c'))
            × Holds ((k, x) ∷ erase dec k (entries c.storage)) c')
    unfolding at find
    at_lem x h = elim (Option-cases (lookup dec k c.tracker)) [
      | inl e ↦ absurd (ground (arith, absent dec capacity c v k e, find_lem dec capacity c v k, h))
      | inr (i, e) ↦
          let (w, l) = located dec capacity c v k i e in
          let same : w ≡ x =
            some-injective _ _ (sym l.value ∙ sym (find_lem dec capacity c v k) ∙ h) in
          rw (at, e, l.node, sym same)
            (record c { storage = touch i c.storage }, (refl, touched-Holds i w e l))
    ]
