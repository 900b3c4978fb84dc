-- ===== src/Machine/Lru/Refine/Located.antt =====
-- The nodes of the storage by number and by key, and the last one.
use cs16mem_model_vm.Base.{
  ℕ, suc, ◌≡◌, refl, ap, none, some, List, [], ◌∷◌, length, Distinct, arith,
}
use cs16mem_model_vm.Machine.Lru.{
  Node, lookup, erase, node_of, unlink, write, touch, back, pop_back,
}
use cs16mem_model_vm.Machine.Lru.Assoc.{DistinctKeys, ids, Among-lookup}
use cs16mem_model_vm.Machine.Lru.Refine.{pairs, entries, drop_last}

module _ {ℓ} {K V : Type ℓ} (dec : Discrete K) where
  -- The node `i` holds the value `v` of the key `k`.
  pub record Located (k : K) (i : ℕ) (v : V) (ns : List (Node K V)) : Type ℓ where
    pub node : node_of i ns ≡ some (record { id = i; key = k; value = v })
    pub value : lookup dec k (entries ns) ≡ some v
    pub pairs_rest : pairs (unlink i ns) ≡ erase dec k (pairs ns)
    pub entries_rest : entries (unlink i ns) ≡ erase dec k (entries ns)

  Located-later :
      (k : K) (i : ℕ) (v : V) (n : Node K V) (ns : List (Node K V))
      → ¬ (n.key ≡ k)
      → ¬ (n.id ≡ i)
      → Located k i v ns
      → Located k i v (n ∷ ns)
  unfolding node_of lookup unlink erase
  Located-later k i v n ns h d l = record {
    node = ground (arith, l.node);
    value = ground (arith, l.value);
    pairs_rest = ground (arith, l.pairs_rest);
    entries_rest = ground (arith, l.entries_rest);
  }

  Located-here :
      (k : K) (i : ℕ) (n : Node K V) (ns : List (Node K V))
      → n.key ≡ k
      → n.id ≡ i
      → Located k i n.value (n ∷ ns)
  unfolding node_of lookup unlink erase
  Located-here k i n ns e f = record {
    node = ground (arith, e, f);
    value = ground (arith, e);
    pairs_rest = ground (arith, e, f);
    entries_rest = ground (arith, e, f);
  }

  pub locate :
      (k : K) (i : ℕ) (ns : List (Node K V))
      → Distinct (ids (pairs ns))
      → lookup dec k (pairs ns) ≡ some i
      → (v : V) × Located k i v ns
  unfolding lookup
  locate k i [] d h = ground arith
  locate k i (n ∷ ns) d h = elim (dec n.key k) [
    | yes e ↦ (n.value, Located-here k i n ns e (ground arith))
    | no e ↦
        let (v, l) = locate k i ns d.1 (ground arith) in
        (v, Located-later k i v n ns e (ground (arith, Among-lookup dec k (pairs ns) i)) l)
  ]

  pub lookup-none :
      (k : K) (ns : List (Node K V))
      → lookup dec k (pairs ns) ≡ none
      → lookup dec k (entries ns) ≡ none
  unfolding lookup
  lookup-none k [] h = refl
  lookup-none k (n ∷ ns) h = ground (arith, lookup-none k ns)

  node_of-write :
      (i : ℕ) (v : V) (n : Node K V) (ns : List (Node K V))
      → node_of i ns ≡ some n
      → node_of i (write i v ns) ≡ some (record n { value = v })
  unfolding node_of write
  node_of-write i v n [] h = ground arith
  node_of-write i v n (m ∷ ns) h = ground (arith, node_of-write i v n ns)

  unlink-write : (i : ℕ) (v : V) (ns : List (Node K V)) → unlink i (write i v ns) ≡ unlink i ns
  unfolding unlink write
  unlink-write i v [] = refl
  unlink-write i v (n ∷ ns) = ground (arith, unlink-write i v ns)

  -- A write to a node, then its move to the front.
  pub touch-write :
      (i : ℕ) (v : V) (n : Node K V) (ns : List (Node K V))
      → node_of i ns ≡ some n
      → touch i (write i v ns) ≡ record n { value = v } ∷ unlink i ns
  unfolding touch
  touch-write i v n ns h =
      rw (touch, node_of-write i v n ns h)
        (ap (λ t. record n { value = v } ∷ t) (unlink-write i v ns))

  pub length-pairs : (ns : List (Node K V)) → length (pairs ns) ≡ length ns
  length-pairs [] = refl
  length-pairs (n ∷ ns) = ap suc (length-pairs ns)

  pub length-entries : (ns : List (Node K V)) → length (entries ns) ≡ length ns
  length-entries [] = refl
  length-entries (n ∷ ns) = ap suc (length-entries ns)

  pub length-pop_back :
      (ns : List (Node K V)) (b : Node K V)
      → back ns ≡ some b
      → suc (length (pop_back ns)) ≡ length ns
  unfolding back pop_back
  length-pop_back [] b h = ground arith
  length-pop_back (n ∷ []) b h = refl
  length-pop_back (n ∷ m ∷ ns) b h = omega (arith, length-pop_back (m ∷ ns) b h)

  pub back-none : (ns : List (Node K V)) → back ns ≡ none → ns ≡ []
  unfolding back
  back-none [] h = refl
  back-none (n ∷ []) h = ground arith
  back-none (n ∷ m ∷ ns) h = ground (arith, back-none (m ∷ ns))

  pub length-unlink :
      (i : ℕ) (n : Node K V) (ns : List (Node K V))
      → node_of i ns ≡ some n
      → suc (length (unlink i ns)) ≡ length ns
  unfolding node_of unlink
  length-unlink i n [] h = ground arith
  length-unlink i n (m ∷ ns) h = ground (arith, length-unlink i n ns)

  pub entries-pop_back : (ns : List (Node K V)) → entries (pop_back ns) ≡ drop_last (entries ns)
  unfolding pop_back
  entries-pop_back [] = refl
  entries-pop_back (n ∷ []) = refl
  entries-pop_back (n ∷ m ∷ ns) = ground (arith, entries-pop_back (m ∷ ns))

  -- The key at the back is found there, and its removal is `pop_back`.
  pub back-pairs :
      (ns : List (Node K V)) (b : Node K V)
      → DistinctKeys dec (pairs ns)
      → back ns ≡ some b
      → (lookup dec b.key (pairs ns) ≡ some b.id)
        × (pairs (pop_back ns) ≡ erase dec b.key (pairs ns))
  unfolding back pop_back lookup erase
  back-pairs [] b d h = ground arith
  back-pairs (n ∷ []) b d h = ground arith
  back-pairs (n ∷ m ∷ ns) b d h =
      let (f, e) = back-pairs (m ∷ ns) b d.1 h in
      (ground (arith, f, d.0), ground (arith, f, e, d.0))
