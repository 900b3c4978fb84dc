-- ===== src/Machine/Lru/Tracks.antt =====
-- The agreement of the tracker of `LRUCache` with its storage, and the changes that keep it.
use cs16mem_model_vm.Base.{
  ℕ, suc, ◌+◌, ◌<◌, ◌≡◌, sym, ap, ◌∙◌, none, some, List, ◌∷◌, length, Among, Distinct, arith,
}
use cs16mem_model_vm.Machine.Lru.{lookup, erase}
use cs16mem_model_vm.Machine.Lru.Assoc.{
  DistinctKeys, lookup-erase_ne, lookup-erase_self, length-erase, erase-DistinctKeys, ids,
  Among-lookup, Among-erase, erase-Distinct, not-Among-erase,
}

module _ {ℓ} {K : Type ℓ} (dec : Discrete K) where
  -- The tracker `t` finds the node of each key of the storage, whose keys and nodes are `s`, and no
  -- other key; no key and no node stands twice, and the number `next` is fresh.
  pub record Tracks (t s : List (K × ℕ)) (next : ℕ) : Type ℓ where
    pub agrees : (k : K) → lookup dec k t ≡ lookup dec k s
    pub tracker_keys : DistinctKeys dec t
    pub storage_keys : DistinctKeys dec s
    pub nodes : Distinct (ids s)
    pub fresh : (i : ℕ) → Among i (ids s) → i < next
    pub sizes : length t ≡ length s

  -- The entry of `k` moves to the front of the storage.
  pub front-Tracks :
      (t s : List (K × ℕ)) (next : ℕ) (k : K) (i : ℕ)
      → Tracks t s next
      → lookup dec k t ≡ some i
      → Tracks t ((k, i) ∷ erase dec k s) next
  unfolding lookup
  front-Tracks t s next k i v h =
      let found : lookup dec k s ≡ some i = sym (v.agrees k) ∙ h in
      record {
        agrees = λ j. ground (arith, v.agrees j, lookup-erase_ne dec j k s);
        tracker_keys = v.tracker_keys;
        storage_keys =
            (lookup-erase_self dec k s v.storage_keys, erase-DistinctKeys dec k s v.storage_keys);
        nodes = (not-Among-erase dec k s i v.nodes found, erase-Distinct dec k s v.nodes);
        fresh = λ j a.
            ground
              (arith, v.fresh j, v.fresh i, Among-erase dec k s j, Among-lookup dec k s i found);
        sizes = v.sizes ∙ sym (length-erase dec k s i found);
      }

  -- The entry of `k` goes.
  pub erase-Tracks :
      (t s : List (K × ℕ)) (next : ℕ) (k : K) (i : ℕ)
      → Tracks t s next
      → lookup dec k s ≡ some i
      → Tracks (erase dec k t) (erase dec k s) next
  erase-Tracks t s next k i v found =
      let h : lookup dec k t ≡ some i = v.agrees k ∙ found in
      record {
        agrees = λ j. ground (
          arith,
          dec j k,
          v.agrees j,
          lookup-erase_ne dec j k s,
          lookup-erase_ne dec j k t,
          lookup-erase_self dec k s v.storage_keys,
          lookup-erase_self dec k t v.tracker_keys,
        );
        tracker_keys = erase-DistinctKeys dec k t v.tracker_keys;
        storage_keys = erase-DistinctKeys dec k s v.storage_keys;
        nodes = erase-Distinct dec k s v.nodes;
        fresh = λ j a. v.fresh j (Among-erase dec k s j a);
        sizes = omega (arith, v.sizes, length-erase dec k t i h, length-erase dec k s i found);
      }

  -- A new key comes to the front, on a fresh node.
  pub cons-Tracks :
      (t s : List (K × ℕ)) (next : ℕ) (k : K)
      → Tracks t s next
      → lookup dec k t ≡ none
      → Tracks ((k, next) ∷ t) ((k, next) ∷ s) (next + 1)
  unfolding lookup
  cons-Tracks t s next k v h = record {
    agrees = λ j. ground (arith, v.agrees j);
    tracker_keys = (h, v.tracker_keys);
    storage_keys = (sym (v.agrees k) ∙ h, v.storage_keys);
    nodes = (λ a. (ground (arith, v.fresh next)), v.nodes);
    fresh = λ j a. ground (arith, v.fresh j);
    sizes = ap suc v.sizes;
  }
