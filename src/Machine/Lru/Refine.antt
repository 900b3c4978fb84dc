-- ===== src/Machine/Lru/Refine.antt =====
-- `LRUCache` against its specification: a list of keys and values, the most recent first.
pub mod Located
pub mod Operations
pub mod Recency
use cs16mem_model_vm.Base.{ℕ, ◌≤◌, Option, none, some, List, [], ◌∷◌, length, ◌==◌, if◌then◌else◌}
use cs16mem_model_vm.Machine.Lru.{Node, LruCache, lookup, erase}
use cs16mem_model_vm.Machine.Lru.Tracks.{Tracks}

module _ {ℓ} {K V : Type ℓ} where
  -- The keys of the storage with their nodes, and with their values.
  abbrev pub pairs : List (Node K V) → List (K × ℕ)
  pairs [] = []
  pairs (n ∷ ns) = (n.key, n.id) ∷ pairs ns

  abbrev pub entries : List (Node K V) → List (K × V)
  entries [] = []
  entries (n ∷ ns) = (n.key, n.value) ∷ entries ns

-- The specification: the least recent entry is the last one.
abbrev pub drop_last {ℓ} : {A : Type ℓ} → List A → List A
drop_last [] = []
drop_last (x ∷ []) = []
drop_last (x ∷ y ∷ xs) = x ∷ drop_last (y ∷ xs)

abbrev pub make_room {ℓ} : {A : Type ℓ} → (capacity : ℕ) → List A → List A
make_room capacity xs = if length xs == capacity then drop_last xs else xs

module _ {ℓ} {K V : Type ℓ} (dec : Discrete K) where
  -- An entry is written, or used: it is the most recent one afterwards.
  abbrev pub recent_emplace : (capacity : ℕ) → K → V → List (K × V) → List (K × V)
  recent_emplace capacity k v xs = elim (lookup dec k xs) [
    | some _ ↦ (k, v) ∷ erase dec k xs
    | none ↦ (k, v) ∷ make_room capacity xs
  ]

  abbrev pub recent_index : (capacity : ℕ) → K → V → List (K × V) → List (K × V)
  recent_index capacity k d xs = elim (lookup dec k xs) [
    | some v ↦ (k, v) ∷ erase dec k xs
    | none ↦ (k, d) ∷ make_room capacity xs
  ]

  -- A cache is well formed: its tracker agrees with its storage, and it is not over its capacity.
  pub record IsValid (capacity : ℕ) (c : LruCache K V) : Type ℓ where
    pub tracks : Tracks dec c.tracker (pairs c.storage) c.next_node
    pub bounded : length c.storage ≤ capacity
