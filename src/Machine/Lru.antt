-- ===== src/Machine/Lru.antt =====
-- `LRUCache` of machine/LRUCache.h. `storage` is the `std::list`, whose nodes keep their identity
-- when they move: the iterators of `tracker` are node numbers here.
pub mod Assoc
pub mod Tracks
pub mod Refine
use cs16mem_model_vm.Base.{
  ℕ, ◌+◌, Bool, true, false, Option, none, some, List, [], ◌∷◌, length, ◌==◌, if◌then◌else◌,
}
use cs16mem_model_vm.Machine.Trap.{Result, ok, crash, ◌>>=◌}

pub record Node {ℓ} (K V : Type ℓ) : Type ℓ where
  pub id : ℕ
  pub key : K
  pub value : V

pub record LruCache {ℓ} (K V : Type ℓ) : Type ℓ where
  pub storage : List (Node K V)
  pub tracker : List (K × ℕ)
  pub next_node : ℕ

module _ {ℓ} {K V : Type ℓ} where
  -- `LRUCache()`, and what `clear` leaves.
  abbrev pub empty_cache : LruCache K V
  empty_cache = record { storage = []; tracker = []; next_node = 0 }

  unfoldable pub clear : LruCache K V → LruCache K V
  clear c = record c { storage = []; tracker = [] }

  unfoldable pub size : LruCache K V → ℕ
  size c = length c.storage

  -- The node that an iterator points to.
  unfoldable pub node_of : ℕ → List (Node K V) → Option (Node K V)
  node_of i [] = none
  node_of i (n ∷ ns) = if n.id == i then some n else node_of i ns

  unfoldable pub unlink : ℕ → List (Node K V) → List (Node K V)
  unlink i [] = []
  unlink i (n ∷ ns) = if n.id == i then ns else n ∷ unlink i ns

  unfoldable pub write : ℕ → V → List (Node K V) → List (Node K V)
  write i v [] = []
  write i v (n ∷ ns) = if n.id == i then record n { value = v } ∷ ns else n ∷ write i v ns

  -- `touch`: `splice` moves the node to the front.
  unfoldable pub touch : ℕ → List (Node K V) → List (Node K V)
  touch i ns = elim (node_of i ns) [ none ↦ ns | some n ↦ n ∷ unlink i ns ]

  unfoldable pub back : List (Node K V) → Option (Node K V)
  back [] = none
  back (n ∷ []) = some n
  back (n ∷ m ∷ ns) = back (m ∷ ns)

  unfoldable pub pop_back : List (Node K V) → List (Node K V)
  pop_back [] = []
  pop_back (n ∷ []) = []
  pop_back (n ∷ m ∷ ns) = n ∷ pop_back (m ∷ ns)

module _ {ℓ ℓ'} {K : Type ℓ} {B : Type ℓ'} (dec : Discrete K) where
  -- `tracker.find`, and `tracker.erase`.
  unfoldable pub lookup : K → List (K × B) → Option B
  lookup k [] = none
  lookup k ((j, i) ∷ t) = elim (dec j k) [ yes _ ↦ some i | no _ ↦ lookup k t ]

  unfoldable pub erase : K → List (K × B) → List (K × B)
  erase k [] = []
  erase k ((j, i) ∷ t) = elim (dec j k) [ yes _ ↦ t | no _ ↦ (j, i) ∷ erase k t ]

module _ {ℓ} {K V : Type ℓ} (dec : Discrete K) where
  -- `pop`
  unfoldable pub pop : LruCache K V → LruCache K V
  pop c = elim (back c.storage) [
    | none ↦ c
    | some n ↦ record c { storage = pop_back c.storage; tracker = erase dec n.key c.tracker }
  ]

  -- The insertion at the end of `emplace` and of `operator[]`, past the test for an equal key: the
  -- least recent entry goes if the cache is full.
  unfoldable pub insert_new : (capacity : ℕ) → K → V → LruCache K V → LruCache K V
  insert_new capacity k v c =
      let c' = if length c.tracker == capacity then pop c else c in
      record {
        storage = record { id = c'.next_node; key = k; value = v } ∷ c'.storage;
        tracker = (k, c'.next_node) ∷ erase dec k c'.tracker;
        next_node = c'.next_node + 1;
      }

  -- `emplace`: the Boolean says whether the key is new.
  unfoldable pub emplace : (capacity : ℕ) → K → V → LruCache K V → LruCache K V × Bool
  emplace capacity k v c = elim (lookup dec k c.tracker) [
    | some i ↦ (record c { storage = touch i (write i v c.storage) }, false)
    | none ↦ if capacity == 0 then (c, false) else (insert_new capacity k v c, true)
  ]

  -- `operator[]`: the entry is moved to the front, or made with the default value `d`; at capacity 0
  -- it throws. The value is read through the front of the list.
  unfoldable pub index : (capacity : ℕ) → K → V → LruCache K V → Result (LruCache K V)
  index capacity k d c = elim (lookup dec k c.tracker) [
    | some i ↦ ok (record c { storage = touch i c.storage })
    | none ↦ if capacity == 0 then crash else ok (insert_new capacity k d c)
  ]

  -- `at`, which throws on a missing key and touches the entry.
  unfoldable pub at : K → LruCache K V → Result (V × LruCache K V)
  at k c = elim (lookup dec k c.tracker) [
    | none ↦ crash
    | some i ↦ elim (node_of i c.storage) [
      | none ↦ crash
      | some n ↦ ok (n.value, record c { storage = touch i c.storage })
    ]
  ]

  -- `find`, without a touch.
  unfoldable pub find : K → LruCache K V → Option V
  find k c = elim (lookup dec k c.tracker) [
    | none ↦ none
    | some i ↦ elim (node_of i c.storage) [ none ↦ none | some n ↦ some n.value ]
  ]

  unfoldable pub contains : K → LruCache K V → Bool
  contains k c = elim (lookup dec k c.tracker) [ none ↦ false | some _ ↦ true ]
