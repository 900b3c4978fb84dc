-- ===== src/Kernel/UnorderedMap.antt =====
-- `ministl::unordered_map` of kernel/kstl/UnorderedMap.h with `uint32_t` keys, as the page table
-- uses it. A bucket is the list of its entries from head to tail, whose `_size` is their number, as it is
-- until something is erased; the map's iterators are the entries they stand on.
pub mod Buckets
pub mod Rehash
pub mod Laws
pub mod Insert
pub mod Find
use cs16mem_model_vm.Base.{
  ℕ, zero, suc, ◌+◌, ◌*◌, ◌%◌, ◌^◌, Bool, true, false, ◌&&◌, ◌||◌, ◌==◌, ltb, if◌then◌else◌, Option,
  none, some, List, [], ◌∷◌, ◌++◌, length, replicate, bit_xor,
}
use cs16mem_model_vm.Base.Words.{shr}
use cs16mem_model_vm.Machine.Trap.{Result, ok, crash, require, ◌>>=◌, ◌>>◌}

-- `hash<uint32_t>::operator()`.
unfoldable pub hash : ℕ → ℕ
hash h0 =
    let h1 = bit_xor h0 (shr h0 16) in
    let h2 = h1 * 0x85ebca6b % 2 ^ 32 in
    let h3 = bit_xor h2 (shr h2 13) in let h4 = h3 * 0xc2b2ae35 % 2 ^ 32 in bit_xor h4 (shr h4 16)

module _ {ℓ} {V : Type ℓ} where
  -- The walk of one bucket that `find`, `contains`, `emplace` and `operator[]` make.
  abbrev pub find_in : ℕ → List (ℕ × V) → Option V
  find_in key [] = none
  find_in key ((k, v) ∷ rest) = if key == k then some v else find_in key rest

  abbrev pub bucket_at : List (List (ℕ × V)) → ℕ → List (ℕ × V)
  bucket_at [] i = []
  bucket_at (b ∷ bs) zero = b
  bucket_at (b ∷ bs) (suc i) = bucket_at bs i

  abbrev pub set_bucket : List (List (ℕ × V)) → ℕ → List (ℕ × V) → List (List (ℕ × V))
  set_bucket [] i b' = []
  set_bucket (b ∷ bs) zero b' = b' ∷ bs
  set_bucket (b ∷ bs) (suc i) b' = b ∷ set_bucket bs i b'

  -- `buckets[loc].emplace_back(entry)`.
  abbrev pub push_at : List (List (ℕ × V)) → ℕ → ℕ × V → List (List (ℕ × V))
  push_at bs loc entry = set_bucket bs loc (bucket_at bs loc ++ entry ∷ [])

  abbrev pub all_empty : List (List (ℕ × V)) → Bool
  all_empty [] = true
  all_empty ([] ∷ bs) = all_empty bs
  all_empty ((_ ∷ _) ∷ bs) = false

pub record UnorderedMap {ℓ} (V : Type ℓ) : Type ℓ where
  pub buckets : List (List (ℕ × V))
  pub size : ℕ

-- The constructor from a bucket count; without one it is `DEFAULT_CAP`.
abbrev pub with_buckets {ℓ} : {V : Type ℓ} → ℕ → UnorderedMap V
with_buckets count = record { buckets = replicate count []; size = 0 }

abbrev pub default_cap : ℕ
default_cap = 8

module _ {ℓ} {V : Type ℓ} (hasher : ℕ → ℕ) where
  -- `hasher(key) % buckets.size()`: no meaning without buckets.
  abbrev pub location : UnorderedMap V → ℕ → Result ℕ
  location m key = require (ltb 0 (length m.buckets)) >> ok (hasher key % length m.buckets)

  -- The inner loop of `rehash`: the bucket is emptied from its tail.
  abbrev pub drain : ℕ → List (ℕ × V) → List (List (ℕ × V)) → List (List (ℕ × V))
  drain count [] fresh = fresh
  drain count ((k, v) ∷ rest) fresh = push_at (drain count rest fresh) (hasher k % count) (k, v)

  abbrev pub drain_all : ℕ → List (List (ℕ × V)) → List (List (ℕ × V)) → List (List (ℕ × V))
  drain_all count [] fresh = fresh
  drain_all count (b ∷ bs) fresh = drain_all count bs (drain count b fresh)

  -- Entries moved into no buckets are a division by zero.
  unfoldable pub rehash : UnorderedMap V → ℕ → Result (UnorderedMap V)
  rehash m count =
      if ltb count m.size
      then ok m
      else (require (ltb 0 count || all_empty m.buckets)
          >> ok (record m { buckets = drain_all count m.buckets (replicate count []) }))

  -- The first line of `emplace` and `operator[]`.
  unfoldable pub grow : UnorderedMap V → Result (UnorderedMap V)
  grow m = if m.size == length m.buckets then rehash m (length m.buckets * 2 % 2 ^ 32) else ok m

  abbrev pub add_entry : UnorderedMap V → ℕ → ℕ × V → UnorderedMap V
  add_entry m loc entry = record {
    buckets = push_at m.buckets loc entry;
    size = (m.size + 1) % 2 ^ 32;
  }

  -- `emplace(key, value)`: whether the entry is new.
  unfoldable pub emplace : ℕ → V → UnorderedMap V → Result (UnorderedMap V × Bool)
  emplace key value m = do
    grown ← grow m
    loc ← location grown key
    elim (find_in key (bucket_at grown.buckets loc)) [
      | some v ↦ ok (grown, false)
      | none ↦ ok (add_entry grown loc (key, value), true)
    ]

  -- `operator[](key)`, with `init` for `T()`: the map and the value under the reference.
  unfoldable pub index : V → ℕ → UnorderedMap V → Result (UnorderedMap V × V)
  index init key m = do
    grown ← grow m
    loc ← location grown key
    elim (find_in key (bucket_at grown.buckets loc)) [
      | some v ↦ ok (grown, v)
      | none ↦ ok (add_entry grown loc (key, init), init)
    ]

  unfoldable pub find : UnorderedMap V → ℕ → Result (Option V)
  find m key = do loc ← location m key; ok (find_in key (bucket_at m.buckets loc))

  unfoldable pub contains : UnorderedMap V → ℕ → Result Bool
  contains m key = do
    loc ← location m key
    ok (elim (find_in key (bucket_at m.buckets loc)) [ some v ↦ true | none ↦ false ])
