-- ===== src/Kernel/MapTests.antt =====
-- The model of kernel/kstl/UnorderedMap.h on a full map of one bucket.
use cs16mem_model_vm.Base.{
  ◌+◌, ◌*◌, ℕ, zero, suc, ◌%◌, ◌≡◌, refl, ap, true, Option, none, some, [], ◌∷◌, ◌==◌,
  if◌then◌else◌, update, arith, ℕ_discrete,
}
use cs16mem_model_vm.Machine.Trap.{ok}
use cs16mem_model_vm.Kernel.UnorderedMap.{
  UnorderedMap, hash, rehash, grow, emplace, index, find, contains, find_in, bucket_at,
}
use cs16mem_model_vm.Kernel.UnorderedMap.Rehash.{Hashed}
use cs16mem_model_vm.Kernel.UnorderedMap.Laws.{Represents}
use cs16mem_model_vm.Kernel.UnorderedMap.Insert.{emplace-Represents, index-Represents}
use cs16mem_model_vm.Kernel.UnorderedMap.{with_buckets}
use cs16mem_model_vm.Kernel.UnorderedMap.Laws.{with_buckets-Represents}
use cs16mem_model_vm.Kernel.Pages.{entry}
use cs16mem_model_vm.Kernel.Pages.HashTable.{HashPageTable, map_hash, walk_hash, walk-map_hash}

abbrev full : UnorderedMap ℕ
full = record { buckets = ((3, 7) ∷ []) ∷ []; size = 1 }

abbrev contents : ℕ → Option ℕ
contents key = if key == 3 then some 7 else none

full-Represents : Represents hash full contents
full-Represents = record {
  valid = record { some_buckets = omega arith; hashed = hashed };
  answers = λ key.
      let e : hash key % 1 ≡ 0 = omega arith in ap (λ i. find_in key (bucket_at full.buckets i)) e;
}
  where
    hashed : Hashed hash 1 full.buckets
    hashed zero = (omega arith, refl, tt)
    hashed (suc i) = tt

map_code : Unit {0}
unfolding ℕ_discrete hash rehash grow emplace index find contains
map_code = tt

-- The full map grows to two buckets.
grown :
    emplace hash 5 9 full
    ≡ ok (record { buckets = [] ∷ ((3, 7) ∷ (5, 9) ∷ []) ∷ []; size = 2 }, true)
unfolding map_code
grown = refl

emplace-Represents_example :
    (m' : UnorderedMap ℕ) × (emplace hash 5 9 full ≡ ok (m', true))
    × (m'.size ≡ 2)
    × Represents hash m' (update contents 5 (some 9))
emplace-Represents_example = emplace-Represents hash 5 9 full contents full-Represents

index_kept :
    (m' : UnorderedMap ℕ) × (index hash 0 3 full ≡ ok (m', 7))
    × Represents hash m' (update contents 3 (some 7))
index_kept = index-Represents hash 0 3 full contents full-Represents

-- A page table with no page yet.
walk-map_hash_example :
    (t' : HashPageTable) × (map_hash (entry 20 5) 0x400 (with_buckets 8) ≡ ok (t', true))
    × Represents hash t' (update (λ _. none) 0x400 (some (entry 20 5)))
    × (walk_hash t' (0x400 * 4096 + 12) ≡ ok (some (entry 20 5)))
walk-map_hash_example =
    walk-map_hash (entry 20 5) 0x400 12 (with_buckets 8) (λ _. none)
      (with_buckets-Represents hash 8 (omega arith)) (omega arith) (omega arith) (omega arith)
