-- ===== src/Machine/CacheTests.antt =====
-- The instruction cache on small inputs.
use cs16mem_model_vm.Base.{ℕ, ◌≡◌, refl, not, [], ◌∷◌, ℕ_discrete, arith}
use cs16mem_model_vm.Machine.Trap.{ok}
use cs16mem_model_vm.Machine.Lru.{
  LruCache, empty_cache, lookup, erase, touch, node_of, unlink, write, back, pop_back, pop,
  insert_new, emplace, index, at, find, contains,
}
use cs16mem_model_vm.Machine.Lru.Refine.{entries, recent_emplace, recent_index, IsValid}
use cs16mem_model_vm.Machine.Lru.Refine.Operations.{empty_cache-IsValid}
use cs16mem_model_vm.Machine.Lru.Refine.Recency.{Holds, emplace_lem, index_lem}
use cs16mem_model_vm.Machine.Core.{fetch, read_instruction}
use cs16mem_model_vm.Machine.Core.Fetch.{Coherent, fetch_lem}
use cs16mem_model_vm.Machine.Tests.{user_machine}

cache_code : Unit {0}
unfolding ℕ_discrete lookup erase touch node_of unlink write back pop_back pop insert_new emplace
    index at find contains
cache_code = tt

abbrev empty : LruCache ℕ ℕ
empty = empty_cache

-- A full cache of capacity 2 and its least recent entry, which the next new key evicts.
abbrev two : LruCache ℕ ℕ
two = record {
  storage =
      record { id = 1; key = 20; value = 200 } ∷ record { id = 0; key = 10; value = 100 } ∷ [];
  tracker = (20, 1) ∷ (10, 0) ∷ [];
  next_node = 2;
}

two-IsValid : IsValid ℕ_discrete 2 two
unfolding cache_code
two-IsValid =
    (emplace_lem ℕ_discrete 2
      (record {
        storage = record { id = 0; key = 10; value = 100 } ∷ [];
        tracker = (10, 0) ∷ [];
        next_node = 1;
      })
      (emplace_lem ℕ_discrete 2 empty (empty_cache-IsValid ℕ_discrete 2) 10 100
        (omega arith)).0.valid
      20 200 (omega arith)).0.valid

evicts :
    (emplace ℕ_discrete 2 30 300 two).0.storage
    ≡ record { id = 2; key = 30; value = 300 } ∷ record { id = 1; key = 20; value = 200 } ∷ []
unfolding cache_code
evicts = refl

emplace_lem_example :
    Holds ℕ_discrete 2
      (recent_emplace ℕ_discrete 2 30 300 (entries two.storage))
      (emplace ℕ_discrete 2 30 300 two).0
    × ((emplace ℕ_discrete 2 30 300 two).1 ≡ not (contains ℕ_discrete 30 two))
emplace_lem_example = emplace_lem ℕ_discrete 2 two two-IsValid 30 300 (omega arith)

index_lem_example :
    (c' : LruCache ℕ ℕ) × ((index ℕ_discrete 2 10 0 two ≡ ok c')
      × Holds ℕ_discrete 2 (recent_index ℕ_discrete 2 10 0 (entries two.storage)) c')
index_lem_example = index_lem ℕ_discrete 2 two two-IsValid 10 0 (omega arith)

user_machine-Coherent : Coherent user_machine
unfolding cache_code
user_machine-Coherent = record {
  valid = empty_cache-IsValid ℕ_discrete 32768;
  decoded = λ pc i h. ground (arith, h);
}

fetch_lem_example :
    ((fetch user_machine).0 ≡ read_instruction user_machine user_machine.program_counter)
    × Coherent (fetch user_machine).1
fetch_lem_example = fetch_lem user_machine user_machine-Coherent
