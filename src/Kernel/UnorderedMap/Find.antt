-- ===== src/Kernel/UnorderedMap/Find.antt =====
-- `find` and `contains` of kernel/kstl/UnorderedMap.h, against the table the map represents.
use cs16mem_model_vm.Base.{ℕ, ◌%◌, ◌≡◌, not, Option, length, arith}
use cs16mem_model_vm.Machine.Trap.{ok, ◌>>=◌}
use cs16mem_model_vm.Kernel.UnorderedMap.{UnorderedMap, find_in, bucket_at, find, contains}
use cs16mem_model_vm.Kernel.UnorderedMap.Buckets.{is_none}
use cs16mem_model_vm.Kernel.UnorderedMap.Laws.{Represents, at_location}

module _ {ℓ} {V : Type ℓ} (hasher : ℕ → ℕ) where
  -- `find` and `contains` of a map that represents a table give the table's answer.
  pub find-contains_lem :
      (key : ℕ) (m : UnorderedMap V) (table : ℕ → Option V)
      → Represents hasher m table
      → (find hasher m key ≡ ok (table key))
        × (contains hasher m key ≡ ok (not (is_none (table key))))
  unfolding find contains
  find-contains_lem key m table r =
      let found : find_in key (bucket_at m.buckets (hasher key % length m.buckets)) ≡ table key =
        r.answers key in
      (
        rw (at_location hasher m key r.valid, ◌>>=◌, found),
        rw (at_location hasher m key r.valid, ◌>>=◌, found) (ground arith),
      )
