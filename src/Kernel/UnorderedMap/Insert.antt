-- ===== src/Kernel/UnorderedMap/Insert.antt =====
-- `emplace` and `operator[]` of kernel/kstl/UnorderedMap.h, against the table the map represents.
use cs16mem_model_vm.Base.{
  ℕ, ◌+◌, ◌%◌, ◌^◌, ◌<◌, ◌≡◌, ◌∙◌, ap, sym, refl, true, false, if◌then◌else◌, Option, none, some,
  length, update, arith, ℕ_discrete, subst,
}
use cs16mem_model_vm.Machine.Trap.{ok, ◌>>=◌}
use cs16mem_model_vm.Kernel.UnorderedMap.{
  UnorderedMap, find_in, bucket_at, push_at, grow, emplace, index, add_entry,
}
use cs16mem_model_vm.Kernel.UnorderedMap.Buckets.{
  is_none, value_or, or_else, or_else-none, hit, length-set_bucket,
}
use cs16mem_model_vm.Kernel.UnorderedMap.Rehash.{look_in, Hashed, look_in-push_at, push_at-Hashed}
use cs16mem_model_vm.Kernel.UnorderedMap.Laws.{look, Represents, grow_lem, at_location}

module _ {ℓ} {V : Type ℓ} (hasher : ℕ → ℕ) where
  -- Room for one entry more under a key that has none.
  add_entry-Represents :
      (m : UnorderedMap V) (key : ℕ) (v : V) (table : ℕ → Option V)
      → Represents hasher m table
      → table key ≡ none
      → Represents hasher
          (add_entry hasher m (hasher key % length m.buckets) (key, v))
          (update table key (some v))
  add_entry-Represents m key v table r new =
      let n = length m.buckets in
      let loc = hasher key % n in
      let found : look hasher m key ≡ none = r.answers key ∙ new in
      let room : loc < n = omega (arith, r.valid.some_buckets) in
      let same : length (push_at m.buckets loc (key, v)) ≡ n = length-set_bucket m.buckets loc _ in
      record {
        valid = record {
          some_buckets = omega (arith, same, r.valid.some_buckets);
          hashed =
              subst (λ c. Hashed hasher c (push_at m.buckets loc (key, v))) (sym same)
                (push_at-Hashed hasher n key v m.buckets room found r.valid.hashed);
        };
        answers = λ j.
            ap (λ c. look_in hasher c (push_at m.buckets loc (key, v)) j) same
            ∙ look_in-push_at hasher n j key v m.buckets room
            ∙ added j (look hasher m j) (r.answers j);
      }
    where
      added :
          (j : ℕ) (o : Option V)
          → o ≡ table j
          → or_else o (hit j (key, v)) ≡ update table key (some v) j
      added j o e = elim (ℕ_discrete key j) [
        | yes q ↦ ground (arith, ap table q)
        | no q ↦ ground (arith, or_else-none o)
      ]

  emplace_known :
      (m g : UnorderedMap V) (key : ℕ) (v u : V) (table : ℕ → Option V)
      → grow hasher m ≡ ok g
      → Represents hasher g table
      → table key ≡ some u
      → emplace hasher key v m ≡ ok (g, false)
  unfolding emplace
  emplace_known m g key v u table e r known =
      let found : find_in key (bucket_at g.buckets (hasher key % length g.buckets)) ≡ some u =
        r.answers key ∙ known in
      rw (e, at_location hasher g key r.valid, ◌>>=◌, found)

  emplace_new :
      (m g : UnorderedMap V) (key : ℕ) (v : V) (table : ℕ → Option V)
      → grow hasher m ≡ ok g
      → Represents hasher g table
      → table key ≡ none
      → emplace hasher key v m
        ≡ ok (add_entry hasher g (hasher key % length g.buckets) (key, v), true)
  unfolding emplace
  emplace_new m g key v table e r new =
      let found : find_in key (bucket_at g.buckets (hasher key % length g.buckets)) ≡ none =
        r.answers key ∙ new in
      rw (e, at_location hasher g key r.valid, ◌>>=◌, found)

  update_known-Represents :
      (key : ℕ) (u : V) (m : UnorderedMap V) (table : ℕ → Option V)
      → Represents hasher m table
      → table key ≡ some u
      → Represents hasher m (update table key (some u))
  update_known-Represents key u m table r q = record {
    valid = r.valid;
    answers = λ j. r.answers j ∙ ground (arith, q, ap table);
  }

  -- `emplace` of a map that represents a table ends normally; it reports whether the key was new,
  -- and counts it then (modulo 2^32). The map after it represents the table with the value at the
  -- key, unless the table had one, which stays. This holds whether or not the map grows first.
  pub emplace-Represents :
      (key : ℕ) (v : V) (m : UnorderedMap V) (table : ℕ → Option V)
      → Represents hasher m table
      → (m' : UnorderedMap V) × (emplace hasher key v m ≡ ok (m', is_none (table key)))
        × (m'.size ≡ (if is_none (table key) then (m.size + 1) % 2 ^ 32 else m.size))
        × Represents hasher m' (update table key (or_else (table key) (some v)))
  emplace-Represents key v m table r =
      let (g, e, same, rg) = grow_lem hasher m table r in by_answer (table key) refl g e same rg
    where
      by_answer :
          (o : Option V)
          → table key ≡ o
          → (g : UnorderedMap V) → grow hasher m ≡ ok g
          → g.size ≡ m.size
          → Represents hasher g table
          → (m' : UnorderedMap V) × (emplace hasher key v m ≡ ok (m', is_none (table key)))
            × (m'.size ≡ (if is_none (table key) then (m.size + 1) % 2 ^ 32 else m.size))
            × Represents hasher m' (update table key (or_else (table key) (some v)))
      by_answer none q g e same rg = rw q (
        add_entry hasher g (hasher key % length g.buckets) (key, v),
        emplace_new m g key v table e rg q,
        ap (λ n. (n + 1) % 2 ^ 32) same,
        add_entry-Represents g key v table rg q,
      )
      by_answer (some u) q g e same rg = rw q (
        g,
        emplace_known m g key v u table e rg q,
        same,
        update_known-Represents key u g table rg q,
      )

  index_known :
      (m g : UnorderedMap V) (init : V) (key : ℕ) (u : V) (table : ℕ → Option V)
      → grow hasher m ≡ ok g
      → Represents hasher g table
      → table key ≡ some u
      → index hasher init key m ≡ ok (g, u)
  unfolding index
  index_known m g init key u table e r known =
      let found : find_in key (bucket_at g.buckets (hasher key % length g.buckets)) ≡ some u =
        r.answers key ∙ known in
      rw (e, at_location hasher g key r.valid, ◌>>=◌, found)

  index_new :
      (m g : UnorderedMap V) (init : V) (key : ℕ) (table : ℕ → Option V)
      → grow hasher m ≡ ok g
      → Represents hasher g table
      → table key ≡ none
      → index hasher init key m
        ≡ ok (add_entry hasher g (hasher key % length g.buckets) (key, init), init)
  unfolding index
  index_new m g init key table e r new =
      let found : find_in key (bucket_at g.buckets (hasher key % length g.buckets)) ≡ none =
        r.answers key ∙ new in
      rw (e, at_location hasher g key r.valid, ◌>>=◌, found)

  -- `operator[]` of a map that represents a table ends normally, with the table's value at the key
  -- or else the default, and the map after it represents the table with that value at the key.
  pub index-Represents :
      (init : V) (key : ℕ) (m : UnorderedMap V) (table : ℕ → Option V)
      → Represents hasher m table
      → (m' : UnorderedMap V) × (index hasher init key m ≡ ok (m', value_or init (table key)))
        × Represents hasher m' (update table key (some (value_or init (table key))))
  index-Represents init key m table r =
      let (g, e, same, rg) = grow_lem hasher m table r in by_answer (table key) refl g e rg
    where
      by_answer :
          (o : Option V)
          → table key ≡ o
          → (g : UnorderedMap V) → grow hasher m ≡ ok g
          → Represents hasher g table
          → (m' : UnorderedMap V) × (index hasher init key m ≡ ok (m', value_or init (table key)))
            × Represents hasher m' (update table key (some (value_or init (table key))))
      by_answer none q g e rg = rw q (
        add_entry hasher g (hasher key % length g.buckets) (key, init),
        index_new m g init key table e rg q,
        add_entry-Represents g key init table rg q,
      )
      by_answer (some u) q g e rg =
          rw q
            (g, index_known m g init key u table e rg q, update_known-Represents key u g table rg q)
