-- ===== src/Kernel/UnorderedMap/Laws.antt =====
-- `unordered_map` of kernel/kstl/UnorderedMap.h as a finite map: a table from keys to values, from
-- which buckets, growth and order are forgotten.
use cs16mem_model_vm.Base.{
  ℕ, ◌+◌, ◌*◌, ◌%◌, ◌^◌, ◌<◌, ◌≡◌, ◌∙◌, ap, sym, refl, Option, none, List, [], length, replicate,
  length-replicate, arith, ℕ_discrete, subst, ◌⊎◌, inl, inr, dec_lt,
}
use cs16mem_model_vm.Machine.Trap.{ok}
use cs16mem_model_vm.Kernel.UnorderedMap.{
  UnorderedMap, with_buckets, find_in, bucket_at, drain_all, rehash, grow, location,
}
use cs16mem_model_vm.Kernel.UnorderedMap.Buckets.{or_else, bucket_at-replicate, Holds}
use cs16mem_model_vm.Kernel.UnorderedMap.Rehash.{
  look_in, Hashed, length-drain_all, drain_all-Hashed, look_in-drain_all,
}

module _ {ℓ} {V : Type ℓ} (hasher : ℕ → ℕ) where
  -- The map has buckets, each with the keys that hash to it.
  pub record IsMap (m : UnorderedMap V) : Type ℓ where
    pub some_buckets : 0 < length m.buckets
    pub hashed : Hashed hasher (length m.buckets) m.buckets

  abbrev pub look : UnorderedMap V → ℕ → Option V
  look m key = look_in hasher (length m.buckets) m.buckets key

  -- The map holds the entries of the table.
  pub record Represents (m : UnorderedMap V) (table : ℕ → Option V) : Type ℓ where
    pub valid : IsMap m
    pub answers : (key : ℕ) → look m key ≡ table key

  abbrev moved : UnorderedMap V → ℕ → UnorderedMap V
  moved m count = record m { buckets = drain_all hasher count m.buckets (replicate count []) }

  -- The loop of `rehash` keeps every entry.
  moved-Represents :
      (m : UnorderedMap V) (count : ℕ) (table : ℕ → Option V)
      → Represents m table
      → 0 < count
      → Represents (moved m count) table
  moved-Represents m count table r positive =
      let fresh : length (replicate {A = List (ℕ × V)} count []) ≡ count =
        length-replicate count [] in
      let n : length (moved m count).buckets ≡ count =
        length-drain_all hasher count positive m.buckets (replicate count []) ∙ fresh in
      let old = λ (k : ℕ). hasher k % length m.buckets in
      let empty : (k : ℕ) → look_in hasher count (replicate {A = List (ℕ × V)} count []) k ≡ none =
        λ k. ap (find_in k) (bucket_at-replicate count (hasher k % count)) in
      let from : (i : ℕ) → Holds old (0 + i) (bucket_at m.buckets i) = λ i.
        let e : i ≡ 0 + i = omega arith in
        subst (λ n. Holds old n (bucket_at m.buckets i)) e (r.valid.hashed i) in
      let blank : Hashed hasher count (replicate {A = List (ℕ × V)} count []) =
        λ i. rw (bucket_at-replicate {V = V} count i) tt in
      record {
        valid = record {
          some_buckets = omega (arith, n, positive);
          hashed =
              subst (λ c. Hashed hasher c (moved m count).buckets) (sym n)
                (drain_all-Hashed hasher count positive old 0 m.buckets (replicate count []) fresh
                  from (λ k _. empty k) blank);
        };
        answers = λ key.
            ap (λ c. look_in hasher c (moved m count).buckets key) n
            ∙ look_in-drain_all hasher count positive old 0 key (old key) m.buckets
                (replicate count []) fresh from (omega arith)
            ∙ ap (λ o. or_else o (look m key)) (empty key)
            ∙ r.answers key;
      }

  grow-cases :
      (m : UnorderedMap V)
      → 0 < length m.buckets
      → (grow hasher m ≡ ok m) ⊎ (count : ℕ) × (0 < count) × (grow hasher m ≡ ok (moved m count))
  unfolding grow rehash
  grow-cases m h = elim (ℕ_discrete m.size (length m.buckets)) [
    | no n ↦ inl (ground arith)
    | yes e ↦ elim (dec_lt (length m.buckets * 2 % 2 ^ 32) m.size) [
      | yes few ↦ inl (ground arith)
      | no enough ↦ inr (length m.buckets * 2 % 2 ^ 32, omega arith, ground arith)
    ]
  ]

  -- Growth changes no answer and not the size.
  pub grow_lem :
      (m : UnorderedMap V) (table : ℕ → Option V)
      → Represents m table
      → (m' : UnorderedMap V) × (grow hasher m ≡ ok m') × (m'.size ≡ m.size) × Represents m' table
  grow_lem m table r = elim (grow-cases m r.valid.some_buckets) [
    | inl e ↦ (m, e, refl, r)
    | inr (count, h, e) ↦ (moved m count, e, refl, moved-Represents m count table r h)
  ]

  pub at_location :
      (m : UnorderedMap V) (key : ℕ)
      → IsMap m
      → location hasher m key ≡ ok (hasher key % length m.buckets)
  at_location m key v = ground (arith, v.some_buckets)

  -- A new map with buckets is empty.
  pub with_buckets-Represents :
      (count : ℕ) → 0 < count → Represents (with_buckets {V = V} count) (λ _. none)
  with_buckets-Represents count positive = record {
    valid = record {
      some_buckets = omega (arith, length-replicate {A = List (ℕ × V)} count []);
      hashed = λ i. rw (bucket_at-replicate {V = V} count i) tt;
    };
    answers = λ key.
        ap (find_in key)
          (bucket_at-replicate count (hasher key % length (replicate {A = List (ℕ × V)} count [])));
  }
