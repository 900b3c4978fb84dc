-- ===== src/Kernel/Processes/Copy/Assign.antt =====
-- An assignment through the reference that `operator[]` of kernel/kstl/UnorderedMap.h returns.
use cs16mem_model_vm.Base.{
  ℕ, ◌%◌, ◌<◌, ◌≡◌, ◌≢◌, ◌∙◌, ap, sym, refl, subst, Option, none, some, List, [], ◌∷◌, length,
  arith, ℕ_discrete, update,
}
use cs16mem_model_vm.Kernel.Pages.{Entry}
use cs16mem_model_vm.Kernel.Pages.HashTable.{HashPageTable}
use cs16mem_model_vm.Kernel.UnorderedMap.{hash, find_in, bucket_at, set_bucket}
use cs16mem_model_vm.Kernel.UnorderedMap.Buckets.{
  Holds, length-set_bucket, bucket_at-set_bucket_self, bucket_at-set_bucket_ne,
}
use cs16mem_model_vm.Kernel.UnorderedMap.Rehash.{look_in, Hashed}
use cs16mem_model_vm.Kernel.UnorderedMap.Laws.{Represents}
use cs16mem_model_vm.Kernel.Processes.{assign, assign_at}

find_in-assign_self :
    (vpn : ℕ) (e v : Entry) (b : List (ℕ × Entry))
    → find_in vpn b ≡ some v
    → find_in vpn (assign vpn e b) ≡ some e
find_in-assign_self vpn e v [] h = cc
find_in-assign_self vpn e v ((k, u) ∷ b) h = ground (arith, find_in-assign_self vpn e v b)

find_in-assign_ne :
    (j vpn : ℕ) (e : Entry) (b : List (ℕ × Entry))
    → j ≢ vpn
    → find_in j (assign vpn e b) ≡ find_in j b
find_in-assign_ne j vpn e [] n = refl
find_in-assign_ne j vpn e ((k, u) ∷ b) n = ground (arith, find_in-assign_ne j vpn e b n)

find_in-assign-none :
    (j vpn : ℕ) (e : Entry) (b : List (ℕ × Entry))
    → find_in j b ≡ none
    → find_in j (assign vpn e b) ≡ none
find_in-assign-none j vpn e [] h = refl
find_in-assign-none j vpn e ((k, u) ∷ b) h = ground (arith, find_in-assign-none j vpn e b)

assign-Holds :
    (hashed : ℕ → ℕ) (i vpn : ℕ) (e : Entry) (b : List (ℕ × Entry))
    → Holds hashed i b
    → Holds hashed i (assign vpn e b)
assign-Holds hashed i vpn e [] h = tt
assign-Holds hashed i vpn e ((k, u) ∷ b) h =
    ground (arith, assign-Holds hashed i vpn e b h.2, find_in-assign-none k vpn e b h.1)

abbrev written : ℕ → ℕ → Entry → List (List (ℕ × Entry)) → List (List (ℕ × Entry))
written n vpn e bs = set_bucket bs (hash vpn % n) (assign vpn e (bucket_at bs (hash vpn % n)))

written-Hashed :
    (n vpn : ℕ) (e : Entry) (bs : List (List (ℕ × Entry)))
    → hash vpn % n < length bs
    → Hashed hash n bs
    → Hashed hash n (written n vpn e bs)
written-Hashed n vpn e bs room w i = elim (ℕ_discrete (hash vpn % n) i) [
  | yes q ↦
      let loc = hash vpn % n in
      let here : Holds (λ k. hash k % n) loc (bucket_at (written n vpn e bs) loc) =
        rw (bucket_at-set_bucket_self bs loc (assign vpn e (bucket_at bs loc)) room)
          (assign-Holds (λ k. hash k % n) loc vpn e (bucket_at bs loc) (w loc)) in
      subst (λ j. Holds (λ k. hash k % n) j (bucket_at (written n vpn e bs) j)) q here
  | no ne ↦ rw (bucket_at-set_bucket_ne bs (hash vpn % n) i _ ne) (w i)
]

look_in-written_self :
    (n vpn : ℕ) (e v : Entry) (bs : List (List (ℕ × Entry)))
    → hash vpn % n < length bs
    → look_in hash n bs vpn ≡ some v
    → look_in hash n (written n vpn e bs) vpn ≡ some e
look_in-written_self n vpn e v bs room h =
    let loc = hash vpn % n in
    rw (bucket_at-set_bucket_self bs loc (assign vpn e (bucket_at bs loc)) room)
      (find_in-assign_self vpn e v (bucket_at bs loc) h)

look_in-written_ne :
    (n vpn j : ℕ) (e : Entry) (bs : List (List (ℕ × Entry)))
    → hash vpn % n < length bs
    → j ≢ vpn
    → look_in hash n (written n vpn e bs) j ≡ look_in hash n bs j
look_in-written_ne n vpn j e bs room ne = elim (ℕ_discrete (hash vpn % n) (hash j % n)) [
  | yes q ↦
      rw (sym q, bucket_at-set_bucket_self bs (hash vpn % n) _ room)
        (find_in-assign_ne j vpn e (bucket_at bs (hash vpn % n)) ne)
  | no d ↦ rw (bucket_at-set_bucket_ne bs (hash vpn % n) (hash j % n) _ d) refl
]

-- The page has the new entry, and the others keep theirs.
pub assign_at-Represents :
    (vpn : ℕ) (e v : Entry) (t : HashPageTable) (pages : ℕ → Option Entry)
    → Represents hash t pages
    → pages vpn ≡ some v
    → Represents hash (assign_at vpn e t) (update pages vpn (some e))
assign_at-Represents vpn e v t pages r known =
    let n = length t.buckets in
    let room : hash vpn % n < n = omega (arith, r.valid.some_buckets) in
    let same : length (written n vpn e t.buckets) ≡ n =
      length-set_bucket t.buckets (hash vpn % n) _ in
    record {
      valid = record {
        some_buckets = omega (arith, same, r.valid.some_buckets);
        hashed =
            subst (λ c. Hashed hash c (written n vpn e t.buckets)) (sym same)
              (written-Hashed n vpn e t.buckets room r.valid.hashed);
      };
      answers = λ j.
          ap (λ c. look_in hash c (written n vpn e t.buckets) j) same
          ∙ after n room (r.answers vpn ∙ known) j (r.answers j);
    }
  where
    after :
        (n : ℕ)
        → hash vpn % n < length t.buckets
        → look_in hash n t.buckets vpn ≡ some v
        → (j : ℕ) → look_in hash n t.buckets j ≡ pages j
        → look_in hash n (written n vpn e t.buckets) j ≡ update pages vpn (some e) j
    after n room h j a = elim (ℕ_discrete vpn j) [
      | yes q ↦
          ap (look_in hash n (written n vpn e t.buckets)) (sym q)
          ∙ look_in-written_self n vpn e v t.buckets room h
          ∙ ground (arith, q)
      | no ne ↦
          look_in-written_ne n vpn j e t.buckets room (λ q. ne (sym q)) ∙ a ∙ ground (arith, ne)
    ]
