-- ===== src/Kernel/LinkedList/Unlink.antt =====
-- The part of `erase` of kernel/kstl/Queue.h that takes out a node between two others.
use cs16mem_model_vm.Base.{
  ℕ, ◌≡◌, ◌≢◌, ◌∙◌, sym, refl, false, Option, none, some, List, [], ◌∷◌, ◌++◌, ◌==◌, update, Among,
  Distinct, arith, inl, inr,
}
use cs16mem_model_vm.Machine.Trap.{ok, ◌>>=◌}
use cs16mem_model_vm.Kernel.LinkedList.{Node, null, LinkedList, store, unlink}
use cs16mem_model_vm.Kernel.LinkedList.Links.{
  addresses, first, last, IsChain, update_ne, Linked-frame, Linked-++, ++-Linked, ++-Distinct,
  Live-++, ++-Live, Among-++, relink_last, relink_first, last-Among, last-++,
}

module _ {ℓ} {V : Type ℓ} where
  -- The nodes after `unlink`: the two neighbours are joined, and the node is gone.
  abbrev unlinked : (pos p n : ℕ) → (before after : Node V) → LinkedList V → LinkedList V
  unlinked pos p n before after l =
      store pos none
        (store n (some (record after { prev = p })) (store p (some (record before { next = n })) l))

  unlink_run :
      (pos p n : ℕ) (v : V) (before after : Node V) (l : LinkedList V)
      → (pos == null) ≡ false
      → p ≢ pos
      → n ≢ pos
      → p ≢ n
      → l.nodes pos ≡ some (record { prev = p; next = n; value = v })
      → l.nodes p ≡ some before
      → l.nodes n ≡ some after
      → unlink pos l ≡ ok (n, unlinked pos p n before after l)
  unfolding unlink
  unlink_run pos p n v before after l real a b c here e f =
      let joined : Option (Node V) = some (record before { next = n }) in
      let nodes1 = update l.nodes p joined in
      let joined' : Option (Node V) = some (record after { prev = p }) in
      let here1 : nodes1 pos ≡ some (record { prev = p; next = n; value = v }) =
        update_ne l.nodes p pos joined a ∙ here in
      let after1 : nodes1 n ≡ some after = update_ne l.nodes p n joined c ∙ f in
      let here2 : update nodes1 n joined' pos ≡ some (record { prev = p; next = n; value = v }) =
        update_ne nodes1 n pos joined' b ∙ here1 in
      rw (here, e, here1, after1, here2, real, ◌>>=◌) refl

  -- A node between two others.
  module _ (l : LinkedList V) (b : ℕ) (u : V) (bs : List (ℕ × V)) (a : ℕ) (v : V) (d : ℕ) (w : V)
      (ds : List (ℕ × V)) (c : IsChain l (((b, u) ∷ bs) ++ (a, v) ∷ (d, w) ∷ ds)) where
    abbrev front : List (ℕ × V)
    front = (b, u) ∷ bs

    abbrev rear : List (ℕ × V)
    rear = (d, w) ∷ ds

    pub unlink-IsChain :
        (l' : LinkedList V) × ((unlink a l ≡ ok (d, l'))
          × (IsChain l' (front ++ rear) × (l'.size ≡ l.size)))
    unlink-IsChain =
        let p = last bs b in
        let (linked_front, (here, linked_rear)) =
          ++-Linked l.nodes null front ((a, v) ∷ rear) null c.linked in
        let (df, ((a_out, dr), apart)) = ++-Distinct front ((a, v) ∷ rear) c.distinct in
        let (live_front, (positive, (_, live_rear))) =
          ++-Live l.fresh front ((a, v) ∷ rear) c.live in
        let p_not_rear : ¬ Among p (addresses rear) = λ k. apart p (last-Among b u bs) (inr k) in
        let p_not_a : p ≢ a = λ q. apart p (last-Among b u bs) (inl q) in
        let d_not_front : ¬ Among d (addresses front) = λ k. apart d k (inr (inl refl)) in
        let a_not_front : ¬ Among a (addresses front) = λ k. apart a k (inl refl) in
        let (before, ((e, _), joined)) = relink_last l.nodes null b u bs a d df linked_front in
        let nodes1 = update l.nodes p (some (record before { next = d })) in
        let rear1 =
          Linked-frame l.nodes p (some (record before { next = d })) a rear null p_not_rear
            linked_rear in
        let after : Node V = record { prev = a; next = first ds null; value = w } in
        let rear2 = relink_first nodes1 a d w ds null p dr rear1 in
        let front2 =
          Linked-frame nodes1 d (some (record after { prev = p })) null front d d_not_front
            joined in
        let nodes2 = update nodes1 d (some (record after { prev = p })) in
        (
          unlinked a p d before after l,
          (
            unlink_run a p d v before after l (ground (arith, positive)) p_not_a
                (λ q. a_out (inl (sym q))) (λ q. p_not_rear (inl q)) here e linked_rear.0,
            (
              record {
                starts = c.starts;
                ends = c.ends ∙ last-++ front a v rear null ∙ sym (last-++ front d w ds null);
                linked =
                    Linked-++ (update nodes2 a none) null front rear null
                      (Linked-frame nodes2 a none null front d a_not_front front2)
                      (Linked-frame nodes2 a none p rear null a_out rear2);
                distinct = joined_Distinct front rear df dr (λ x h k. apart x h (inr k));
                live = Live-++ l.fresh front rear live_front live_rear;
                some_address = c.some_address;
              },
              refl,
            ),
          ),
        )
      where
        joined_Distinct :
            (xs ys : List (ℕ × V))
            → Distinct (addresses xs)
            → Distinct (addresses ys)
            → ((x : ℕ) → Among x (addresses xs) → ¬ Among x (addresses ys))
            → Distinct (addresses (xs ++ ys))
        joined_Distinct [] ys x y n = y
        joined_Distinct ((e, z) ∷ xs) ys x y n = (
          λ h. elim (Among-++ e xs ys h) [ inl k ↦ x.0 k | inr k ↦ n e (inl refl) k ],
          joined_Distinct xs ys x.1 y (λ m h. n m (inr h)),
        )
