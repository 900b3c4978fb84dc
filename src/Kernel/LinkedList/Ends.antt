-- ===== src/Kernel/LinkedList/Ends.antt =====
-- `emplace_back`, `emplace_front`, `pop_back` and `pop_front` of kernel/kstl/Queue.h, against the
-- sequence of cells.
use cs16mem_model_vm.Base.{
  ℕ, ◌+◌, ◌^◌, ◌<◌, ◌≡◌, ◌≢◌, ◌∙◌, sym, refl, subst, false, Option, some, List, [], ◌∷◌, ◌++◌, ◌==◌,
  update, Among, Distinct, arith, inl, inr, length, length-append,
}
use cs16mem_model_vm.Machine.Trap.{ok, ◌>>=◌}
use cs16mem_model_vm.Kernel.LinkedList.{
  Node, null, LinkedList, store, new_node, more, first_node, emplace_back,
}
use cs16mem_model_vm.Kernel.LinkedList.Links.{
  addresses, last, Linked, IsChain, update_ne, Linked-frame, Linked-++, fresh-Among, Live-suc,
  Live-++, Among-++, relink_last,
}

module _ {ℓ} {V : Type ℓ} where
  -- A list with the cells, whose size counts them.
  pub record IsList (l : LinkedList V) (cells : List (ℕ × V)) : Type ℓ where
    pub chain : IsChain l cells
    pub counted : l.size ≡ length cells

  pub first_node-IsChain :
      (v : V) (l : LinkedList V) → 0 < l.fresh → IsChain (first_node v l) ((l.fresh, v) ∷ [])
  first_node-IsChain v l low = record {
    starts = refl;
    ends = refl;
    linked = (ground arith, tt);
    distinct = (λ h. h, tt);
    live = (low, (omega arith, tt));
    some_address = omega arith;
  }

  abbrev linked_back : V → (l : LinkedList V) → Node V → LinkedList V
  linked_back v l node =
      let s = store l.tail (some (record node { next = l.fresh })) (new_node v l) in
      let s' = store l.fresh (some (record { prev = l.tail; next = null; value = v })) s in
      record s' { tail = l.fresh; size = more l }

  emplace_back_run :
      (v : V) (l : LinkedList V) (node : Node V)
      → (l.size == 0) ≡ false
      → l.tail ≢ l.fresh
      → l.nodes l.tail ≡ some node
      → emplace_back v l ≡ ok (linked_back v l node)
  unfolding emplace_back
  emplace_back_run v l node some_nodes apart e =
      let f = l.fresh in
      let nodes1 = update l.nodes f (some (record { prev = null; next = null; value = v })) in
      let nodes2 = update nodes1 l.tail (some (record node { next = f })) in
      let tail1 : nodes1 l.tail ≡ some node = ground (arith, e, apart) in
      let tail2 : nodes2 l.tail ≡ some (record node { next = f }) = ground arith in
      let new2 : nodes2 f ≡ some (record { prev = null; next = null; value = v }) =
        ground (arith, apart) in
      rw (some_nodes, tail1, tail2, new2, ◌>>=◌) refl

  -- The last node of a chain is a node, and not the next one that `new` makes.
  tail_node :
      (l : LinkedList V) (a : ℕ) (v : V) (cs : List (ℕ × V))
      → IsChain l ((a, v) ∷ cs)
      → Among l.tail (addresses ((a, v) ∷ cs))
  tail_node l a v cs c = subst (λ t. Among t (addresses ((a, v) ∷ cs))) (sym c.ends) (among a v cs)
    where
      among : (b : ℕ) (w : V) (ds : List (ℕ × V)) → Among (last ds b) (addresses ((b, w) ∷ ds))
      among b w [] = inl refl
      among b w ((d, x) ∷ ds) = inr (among d x ds)

  last-append : (cs : List (ℕ × V)) (f p : ℕ) (v : V) → last (cs ++ (f, v) ∷ []) p ≡ f
  last-append [] f p v = refl
  last-append ((a, w) ∷ cs) f p v = last-append cs f a v

  append_Distinct :
      (cs : List (ℕ × V)) (f : ℕ) (v : V)
      → Distinct (addresses cs)
      → ¬ Among f (addresses cs)
      → Distinct (addresses (cs ++ (f, v) ∷ []))
  append_Distinct [] f v d n = (λ h. h, tt)
  append_Distinct ((a, w) ∷ cs) f v d n = (
    λ h. elim (Among-++ a cs ((f, v) ∷ []) h) [
      | inl k ↦ d.0 k
      | inr (inl e) ↦ n (inl (sym e))
      | inr (inr k) ↦ k
    ],
    append_Distinct cs f v d.1 (λ h. n (inr h)),
  )

  linked_back-IsChain :
      (v : V) (l : LinkedList V) (a : ℕ) (v0 : V) (cs : List (ℕ × V))
      → IsChain l ((a, v0) ∷ cs)
      → (node : Node V) × ((l.nodes l.tail ≡ some node)
          × IsChain (linked_back v l node) (((a, v0) ∷ cs) ++ (l.fresh, v) ∷ []))
  linked_back-IsChain v l a v0 cs c =
      let f = l.fresh in
      let cells = (a, v0) ∷ cs in
      let unused : ¬ Among f (addresses cells) = fresh-Among f cells c.live in
      let plain : Option (Node V) = some (record { prev = null; next = null; value = v }) in
      let nodes1 = update l.nodes f plain in
      let (node, ((e, _), linked)) =
        subst
          (λ t.
            (node : Node V) × (((nodes1 t ≡ some node) × (node.next ≡ null))
              × Linked (update nodes1 t (some (record node { next = f }))) null cells f))
          (sym c.ends)
          (relink_last nodes1 null a v0 cs null f c.distinct
            (Linked-frame l.nodes f plain null cells null unused c.linked)) in
      let apart : f ≢ l.tail =
        λ q. unused (subst (λ t. Among t (addresses cells)) (sym q) (tail_node l a v0 cs c)) in
      (
        node,
        (
          sym (update_ne l.nodes f l.tail plain apart) ∙ e,
          record {
            starts = c.starts;
            ends = sym (last-append cs f a v);
            linked =
                Linked-++ (linked_back v l node).nodes null cells ((f, v) ∷ []) null
                  (Linked-frame _ f _ null cells f unused linked)
                  (
                    subst
                        (λ t.
                          (linked_back v l node).nodes f
                          ≡ some (record { prev = t; next = null; value = v }))
                        c.ends (ground arith),
                    tt,
                  );
            distinct = append_Distinct cells f v c.distinct unused;
            live =
                Live-++ (f + 1) cells ((f, v) ∷ []) (Live-suc f cells c.live)
                  (c.some_address, (omega arith, tt));
            some_address = omega arith;
          },
        ),
      )

  first_run : (v : V) (l : LinkedList V) → l.size ≡ 0 → emplace_back v l ≡ ok (first_node v l)
  unfolding emplace_back
  first_run v l e = rw e refl

  -- `emplace_back` of a list with the cells, fewer than 2^32 - 1 of them, ends normally and puts a new
  -- cell behind them.
  pub emplace_back-IsList :
      (v : V) (l : LinkedList V) (cells : List (ℕ × V))
      → IsList l cells
      → length cells + 1 < 2 ^ 32
      → (l' : LinkedList V) × ((emplace_back v l ≡ ok l') × IsList l' (cells ++ (l.fresh, v) ∷ []))
  emplace_back-IsList v l [] h bound = (
    first_node v l,
    (
      first_run v l h.counted,
      record {
        chain = first_node-IsChain v l h.chain.some_address;
        counted = omega (arith, h.counted);
      },
    ),
  )
  emplace_back-IsList v l ((a, v0) ∷ cs) h bound =
      let (node, (e, chain)) = linked_back-IsChain v l a v0 cs h.chain in
      let apart : l.tail ≢ l.fresh = λ q.
        fresh-Among l.fresh ((a, v0) ∷ cs) h.chain.live
          (subst (λ t. Among t (addresses ((a, v0) ∷ cs))) q (tail_node l a v0 cs h.chain)) in
      (
        linked_back v l node,
        (
          emplace_back_run v l node (ground (arith, h.counted)) apart e,
          record {
            chain = chain;
            counted = omega (arith, h.counted, length-append ((a, v0) ∷ cs) ((l.fresh, v) ∷ []));
          },
        ),
      )
