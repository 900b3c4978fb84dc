-- ===== src/Kernel/LinkedList/Front.antt =====
-- `emplace_front` and `pop_front` of kernel/kstl/Queue.h, against the sequence of cells.
use cs16mem_model_vm.Base.{
  ℕ, ◌+◌, ◌-◌, ◌^◌, ◌<◌, ◌≡◌, ◌≢◌, ◌∙◌, ap, sym, refl, subst, true, false, Option, none, some, List,
  [], ◌∷◌, ltb, ◌==◌, update, Among, arith, inl, length,
}
use cs16mem_model_vm.Machine.Trap.{ok, ◌>>=◌}
use cs16mem_model_vm.Kernel.LinkedList.{
  Node, null, LinkedList, store, new_node, more, first_node, emplace_front, pop_front,
}
use cs16mem_model_vm.Kernel.LinkedList.Links.{
  addresses, first, Linked, IsChain, update_ne, Linked-frame, fresh-Among, Live-suc, relink_first,
}
use cs16mem_model_vm.Kernel.LinkedList.Ends.{IsList, first_node-IsChain}

module _ {ℓ} {V : Type ℓ} where
  abbrev linked_front : V → (l : LinkedList V) → Node V → LinkedList V
  linked_front v l node =
      let s = store l.head (some (record node { prev = l.fresh })) (new_node v l) in
      let s' = store l.fresh (some (record { prev = null; next = l.head; value = v })) s in
      record s' { head = l.fresh; size = more l }

  emplace_front_run :
      (v : V) (l : LinkedList V) (node : Node V)
      → (l.size == 0) ≡ false
      → l.head ≢ l.fresh
      → l.nodes l.head ≡ some node
      → emplace_front v l ≡ ok (linked_front v l node)
  unfolding emplace_front
  emplace_front_run v l node some_nodes apart e =
      let f = l.fresh in
      let nodes1 = update l.nodes f (some (record { prev = null; next = null; value = v })) in
      let nodes2 = update nodes1 l.head (some (record node { prev = f })) in
      let head1 : nodes1 l.head ≡ some node = ground (arith, e, apart) in
      let head2 : nodes2 l.head ≡ some (record node { prev = f }) = ground arith in
      let new2 : nodes2 f ≡ some (record { prev = null; next = null; value = v }) =
        ground (arith, apart) in
      rw (some_nodes, head1, head2, new2, ◌>>=◌) refl

  first_run : (v : V) (l : LinkedList V) → l.size ≡ 0 → emplace_front v l ≡ ok (first_node v l)
  unfolding emplace_front
  first_run v l e = rw e refl

  linked_front-IsChain :
      (v : V) (l : LinkedList V) (a : ℕ) (v0 : V) (cs : List (ℕ × V))
      → IsChain l ((a, v0) ∷ cs)
      → IsChain
          (linked_front v l (record { prev = null; next = first cs null; value = v0 }))
          ((l.fresh, v) ∷ (a, v0) ∷ cs)
  linked_front-IsChain v l a v0 cs c =
      let f = l.fresh in
      let cells = (a, v0) ∷ cs in
      let unused : ¬ Among f (addresses cells) = fresh-Among f cells c.live in
      let plain : Option (Node V) = some (record { prev = null; next = null; value = v }) in
      let node : Node V = record { prev = null; next = first cs null; value = v0 } in
      let nodes1 = update l.nodes f plain in
      let linked : Linked
          (update nodes1 l.head (some (record { prev = f; next = first cs null; value = v0 }))) f
          cells null =
        subst
          (λ t.
            Linked (update nodes1 t (some (record { prev = f; next = first cs null; value = v0 })))
              f cells null)
          (sym c.starts)
          (relink_first nodes1 null a v0 cs null f c.distinct
            (Linked-frame l.nodes f plain null cells null unused c.linked)) in
      record {
        starts = refl;
        ends = c.ends;
        linked = (
          subst
              (λ t.
                update
                  (update nodes1 l.head
                    (some (record { prev = f; next = first cs null; value = v0 })))
                  f (some (record { prev = null; next = l.head; value = v })) f
                ≡ some (record { prev = null; next = t; value = v }))
              c.starts (ground arith),
          Linked-frame _ f _ f cells null unused linked,
        );
        distinct = (unused, c.distinct);
        live = (c.some_address, (omega arith, Live-suc f cells c.live));
        some_address = omega arith;
      }

  -- `emplace_front` of a list with the cells, fewer than 2^32 - 1 of them, ends normally and puts a new
  -- cell before them.
  emplace_front-IsList :
      (v : V) (l : LinkedList V) (cells : List (ℕ × V))
      → IsList l cells
      → length cells + 1 < 2 ^ 32
      → (l' : LinkedList V) × ((emplace_front v l ≡ ok l') × IsList l' ((l.fresh, v) ∷ cells))
  emplace_front-IsList v l [] h bound = (
    first_node v l,
    (
      first_run v l h.counted,
      record {
        chain = first_node-IsChain v l h.chain.some_address;
        counted = omega (arith, h.counted);
      },
    ),
  )
  emplace_front-IsList v l ((a, v0) ∷ cs) h bound =
      let node : Node V = record { prev = null; next = first cs null; value = v0 } in
      let apart : l.head ≢ l.fresh =
        λ q. fresh-Among l.fresh ((a, v0) ∷ cs) h.chain.live (inl (sym q ∙ h.chain.starts)) in
      (
        linked_front v l node,
        (
          emplace_front_run v l node (ground (arith, h.counted)) apart
              (ap l.nodes h.chain.starts ∙ h.chain.linked.0),
          record {
            chain = linked_front-IsChain v l a v0 cs h.chain;
            counted = omega (arith, h.counted);
          },
        ),
      )

  -- The list without its only node, at `a`.
  abbrev pub emptied : ℕ → LinkedList V → LinkedList V
  emptied a l = record (store a none l) { head = null; tail = null; size = 0 }

  pub emptied-IsList :
      (a : ℕ) (l : LinkedList V) (cells : List (ℕ × V)) → IsChain l cells → IsList (emptied a l) []
  emptied-IsList a l cells c = record {
    chain = record {
      starts = refl;
      ends = refl;
      linked = tt;
      distinct = tt;
      live = tt;
      some_address = c.some_address;
    };
    counted = refl;
  }

  pop_front_only :
      (l : LinkedList V) (node : Node V)
      → l.size ≡ 1
      → (l.head == null) ≡ false
      → l.nodes l.head ≡ some node
      → pop_front l ≡ ok (emptied l.head l)
  unfolding pop_front
  pop_front_only l node one real e = rw (one, real, e, ◌>>=◌) refl

  abbrev popped_front : (l : LinkedList V) (b : ℕ) → Node V → LinkedList V
  popped_front l b node =
      record (store b (some (record node { prev = null })) (store l.head none l)) {
        head = b;
        size = l.size - 1;
      }

  pop_front_run :
      (l : LinkedList V) (node node' : Node V)
      → ltb 0 l.size ≡ true
      → (l.size == 1) ≡ false
      → (l.head == null) ≡ false
      → l.head ≢ node.next
      → l.nodes l.head ≡ some node
      → l.nodes node.next ≡ some node'
      → node'.prev ≡ l.head
      → pop_front l ≡ ok (popped_front l node.next node')
  unfolding pop_front
  pop_front_run l node node' some_nodes many real apart e e' back =
      let left : update l.nodes l.head none node.next ≡ some node' =
        update_ne l.nodes l.head node.next none apart ∙ e' in
      rw (some_nodes, many, e, e', back, real, e, left, ◌>>=◌) refl

  -- `pop_front` of a list with a cell ends normally and takes the first cell away.
  pub pop_front-IsList :
      (l : LinkedList V) (a : ℕ) (v : V) (cs : List (ℕ × V))
      → IsList l ((a, v) ∷ cs)
      → (l' : LinkedList V) × ((pop_front l ≡ ok l') × IsList l' cs)
  pop_front-IsList l a v [] h =
      let c = h.chain in
      let real : (l.head == null) ≡ false = ground (arith, c.starts, c.live.0) in
      (
        emptied l.head l,
        (
          pop_front_only l (record { prev = null; next = null; value = v }) h.counted real
              (ap l.nodes c.starts ∙ c.linked.0),
          emptied-IsList l.head l ((a, v) ∷ []) c,
        ),
      )
  pop_front-IsList l a v ((b, w) ∷ cs) h =
      let c = h.chain in
      let node : Node V = record { prev = null; next = b; value = v } in
      let node' : Node V = record { prev = a; next = first cs null; value = w } in
      let real : (l.head == null) ≡ false = ground (arith, c.starts, c.live.0) in
      let apart : l.head ≢ b = λ q. c.distinct.0 (inl (sym c.starts ∙ q)) in
      let gone : Linked (update l.nodes l.head none) a ((b, w) ∷ cs) null =
        Linked-frame l.nodes l.head none a ((b, w) ∷ cs) null
          (λ k. c.distinct.0 (subst (λ x. Among x (addresses ((b, w) ∷ cs))) c.starts k))
          c.linked.1 in
      (
        popped_front l b node',
        (
          pop_front_run l node node' (ground (arith, h.counted)) (ground (arith, h.counted)) real
              apart (ap l.nodes c.starts ∙ c.linked.0) c.linked.1.0 (sym c.starts),
          record {
            chain = record {
              starts = refl;
              ends = c.ends;
              linked =
                  relink_first (update l.nodes l.head none) a b w cs null null c.distinct.1 gone;
              distinct = c.distinct.1;
              live = c.live.1.1;
              some_address = c.some_address;
            };
            counted = omega (arith, h.counted);
          },
        ),
      )
