-- ===== src/Kernel/LinkedList/Back.antt =====
-- `pop_back` of kernel/kstl/Queue.h, against the sequence of cells.
use cs16mem_model_vm.Base.{
  ℕ, ◌-◌, ◌<◌, ◌≡◌, ◌≢◌, ◌∙◌, ap, sym, refl, subst, true, false, none, some, List, [], ◌∷◌, ◌++◌,
  ltb, ◌==◌, update, Among, arith, inl, length-append,
}
use cs16mem_model_vm.Machine.Trap.{ok, ◌>>=◌}
use cs16mem_model_vm.Kernel.LinkedList.{Node, null, LinkedList, store, pop_back}
use cs16mem_model_vm.Kernel.LinkedList.Links.{
  addresses, last, update_ne, Linked-frame, ++-Linked, ++-Distinct, ++-Live, relink_last,
  last-Among,
}
use cs16mem_model_vm.Kernel.LinkedList.Ends.{IsList}
use cs16mem_model_vm.Kernel.LinkedList.Front.{emptied, emptied-IsList}

module _ {ℓ} {V : Type ℓ} where
  pop_back_only :
      (l : LinkedList V) (node : Node V)
      → l.size ≡ 1
      → (l.tail == null) ≡ false
      → l.nodes l.tail ≡ some node
      → pop_back l ≡ ok (emptied l.tail l)
  unfolding pop_back
  pop_back_only l node one real e = rw (one, real, e, ◌>>=◌) refl

  abbrev popped_back : (l : LinkedList V) (b : ℕ) → Node V → LinkedList V
  popped_back l b node =
      record (store b (some (record node { next = null })) (store l.tail none l)) {
        tail = b;
        size = l.size - 1;
      }

  pop_back_run :
      (l : LinkedList V) (node node' : Node V)
      → ltb 0 l.size ≡ true
      → (l.size == 1) ≡ false
      → (l.tail == null) ≡ false
      → l.tail ≢ node.prev
      → l.nodes l.tail ≡ some node
      → l.nodes node.prev ≡ some node'
      → node'.next ≡ l.tail
      → pop_back l ≡ ok (popped_back l node.prev node')
  unfolding pop_back
  pop_back_run l node node' some_nodes many real apart e e' forward =
      let left : update l.nodes l.tail none node.prev ≡ some node' =
        update_ne l.nodes l.tail node.prev none apart ∙ e' in
      rw (some_nodes, many, e, e', forward, real, e, left, ◌>>=◌) refl

  last-snoc : (cs : List (ℕ × V)) (a p : ℕ) (v : V) → last (cs ++ (a, v) ∷ []) p ≡ a
  last-snoc [] a p v = refl
  last-snoc ((b, w) ∷ cs) a p v = last-snoc cs a b v

  -- `pop_back` of a list with a cell ends normally and takes the last cell away.
  pub pop_back-IsList :
      (l : LinkedList V) (cs : List (ℕ × V)) (a : ℕ) (v : V)
      → IsList l (cs ++ (a, v) ∷ [])
      → (l' : LinkedList V) × ((pop_back l ≡ ok l') × IsList l' cs)
  pop_back-IsList l [] a v h =
      let c = h.chain in
      let real : (l.tail == null) ≡ false = ground (arith, c.ends, c.live.0) in
      (
        emptied l.tail l,
        (
          pop_back_only l (record { prev = null; next = null; value = v }) h.counted real
              (ap l.nodes c.ends ∙ c.linked.0),
          emptied-IsList l.tail l ((a, v) ∷ []) c,
        ),
      )
  pop_back-IsList l ((b, w) ∷ cs) a v h =
      let c = h.chain in
      let cells = (b, w) ∷ cs in
      let at_a : l.tail ≡ a = c.ends ∙ last-snoc cells a null v in
      let (front, (here, _)) = ++-Linked l.nodes null cells ((a, v) ∷ []) null c.linked in
      let (dx, (dy, apart)) = ++-Distinct cells ((a, v) ∷ []) c.distinct in
      let (live, (positive, _)) = ++-Live l.fresh cells ((a, v) ∷ []) c.live in
      let unused : ¬ Among l.tail (addresses cells) = λ k. apart l.tail k (inl at_a) in
      let gone = Linked-frame l.nodes l.tail none null cells a unused front in
      let (node', ((e', next), linked)) =
        relink_last (update l.nodes l.tail none) null b w cs a null dx gone in
      let differs : l.tail ≢ last cs b =
        λ q. unused (subst (λ x. Among x (addresses cells)) (sym q) (last-Among b w cs)) in
      let count = length-append cells ((a, v) ∷ []) in
      (
        popped_back l (last cs b) node',
        (
          pop_back_run l (record { prev = last cs b; next = null; value = v }) node'
              (omega_lt l.size (omega (arith, h.counted, count)))
              (omega_ne l.size (omega (arith, h.counted, count))) (ground (arith, at_a, positive))
              differs (ap l.nodes at_a ∙ here)
              (sym (update_ne l.nodes l.tail (last cs b) none differs) ∙ e') (next ∙ sym at_a),
          record {
            chain = record {
              starts = c.starts;
              ends = refl;
              linked = linked;
              distinct = dx;
              live = live;
              some_address = c.some_address;
            };
            counted = omega (arith, h.counted, count);
          },
        ),
      )
    where
      omega_lt : (n : ℕ) → 1 < n → ltb 0 n ≡ true
      omega_lt n h = ground arith

      omega_ne : (n : ℕ) → 1 < n → (n == 1) ≡ false
      omega_ne n h = ground arith
