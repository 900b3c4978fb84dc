-- ===== src/Kernel/LinkedList/Erase.antt =====
-- `erase` of kernel/kstl/Queue.h, against the sequence of cells.
use mathlib.Core.List.{append-nil}
use cs16mem_model_vm.Base.{
  ℕ, ◌+◌, ◌-◌, ◌<◌, ◌≡◌, ◌≢◌, ◌∙◌, ap, sym, refl, subst, true, false, some, List, [], ◌∷◌, ◌++◌,
  ◌==◌, Among, arith, inl, inr, length, length-append,
}
use cs16mem_model_vm.Machine.Trap.{ok, ◌>>=◌}
use cs16mem_model_vm.Kernel.LinkedList.{Node, null, LinkedList, pop_back, pop_front, unlink, erase}
use cs16mem_model_vm.Kernel.LinkedList.Links.{
  addresses, first, last, Live, IsChain, ++-Distinct, ++-Live, ++-Among, last-Among, last-++,
}
use cs16mem_model_vm.Kernel.LinkedList.Ends.{IsList}
use cs16mem_model_vm.Kernel.LinkedList.Front.{emptied, emptied-IsList, pop_front-IsList}
use cs16mem_model_vm.Kernel.LinkedList.Back.{pop_back-IsList}
use cs16mem_model_vm.Kernel.LinkedList.Unlink.{unlink-IsChain}

one_less : (n k : ℕ) → n ≡ k + 1 → k ≡ n - 1
one_less n k e = omega arith

not_one : (n k : ℕ) → n ≡ k → 1 < k → (n == 1) ≡ false
not_one n k e h = ground arith

differ : (x y : ℕ) → x ≢ y → (x == y) ≡ false
differ x y n = ground arith

same : (x y : ℕ) → x ≡ y → (x == y) ≡ true
same x y e = ground arith

module _ {ℓ} {V : Type ℓ} where
  erase_only :
      (pos : ℕ) (l : LinkedList V) (node : Node V)
      → (pos == null) ≡ false
      → l.size ≡ 1
      → l.nodes pos ≡ some node
      → erase pos l ≡ ok (null, emptied pos l)
  unfolding erase
  erase_only pos l node real one e = rw (real, one, e, ◌>>=◌) refl

  erase_head :
      (pos : ℕ) (l l' : LinkedList V)
      → (pos == null) ≡ false
      → (l.size == 1) ≡ false
      → (pos == l.head) ≡ true
      → pop_front l ≡ ok l'
      → erase pos l ≡ ok (l'.head, l')
  unfolding erase
  erase_head pos l l' real many here e = rw (real, many, here, e, ◌>>=◌) refl

  erase_tail :
      (pos : ℕ) (l l' : LinkedList V)
      → (pos == null) ≡ false
      → (l.size == 1) ≡ false
      → (pos == l.head) ≡ false
      → (pos == l.tail) ≡ true
      → pop_back l ≡ ok l'
      → erase pos l ≡ ok (null, l')
  unfolding erase
  erase_tail pos l l' real many not_head here e = rw (real, many, not_head, here, e, ◌>>=◌) refl

  erase_inside :
      (pos : ℕ) (l : LinkedList V)
      → (pos == null) ≡ false
      → (l.size == 1) ≡ false
      → (pos == l.head) ≡ false
      → (pos == l.tail) ≡ false
      → erase pos l ≡ unlink pos l
  unfolding erase
  erase_inside pos l real many not_head not_tail = rw (real, many, not_head, not_tail) refl

  -- The size that `erase` leaves: it stays when the node stands between two others.
  abbrev size_left : ℕ → (before after : List (ℕ × V)) → ℕ
  size_left n [] after = n - 1
  size_left n (_ ∷ _) [] = n - 1
  size_left n (_ ∷ _) (_ ∷ _) = n

  real_of-Live :
      (f : ℕ) (xs : List (ℕ × V)) (a : ℕ) (v : V) (ys : List (ℕ × V))
      → Live f (xs ++ (a, v) ∷ ys)
      → (a == null) ≡ false
  real_of-Live f xs a v ys h =
      let (_, (positive, _)) = ++-Live f xs ((a, v) ∷ ys) h in ground (arith, positive)

  -- `erase` of a node of a list ends normally, returns the node after it, and leaves a chain of the other
  -- cells in their order. The size counts them when the node was the first or the last; when it stood
  -- between two others the size stays as it was, one more than there are cells.
  pub erase-IsChain :
      (l : LinkedList V) (before : List (ℕ × V)) (a : ℕ) (v : V) (after : List (ℕ × V))
      → IsList l (before ++ (a, v) ∷ after)
      → (l' : LinkedList V) × ((erase a l ≡ ok (first after null, l'))
          × (IsChain l' (before ++ after) × (l'.size ≡ size_left l.size before after)))
  erase-IsChain l [] a v [] h =
      let c = h.chain in
      let gone = emptied-IsList a l ((a, v) ∷ []) c in
      (
        emptied a l,
        (
          erase_only a l _ (real_of-Live l.fresh [] a v [] c.live) h.counted c.linked.0,
          (gone.chain, one_less l.size 0 h.counted),
        ),
      )
  erase-IsChain l [] a v ((d, w) ∷ ds) h =
      let c = h.chain in
      let (l', (e, r)) = pop_front-IsList l a v ((d, w) ∷ ds) h in
      (
        l',
        (
          erase_head a l l' (real_of-Live l.fresh [] a v ((d, w) ∷ ds) c.live)
                (not_one l.size (length ((a, v) ∷ (d, w) ∷ ds)) h.counted (omega arith))
                (same a l.head (sym c.starts)) e
              ∙ ap (λ x. ok (x, l')) r.chain.starts,
          (r.chain, r.counted ∙ one_less l.size (length ((d, w) ∷ ds)) (omega (arith, h.counted))),
        ),
      )
  erase-IsChain l ((b, u) ∷ bs) a v [] h =
      let c = h.chain in
      let front = (b, u) ∷ bs in
      let (l', (e, r)) = pop_back-IsList l front a v h in
      let count = length-append front ((a, v) ∷ []) in
      let not_head : a ≢ b = λ q. c.distinct.0 (++-Among b bs ((a, v) ∷ []) (inr (inl (sym q)))) in
      (
        l',
        (
          erase_tail a l l' (real_of-Live l.fresh front a v [] c.live)
              (not_one l.size (length (front ++ (a, v) ∷ [])) h.counted (omega (arith, count)))
              (differ a l.head (λ q. not_head (q ∙ c.starts)))
              (same a l.tail (sym (c.ends ∙ last-++ front a v [] null))) e,
          (
            subst (IsChain l') (sym (append-nil front)) r.chain,
            r.counted ∙ one_less l.size (length front) (omega (arith, h.counted, count)),
          ),
        ),
      )
  erase-IsChain l ((b, u) ∷ bs) a v ((d, w) ∷ ds) h =
      let c = h.chain in
      let front = (b, u) ∷ bs in
      let rear = (d, w) ∷ ds in
      let count = length-append front ((a, v) ∷ rear) in
      let (l', (e, r)) = unlink-IsChain l b u bs a v d w ds c in
      let (_, (d_rear, _)) = ++-Distinct front ((a, v) ∷ rear) c.distinct in
      let not_head : a ≢ b =
        λ q. c.distinct.0 (++-Among b bs ((a, v) ∷ rear) (inr (inl (sym q)))) in
      let not_tail : a ≢ last ds d =
        λ q. d_rear.0 (subst (λ x. Among x (addresses rear)) (sym q) (last-Among d w ds)) in
      (
        l',
        (
          erase_inside a l (real_of-Live l.fresh front a v rear c.live)
                (not_one l.size (length (front ++ (a, v) ∷ rear)) h.counted (omega (arith, count)))
                (differ a l.head (λ q. not_head (q ∙ c.starts)))
                (differ a l.tail (λ q. not_tail (q ∙ c.ends ∙ last-++ front a v rear null)))
              ∙ e,
          (r.0, r.1),
        ),
      )
