-- ===== src/Kernel/Heap/Free.antt =====
-- `FreeList::free` of kernel/SharedResources/HeapManager.cpp on the list of blocks: the block becomes
-- free and meets its free neighbours, or goes back to the end of the heap when it is the last.
use cs16mem_model_vm.Base.{
  ℕ, ◌+◌, ◌<◌, ◌≤◌, ◌≡◌, ◌≢◌, ◌⊎◌, inl, inr, refl, true, false, ◌&&◌, List, [], ◌∷◌, ◌==◌, arith,
  ap, sym, ◌∙◌, subst, Bool-cases, eqb_refl,
}
use cs16mem_model_vm.Kernel.Heap.{BlockHeader, null, Heap, get_block, valid_addr, free}
use cs16mem_model_vm.Kernel.Heap.Blocks.{Block, behind, first, Chain, Represents, Chain-le}
use cs16mem_model_vm.Kernel.Heap.Release.{merge, settled, Around, Becomes}
use cs16mem_model_vm.Kernel.Heap.Marks.{
  freed, release, IsBlock, IsBlock-le, give_back, free_here, free_next, behind-Becomes,
  behind-Around,
}

release-here :
    (at : ℕ) (b : Block) (bs : List Block) → release at at (b ∷ bs) ≡ settled (freed b) bs
release-here at b [] = rw (eqb_refl at)
release-here at b (c ∷ cs) = rw (eqb_refl at)

free-Chain :
    (prev at it : ℕ) (bs : List Block) (h : Heap)
    → Chain h.heap_ptr prev at bs h.headers
    → Around prev at h
    → IsBlock it at bs
    → (it ≡ at → (prev ≡ null) ⊎ ((h.headers prev).free ≡ false))
    → Becomes prev at h (give_back it h) (release it at bs)
free-Chain prev at it [] h ch around is taken = absurd is
free-Chain prev at it (b ∷ []) h ch around (inl (e, p)) taken =
    subst (λ i. Becomes prev at h (give_back i h) (release i at (b ∷ []))) (sym e)
      (subst (Becomes prev at h (give_back at h)) (sym (release-here at b []))
        (free_here prev at b [] h ch around (taken e)))
free-Chain prev at it (b ∷ []) h ch around (inr is) taken = absurd is
free-Chain prev at it (b ∷ c ∷ cs) h ch around (inl (e, p)) taken =
    subst (λ i. Becomes prev at h (give_back i h) (release i at (b ∷ c ∷ cs))) (sym e)
      (subst (Becomes prev at h (give_back at h)) (sym (release-here at b (c ∷ cs)))
        (free_here prev at b (c ∷ cs) h ch around (taken e)))
free-Chain prev at it (b ∷ c ∷ cs) h ch around (inr is) taken =
    let x = behind at b in
    let l = IsBlock-le it x (c ∷ cs) is in
    let not_here : (it == at) ≡ false = ground (arith, l) in
    let around' = behind-Around prev at b (c ∷ cs) h around ch.0 refl in
    let later : ((b.free && it == x) ≡ false)
        → Becomes prev at h (give_back it h) (release it at (b ∷ c ∷ cs)) =
      λ q.
        rw (not_here, q)
          (behind-Becomes prev at b (c ∷ cs) (release it x (c ∷ cs)) h (give_back it h) around ch.0
            (free-Chain at x it (c ∷ cs) h ch.1 around' is
              (λ e. inr (ap (λ (y : BlockHeader). y.free) ch.0 ∙ ground (arith, q, e))))) in
    elim (Bool-cases (b.free && it == x)) [
      | inr q ↦ later q
      | inl q ↦
          let is_free : b.free ≡ true = ground (arith, q) in
          let next : it ≡ x = ground (arith, q) in
          rw (not_here, q)
            (subst (λ i. Becomes prev at h (give_back i h) (settled (merge b c) cs)) (sym next)
              (free_next prev at b c cs h ch around is_free))
    ]

recorded_ptr :
    (it stop prev at : ℕ) (bs : List Block) (headers : ℕ → BlockHeader)
    → Chain stop prev at bs headers
    → IsBlock it at bs
    → (it + 20 ≤ stop) × ((headers it).ptr ≡ it + 20)
recorded_ptr it stop prev at [] headers c is = absurd is
recorded_ptr it stop prev at (b ∷ bs) headers c (inl (e, p)) =
    let end = Chain-le stop at (behind at b) bs headers c.1 in
    (omega arith, ap (λ a. (headers a).ptr) e ∙ ap (λ (x : BlockHeader). x.ptr) c.0 ∙ omega arith)
recorded_ptr it stop prev at (b ∷ bs) headers c (inr is) =
    recorded_ptr it stop at (behind at b) bs headers c.1 is

first-IsBlock : (it at : ℕ) (bs : List Block) → IsBlock it at bs → first at bs ≡ at
first-IsBlock it at [] is = absurd is
first-IsBlock it at (b ∷ bs) is = refl

-- `validAddr` holds of the data of a block that is not empty at the very end of the heap.
valid_addr_lem :
    (it start : ℕ) (bs : List Block) (h : Heap)
    → Represents start h bs
    → IsBlock it start bs
    → it + 20 < h.heap_ptr
    → (get_block (it + 20) ≡ it) × (valid_addr (it + 20) h ≡ true)
unfolding valid_addr
valid_addr_lem it start bs h r is inside =
    let low = IsBlock-le it start bs is in
    let (high, recorded) = recorded_ptr it h.heap_ptr null start bs h.headers r.chain is in
    let block : get_block (it + 20) ≡ it = omega (arith, high, r.bounded) in
    let head : h.head ≡ start = r.starts ∙ first-IsBlock it start bs is in
    (block, rw (head, block, recorded) (ground (arith, r.not_null)))

free_valid : (p : ℕ) (h : Heap) → valid_addr p h ≡ true → free p h ≡ give_back (get_block p) h
unfolding free
free_valid p h e = rw (free, e)

-- `free` of the address that a block's header records as its data gives the block back: it becomes
-- free and meets free neighbours on both sides, and at the end of the heap it goes back to it. The
-- address must lie before the end of the heap.
pub free-Represents :
    (it start : ℕ) (bs : List Block) (h : Heap)
    → Represents start h bs
    → IsBlock it start bs
    → it + 20 < h.heap_ptr
    → Represents start (free (it + 20) h) (release it start bs)
free-Represents it start bs h r is inside =
    let (block, valid) = valid_addr_lem it start bs h r is inside in
    let head : h.head ≡ start = r.starts ∙ first-IsBlock it start bs is in
    let around : Around null start h = record {
      low = r.not_null;
      linked = λ n. absurd (n refl);
      leads = λ _. head;
      top = r.bounded;
    } in
    let done = free-Chain null start it bs h r.chain around is (λ _. inl refl) in
    rw (free_valid (it + 20) h valid, block)
      (record {
        not_null = r.not_null;
        starts = done.leads;
        chain = done.chain;
        bounded = omega (arith, done.shrinks, r.bounded);
      })

-- A header that does not record the address: `free` does nothing.
free_unrecorded : (p : ℕ) (h : Heap) → (h.headers (get_block p)).ptr ≢ p → free p h ≡ h
unfolding free valid_addr
free_unrecorded p h n = ground arith
