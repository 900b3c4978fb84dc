-- ===== src/Kernel/Heap/Release.antt =====
-- The end of `FreeList::free` in kernel/SharedResources/HeapManager.cpp: a free block meets the next one,
-- and the last block is given back.
use cs16mem_model_vm.Base.{
  ℕ, ◌+◌, ◌^◌, ◌<◌, ◌≤◌, ◌≡◌, ◌≢◌, inl, inr, refl, true, false, List, [], ◌∷◌, ◌==◌, if◌then◌else◌,
  arith, ap, sym, ◌∙◌, subst, Bool-cases,
}
use cs16mem_model_vm.Base.Words.{add32}
use cs16mem_model_vm.Kernel.Heap.{BlockHeader, null, Heap, write, fusion, settle, set_prev}
use cs16mem_model_vm.Kernel.Heap.Blocks.{
  Block, behind, first, header_of, Chain, Chain-le, Chain-frame,
}

abbrev pub merge : Block → Block → Block
merge b c = record b { size = b.size + (20 + c.size) }

abbrev pub settled : Block → List Block → List Block
settled b [] = []
settled b (c ∷ cs) = if c.free then merge b c ∷ cs else b ∷ c ∷ cs

set_prev_self :
    (block p : ℕ) (h : Heap)
    → block ≢ null
    → (set_prev block p h).headers block ≡ record (h.headers block) { prev = p }
set_prev_self block p h n = ground arith

set_prev-other :
    (block p a : ℕ) (h : Heap) → a ≢ block → (set_prev block p h).headers a ≡ h.headers a
set_prev-other block p a h n = ground arith

write-other :
    (block a : ℕ) (b : BlockHeader) (h : Heap)
    → a ≢ block
    → (write block b h).headers a ≡ h.headers a
write-other block a b h n = ground arith

-- What stands around the blocks from `at` on: the block before them, or the head, leads to `at`.
pub record Around (prev at : ℕ) (h : Heap) : Type 0 where
  pub low : prev < at
  pub linked : prev ≢ null → (h.headers prev).next ≡ at
  pub leads : prev ≡ null → h.head ≡ at
  pub top : h.heap_ptr < 2 ^ 32

-- The heap `g` has the blocks `bs` from `at` on, where `h` had others, and nothing else changed.
pub record Becomes (prev at : ℕ) (h g : Heap) (bs : List Block) : Type 0 where
  pub chain : Chain g.heap_ptr prev at bs g.headers
  pub below : (a : ℕ) → a < at → a ≢ prev → g.headers a ≡ h.headers a
  pub before : prev ≢ null → g.headers prev ≡ record (h.headers prev) { next = first at bs }
  pub leads : g.head ≡ (if prev == null then first at bs else h.head)
  pub shrinks : g.heap_ptr ≤ h.heap_ptr

module _ (prev at : ℕ) (b : Block) (h : Heap) (around : Around prev at h) where
  fusion_taken :
      (c : Block) (cs : List Block)
      → Chain h.heap_ptr prev at (b ∷ c ∷ cs) h.headers
      → c.free ≡ false
      → fusion at h ≡ h
  unfolding fusion
  fusion_taken c cs ch e = ground (arith, ch.0, ch.1.0, e)

  -- The heap after a merge.
  abbrev merged : Block → List Block → Heap
  merged c cs = set_prev (first (behind (behind at b) c) cs) at (
      write at
        (record {
          size = b.size + (20 + c.size);
          next = first (behind (behind at b) c) cs;
          prev = prev;
          free = b.free;
          ptr = b.ptr;
        })
        h)

  fusion_merges :
      (c : Block) (cs : List Block)
      → Chain h.heap_ptr prev at (b ∷ c ∷ cs) h.headers
      → c.free ≡ true
      → fusion at h ≡ merged c cs
  unfolding fusion
  fusion_merges c cs ch e =
      let end = Chain-le h.heap_ptr (behind at b) (behind (behind at b) c) cs h.headers ch.1.1 in
      let far : (behind at b == null) ≡ false = ground arith in
      let size : add32 b.size (add32 20 c.size) ≡ b.size + (20 + c.size) =
        omega (arith, end, around.top) in
      rw (fusion, ch.0, ch.1.0, far, e, size) refl

  size_sum : (c : Block) → behind at (merge b c) ≡ behind (behind at b) c
  size_sum c = omega arith

  merged-Chain :
      (c : Block) (cs : List Block)
      → Chain h.heap_ptr prev at (b ∷ c ∷ cs) h.headers
      → Chain h.heap_ptr prev at (merge b c ∷ cs) (merged c cs).headers
  merged-Chain c [] ch = (ground arith, omega (arith, ch.1.1))
  merged-Chain c (d ∷ ds) ch =
      let to : behind at (merge b c) ≡ behind (behind at b) c = omega arith in
      let far : (behind (behind at b) c == null) ≡ false = ground arith in
      let here : (merged c (d ∷ ds)).headers at ≡ header_of at prev (merge b c) (d ∷ ds) =
        rw far (ground arith) in
      let hdr = header_of at prev (merge b c) (d ∷ ds) in
      let x = behind (behind at b) c in
      let w = write at (record hdr { next = x }) h in
      let kept = λ (a : ℕ) (n : a ≢ at). write-other at a (record hdr { next = x }) h n in
      let next : (merged c (d ∷ ds)).headers x ≡ header_of x at d ds =
        set_prev_self x at w (omega arith)
        ∙ ap (λ (y : BlockHeader). record y { prev = at }) (kept x (omega arith) ∙ ch.1.1.0) in
      let later : (a : ℕ) → behind x d ≤ a → (merged c (d ∷ ds)).headers a ≡ h.headers a =
        λ a l. set_prev-other x at a w (omega arith) ∙ kept a (omega arith) in
      (
        here,
        subst (λ n. Chain h.heap_ptr at n (d ∷ ds) (merged c (d ∷ ds)).headers) (sym to)
            (
              next,
              Chain-frame h.heap_ptr x (behind x d) ds h.headers (merged c (d ∷ ds)).headers later
                  ch.1.1.1,
            ),
      )

  merged-below :
      (c : Block) (cs : List Block) (a : ℕ) → a < at → (merged c cs).headers a ≡ h.headers a
  merged-below c [] a l = ground arith
  merged-below c (d ∷ ds) a l =
      let far : (behind (behind at b) c == null) ≡ false = ground arith in rw far (ground arith)

  merged_ends :
      (c : Block) (cs : List Block)
      → ((merged c cs).heap_ptr ≡ h.heap_ptr) × ((merged c cs).head ≡ h.head)
  merged_ends c cs = ground arith

  -- A heap whose blocks from `at` on are `bs`, not none, with the same end and the same head.
  stays :
      (g : Heap) (d : Block) (bs : List Block)
      → Chain h.heap_ptr prev at (d ∷ bs) g.headers
      → ((a : ℕ) → a < at → g.headers a ≡ h.headers a)
      → g.heap_ptr ≡ h.heap_ptr
      → g.head ≡ h.head
      → Becomes prev at h g (d ∷ bs)
  stays g d bs chain below end head = record {
    chain = subst (λ n. Chain n prev at (d ∷ bs) g.headers) (sym end) chain;
    below = λ a l n. below a l;
    before = λ n.
        let link = around.linked n in
        below prev around.low ∙ ap (λ x. record (h.headers prev) { next = x }) link;
    leads = ground (arith, head, around.leads);
    shrinks = omega (arith, end);
  }

  pub fused :
      (c : Block) (cs : List Block)
      → Chain h.heap_ptr prev at (b ∷ c ∷ cs) h.headers
      → Becomes prev at h (fusion at h) (settled b (c ∷ cs))
  fused c cs ch = elim (Bool-cases c.free) [
    | inl e ↦
        rw (e, fusion_merges c cs ch e)
          (stays (merged c cs) (merge b c) cs (merged-Chain c cs ch) (merged-below c cs)
            (merged_ends c cs).0 (merged_ends c cs).1)
    | inr e ↦
        let same : settled b (c ∷ cs) ≡ b ∷ c ∷ cs = simp e in
        rw (same, fusion_taken c cs ch e) (stays h b (c ∷ cs) ch (λ a l. refl) refl refl)
  ]

  settle-next :
      (c : Block) (cs : List Block)
      → Chain h.heap_ptr prev at (b ∷ c ∷ cs) h.headers
      → settle at h ≡ fusion at h
  unfolding settle
  settle-next c cs ch =
      let far : (behind at b == null) ≡ false = ground arith in rw (settle, ch.0, far)

  settle_last : Chain h.heap_ptr prev at (b ∷ []) h.headers → Becomes prev at h (settle at h) []
  unfolding settle
  settle_last ch = record {
    chain = ground (arith, ch.0);
    below = λ a l n. ground (arith, ch.0);
    before = λ n. ground (arith, ch.0);
    leads = ground (arith, ch.0);
    shrinks = ground (arith, ch.0, ch.1);
  }

  -- The end of `free` at a block that is free by now.
  pub settle_lem :
      (bs : List Block)
      → Chain h.heap_ptr prev at (b ∷ bs) h.headers
      → Becomes prev at h (settle at h) (settled b bs)
  settle_lem [] ch = settle_last ch
  settle_lem (c ∷ cs) ch = rw (settle-next c cs ch) (fused c cs ch)
