-- ===== src/Kernel/Heap/Split.antt =====
-- `splitBlock` of kernel/SharedResources/HeapManager.cpp on the list of blocks.
use cs16mem_model_vm.Base.{
  ℕ, ◌+◌, ◌-◌, ◌^◌, ◌<◌, ◌≤◌, ◌≡◌, ◌≢◌, ◌⊎◌, inl, inr, refl, true, false, List, [], ◌∷◌, leb, arith,
  ap, sym, ◌∙◌, subst, Bool-cases,
}
use cs16mem_model_vm.Base.Words.{add32, sub32}
use cs16mem_model_vm.Kernel.Heap.{BlockHeader, null, Heap, data_of, split_block, take}
use cs16mem_model_vm.Kernel.Heap.Blocks.{
  Block, behind, first, header_of, Chain, Chain-le, Chain-frame,
}
use cs16mem_model_vm.Kernel.Heap.FirstFit.{fits, found, carve, alloc, first-alloc, carved}

-- What `splitBlock` writes, for a block whose header is `b`.
module _ (h : Heap) (it s : ℕ) (b : BlockHeader) (e : h.headers it ≡ b) (pos : 0 < it)
    (room : s + 20 ≤ b.size) (top : it + (20 + b.size) < 2 ^ 32)
    (later : (b.next ≡ null) ⊎ (it + (20 + b.size) ≤ b.next)) where
  add_at : add32 (data_of it) s ≡ it + (20 + s)
  add_at = omega arith

  rest_size : sub32 (sub32 b.size s) 20 ≡ b.size - s - 20
  rest_size = omega arith

  abbrev pub rest : BlockHeader
  rest = record (h.headers (it + (20 + s))) {
    size = b.size - s - 20;
    next = b.next;
    prev = it;
    free = true;
  }

  split_self : (split_block it s h).headers it ≡ record b { size = s; next = it + (20 + s) }
  unfolding split_block
  split_self = rw (e, add_at) (ground (arith, e))

  split-rest : (split_block it s h).headers (it + (20 + s)) ≡ rest
  unfolding split_block
  split-rest = rw (e, add_at, rest_size) (ground arith)

  split-next :
      b.next ≢ null
      → (split_block it s h).headers b.next ≡ record (h.headers b.next) { prev = it + (20 + s) }
  unfolding split_block
  split-next n = rw (e, add_at, rest_size) (ground arith)

  split-other :
      (a : ℕ)
      → a ≢ it
      → a ≢ it + (20 + s)
      → (b.next ≡ null) ⊎ (a ≢ b.next)
      → (split_block it s h).headers a ≡ h.headers a
  unfolding split_block
  split-other a n1 n2 n3 = rw (e, add_at, rest_size) (ground arith)

took-here :
    (stop prev at : ℕ) (b : Block) (bs : List Block) (h : Heap)
    → Chain stop prev at (b ∷ bs) h.headers
    → Chain stop prev at (record b { free = false } ∷ bs) (take at h).headers
took-here stop prev at b bs h c = (
  ground (arith, c.0),
  Chain-frame stop at (behind at b) bs h.headers _ (λ a l. ground arith) c.1,
)

abbrev pub cut : (old : ℕ → ℕ) → (s at : ℕ) → Block → List Block → List Block
cut old s at b bs =
    record b { size = s }
    ∷ record { size = b.size - s - 20; free = true; ptr = old (at + (20 + s)) }
    ∷ bs

first_behind :
    (at : ℕ) (b : Block) (bs : List Block)
    → (first (behind at b) bs ≡ null) ⊎ (at + (20 + b.size) ≤ first (behind at b) bs)
first_behind at b [] = inl refl
first_behind at b (d ∷ ds) = inr (omega arith)

split-here :
    (s stop prev at : ℕ) (b : Block) (bs : List Block) (h : Heap)
    → Chain stop prev at (b ∷ bs) h.headers
    → 0 < at
    → stop < 2 ^ 32
    → s + 24 ≤ b.size
    → Chain stop prev at (cut (λ a. (h.headers a).ptr) s at b bs) (split_block at s h).headers
split-here s stop prev at b bs h c pos top room =
    let end = Chain-le stop at (behind at b) bs h.headers c.1 in
    let hdr = header_of at prev b bs in
    let low : (20 + s) + at ≤ stop = omega arith in
    let to : behind (at + (20 + s)) (record { size = b.size - s - 20; free = true; ptr = 0 })
        ≡ behind at b =
      omega arith in
    let later : (hdr.next ≡ null) ⊎ (at + (20 + b.size) ≤ hdr.next) = first_behind at b bs in
    (
      split_self h at s hdr c.0 pos (omega arith) (omega arith) later,
      (
        split-rest h at s hdr c.0 pos (omega arith) (omega arith) later
            ∙ ap
                (λ n. record (h.headers (at + (20 + s))) {
                  size = b.size - s - 20;
                  next = first n bs;
                  prev = at;
                  free = true;
                })
                (sym to),
        subst (λ n. Chain stop (at + (20 + s)) n bs (split_block at s h).headers) (sym to)
            (tail bs c later end),
      ),
    )
  where
    tail :
        (ds : List Block)
        → Chain stop prev at (b ∷ ds) h.headers
        → (first (behind at b) ds ≡ null) ⊎ (at + (20 + b.size) ≤ first (behind at b) ds)
        → behind at b ≤ stop
        → Chain stop (at + (20 + s)) (behind at b) ds (split_block at s h).headers
    tail [] c later end = c.1
    tail (d ∷ ds) c later end =
        let hdr = header_of at prev b (d ∷ ds) in
        (
          split-next h at s hdr c.0 pos (omega arith) (omega arith) later (omega arith)
              ∙ ap (λ (x : BlockHeader). record x { prev = at + (20 + s) }) c.1.0,
          Chain-frame stop (behind at b) (behind (behind at b) d) ds h.headers _
              (λ a l.
                split-other h at s hdr c.0 pos (omega arith) (omega arith) later a (omega arith)
                  (omega arith) (inr (omega arith)))
              c.1.1,
        )

-- The block at hand is carved, the ones behind it stay.
carved-here :
    (s stop prev at : ℕ) (b : Block) (bs : List Block) (h : Heap)
    → Chain stop prev at (b ∷ bs) h.headers
    → 0 < at
    → stop < 2 ^ 32
    → s ≤ b.size
    → Chain stop prev at (carve (λ a. (h.headers a).ptr) s at b bs) (carved at s h).headers
carved-here s stop prev at b bs h c pos top room =
    let end = Chain-le stop at (behind at b) bs h.headers c.1 in
    let size : (h.headers at).size ≡ b.size = ap (λ (x : BlockHeader). x.size) c.0 in
    let same : sub32 (h.headers at).size s ≡ b.size - s = omega arith in
    elim (Bool-cases (leb 24 (b.size - s))) [
      | inl e ↦
          rw (same, e)
            (took-here stop prev at (record b { size = s })
              (record { size = b.size - s - 20; free = true; ptr = (h.headers (at + (20 + s))).ptr }
                ∷ bs)
              (split_block at s h) (split-here s stop prev at b bs h c pos top (ground arith)))
      | inr e ↦ rw (same, e) (took-here stop prev at b bs h c)
    ]

carved-here_below :
    (s stop prev at a : ℕ) (b : Block) (bs : List Block) (h : Heap)
    → Chain stop prev at (b ∷ bs) h.headers
    → 0 < at
    → stop < 2 ^ 32
    → a < at
    → s ≤ b.size
    → (carved at s h).headers a ≡ h.headers a
carved-here_below s stop prev at a b bs h c pos top low room =
    let end = Chain-le stop at (behind at b) bs h.headers c.1 in
    let size : (h.headers at).size ≡ b.size = ap (λ (x : BlockHeader). x.size) c.0 in
    let same : sub32 (h.headers at).size s ≡ b.size - s = omega arith in
    let later = first_behind at b bs in
    elim (Bool-cases (leb 24 (b.size - s))) [
      | inl e ↦
          let big : s + 24 ≤ b.size = ground arith in
          let apart : (first (behind at b) bs ≡ null) ⊎ (a ≢ first (behind at b) bs) =
            ground arith in
          rw (same, e)
            (ground (
              arith,
              split-other h at s (header_of at prev b bs) c.0 pos (omega arith) (omega arith) later
                  a (omega arith) (omega arith) apart,
            ))
      | inr e ↦ rw (same, e) (ground arith)
    ]

carved-below :
    (s stop prev at a : ℕ) (bs : List Block) (h : Heap)
    → Chain stop prev at bs h.headers
    → 0 < at
    → stop < 2 ^ 32
    → a < at
    → found s at bs ≢ null
    → (carved (found s at bs) s h).headers a ≡ h.headers a
carved-below s stop prev at a [] h c pos top low n = absurd (n refl)
carved-below s stop prev at a (b ∷ bs) h c pos top low n = elim (Bool-cases (fits s b)) [
  | inl e ↦ rw e (carved-here_below s stop prev at a b bs h c pos top low (ground arith))
  | inr e ↦
      rw e (
        carved-below s stop at (behind at b) a bs h c.1 (omega arith) top (omega arith) (rw e at n))
]

pub carved_lem :
    (s stop prev at : ℕ) (bs : List Block) (h : Heap)
    → Chain stop prev at bs h.headers
    → 0 < at
    → stop < 2 ^ 32
    → found s at bs ≢ null
    → Chain stop prev at
        (alloc (λ a. (h.headers a).ptr) s at bs)
        (carved (found s at bs) s h).headers
carved_lem s stop prev at [] h c pos top n = absurd (n refl)
carved_lem s stop prev at (b ∷ bs) h c pos top n = elim (Bool-cases (fits s b)) [
  | inl e ↦ rw e (carved-here s stop prev at b bs h c pos top (ground arith))
  | inr e ↦
      let n' : found s (behind at b) bs ≢ null = rw e at n in
      rw e (
        carved-below s stop at (behind at b) at bs h c.1 (omega arith) top (omega arith) n'
            ∙ c.0
            ∙ ap (λ n. record { size = b.size; next = n; prev = prev; free = b.free; ptr = b.ptr })
                (sym (first-alloc (λ a. (h.headers a).ptr) s (behind at b) (behind at b) bs n')),
        carved_lem s stop at (behind at b) bs h c.1 (omega arith) top n',
      )
]
