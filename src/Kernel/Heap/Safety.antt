-- ===== src/Kernel/Heap/Safety.antt =====
-- What the callers of kernel/SharedResources/HeapManager.cpp rely on: regions that are in use do not
-- overlap, and stay until they are freed. And the state in which `malloc` spoils the list.
use cs16mem_model_vm.Base.{
  ℕ, zero, suc, ◌+◌, ◌-◌, ◌^◌, ◌<◌, ◌≤◌, ◌≡◌, ◌≢◌, ◌⊎◌, inl, inr, refl, false, ◌&&◌, List, [], ◌∷◌,
  leb, ◌==◌, arith, length, ap, sym, ◌∙◌, subst, Bool-cases, none, some,
}
use cs16mem_model_vm.Kernel.Heap.{
  BlockHeader, null, Heap, find_block, align4, data_of, extend_heap, malloc, free,
}
use cs16mem_model_vm.Kernel.Heap.Blocks.{Block, behind, Represents}
use cs16mem_model_vm.Kernel.Heap.FirstFit.{fits, carve, alloc, alloc_at}
use cs16mem_model_vm.Kernel.Heap.Malloc.{ptr_at, malloc-Represents, malloc_first}
use cs16mem_model_vm.Kernel.Heap.Release.{merge, settled}
use cs16mem_model_vm.Kernel.Heap.Marks.{freed, release, IsBlock}
use cs16mem_model_vm.Kernel.Heap.Free.{free-Represents}

-- The region of `n` bytes from `p` on is the data of a block in use.
abbrev pub Used : (p n at : ℕ) → List Block → Type 0
Used p n at [] = ⊥
Used p n at (b ∷ bs) = ((b.free ≡ false) × (p ≡ at + 20) × (n ≡ b.size)) ⊎ Used p n (behind at b) bs

abbrev pub Apart : (p n q m : ℕ) → Type 0
Apart p n q m = (p + n ≤ q) ⊎ (q + m ≤ p)

Used-le : (p n at : ℕ) (bs : List Block) → Used p n at bs → at + 20 ≤ p
Used-le p n at [] u = absurd u
Used-le p n at (b ∷ bs) (inl u) = omega arith
Used-le p n at (b ∷ bs) (inr u) = omega (arith, Used-le p n (behind at b) bs u)

Used-Apart :
    (p n q m at : ℕ) (bs : List Block) → Used p n at bs → Used q m at bs → p ≢ q → Apart p n q m
Used-Apart p n q m at [] u v ne = absurd u
Used-Apart p n q m at (b ∷ bs) (inl u) (inl v) ne = absurd (ne (omega arith))
Used-Apart p n q m at (b ∷ bs) (inl u) (inr v) ne =
    inl (omega (arith, Used-le q m (behind at b) bs v))
Used-Apart p n q m at (b ∷ bs) (inr u) (inl v) ne =
    inr (omega (arith, Used-le p n (behind at b) bs u))
Used-Apart p n q m at (b ∷ bs) (inr u) (inr v) ne = Used-Apart p n q m (behind at b) bs u v ne

alloc_gives :
    (old : ℕ → ℕ) (s at : ℕ) (bs : List Block)
    → (n : ℕ) × (s ≤ n) × Used (alloc_at s at bs) n at (alloc old s at bs)
alloc_gives old s at [] = (s, omega arith, inl (refl, refl, refl))
alloc_gives old s at (b ∷ bs) =
    let (n, l, u) = alloc_gives old s (behind at b) bs in
    elim (Bool-cases (fits s b)) [
      | inr e ↦ rw e (n, l, inr u)
      | inl e ↦ elim (Bool-cases (leb 24 (b.size - s))) [
        | inl f ↦ rw (e, f) (s, omega arith, inl (refl, refl, refl))
        | inr f ↦ rw (e, f) (b.size, ground arith, inl (refl, refl, refl))
      ]
    ]

le-alloc_at : (s at : ℕ) (bs : List Block) → at + 20 ≤ alloc_at s at bs
le-alloc_at s at [] = omega arith
le-alloc_at s at (b ∷ bs) = ground (arith, le-alloc_at s (behind at b) bs)

-- A region behind a block stays when the block is taken.
carve_keeps :
    (old : ℕ → ℕ) (s p n at : ℕ) (b : Block) (bs : List Block)
    → s ≤ b.size
    → Used p n (behind at b) bs
    → Used p n at (carve old s at b bs)
carve_keeps old s p n at b bs room u = elim (Bool-cases (leb 24 (b.size - s))) [
  | inr f ↦ rw f (inr u)
  | inl f ↦
      let big : s + 24 ≤ b.size = ground arith in
      let to : behind at b ≡ at + (20 + s) + (20 + (b.size - s - 20)) = omega arith in
      rw f (inr (inr (subst (λ x. Used p n x bs) to u)))
]

alloc_keeps :
    (old : ℕ → ℕ) (s p n at : ℕ) (bs : List Block)
    → Used p n at bs
    → Used p n at (alloc old s at bs) × (p ≢ alloc_at s at bs)
alloc_keeps old s p n at [] u = absurd u
alloc_keeps old s p n at (b ∷ bs) (inl u) =
    let miss : fits s b ≡ false = ground arith in
    rw miss (inl u, λ e. omega (arith, u, le-alloc_at s (behind at b) bs))
alloc_keeps old s p n at (b ∷ bs) (inr u) = elim (Bool-cases (fits s b)) [
  | inl e ↦ rw e (
    carve_keeps old s p n at b bs (ground arith) u,
    λ q. omega (arith, Used-le p n (behind at b) bs u),
  )
  | inr e ↦ let (kept, ne) = alloc_keeps old s p n (behind at b) bs u in rw e (inr kept, ne)
]

-- `malloc` on a heap of blocks ends with a region of at least the bytes asked for (rounded up to a
-- multiple of 4) that is in use afterwards; every region in use before is in use afterwards, and the
-- new one does not overlap it. The conditions are those under which `malloc` is first fit.
pub malloc_disjoint :
    (fuel size start : ℕ) (h : Heap) (bs : List Block)
    → Represents start h bs
    → (bs ≡ [] → h.last_visited ≡ null)
    → length bs < fuel
    → h.heap_ptr + (20 + align4 size) < 2 ^ 32
    → (p n : ℕ) × (h' : Heap) × (bs' : List Block) × (malloc fuel size h ≡ some (p, h'))
      × Represents start h' bs'
      × (align4 size ≤ n)
      × Used p n start bs'
      × ((q m : ℕ) → Used q m start bs → Used q m start bs' × Apart p n q m)
malloc_disjoint fuel size start h bs r fresh enough room =
    let s = align4 size in
    let (h', e, r', some_head) = malloc-Represents fuel size start h bs r fresh enough room in
    let (n, l, u) = alloc_gives (ptr_at h) s start bs in
    (
      alloc_at s start bs,
      n,
      h',
      alloc (ptr_at h) s start bs,
      e,
      r',
      l,
      u,
      λ q m v.
          let (kept, ne) = alloc_keeps (ptr_at h) s q m start bs v in
          (
            kept,
            Used-Apart (alloc_at s start bs) n q m start (alloc (ptr_at h) s start bs) u kept
                (λ x. ne (sym x)),
          ),
    )

settled_keeps :
    (q m at : ℕ) (b : Block) (bs : List Block)
    → Used q m (behind at b) bs
    → Used q m at (settled b bs)
settled_keeps q m at b [] u = absurd u
settled_keeps q m at b (c ∷ cs) (inl v) =
    let taken : settled b (c ∷ cs) ≡ b ∷ c ∷ cs = simp v.0 in rw taken (inr (inl v))
settled_keeps q m at b (c ∷ cs) (inr v) = elim (Bool-cases c.free) [
  | inl e ↦
      let joined : settled b (c ∷ cs) ≡ merge b c ∷ cs = simp e in
      let to : behind (behind at b) c ≡ behind at (merge b c) = omega arith in
      rw joined (inr (subst (λ x. Used q m x cs) to v))
  | inr e ↦ let apart : settled b (c ∷ cs) ≡ b ∷ c ∷ cs = simp e in rw apart (inr (inr v))
]

release_keeps :
    (it q m at : ℕ) (bs : List Block)
    → Used q m at bs
    → q ≢ it + 20
    → Used q m at (release it at bs)
release_keeps it q m at [] u n = absurd u
release_keeps it q m at (b ∷ []) (inl u) n =
    let other : (it == at) ≡ false = ground arith in rw other (inl u)
release_keeps it q m at (b ∷ []) (inr u) n = absurd u
release_keeps it q m at (b ∷ c ∷ cs) (inl u) n =
    let other : (it == at) ≡ false = ground arith in
    let taken : (b.free && it == behind at b) ≡ false = ground (arith, u.0) in
    rw (other, taken) (inl u)
release_keeps it q m at (b ∷ c ∷ cs) (inr v) n = elim (Bool-cases (it == at)) [
  | inl e ↦ rw e (settled_keeps q m at (freed b) (c ∷ cs) v)
  | inr e ↦ elim (Bool-cases (b.free && it == behind at b)) [
    | inr f ↦ rw (e, f) (inr (release_keeps it q m (behind at b) (c ∷ cs) v n))
    | inl f ↦
        let next : it ≡ behind at b = ground arith in
        rw (e, f) (settled_keeps q m at (merge b c) cs (beyond next v))
  ]
]
  where
    beyond :
        it ≡ behind at b → Used q m (behind at b) (c ∷ cs) → Used q m (behind at (merge b c)) cs
    beyond next (inl w) = absurd (n (omega arith))
    beyond next (inr w) =
        let to : behind (behind at b) c ≡ behind at (merge b c) = omega arith in
        subst (λ x. Used q m x cs) to w

-- `free` of a block that ends before the end of the heap leaves a heap of blocks in which every
-- other region in use is still in use.
pub free_disjoint :
    (it start : ℕ) (bs : List Block) (h : Heap)
    → Represents start h bs
    → IsBlock it start bs
    → it + 20 < h.heap_ptr
    → (bs' : List Block) × Represents start (free (it + 20) h) bs'
      × ((q m : ℕ) → Used q m start bs → q ≢ it + 20 → Used q m start bs')
free_disjoint it start bs h r is inside = (
  release it start bs,
  free-Represents it start bs h r is inside,
  λ q m u n. release_keeps it q m start bs u n,
)

-- A block that leads to itself and is not free: a walk that reaches it does not end.
find_block_loops :
    (fuel s it last : ℕ) (headers : ℕ → BlockHeader)
    → it ≢ null
    → (headers it).next ≡ it
    → (headers it).free ≡ false
    → find_block fuel s it last headers ≡ none
unfolding find_block
find_block_loops zero s it last headers n next taken = refl
find_block_loops (suc fuel) s it last headers n next taken =
    let other : (it == null) ≡ false = ground arith in
    rw (other, taken, next) (find_block_loops fuel s it it headers n next taken)

malloc_hangs :
    (fuel size : ℕ) (h : Heap)
    → h.head ≢ null
    → find_block fuel (align4 size) h.head h.head h.headers ≡ none
    → malloc fuel size h ≡ none
unfolding malloc
malloc_hangs fuel size h n e =
    let some_head : (h.head == null) ≡ false = ground arith in rw (some_head, malloc, e)

extended_stale :
    (s : ℕ) (h : Heap)
    → h.last_visited ≡ h.heap_ptr
    → 0 < h.heap_ptr
    → ((extend_heap s h).0 ≡ h.heap_ptr)
      × (((extend_heap s h).1.headers h.heap_ptr).next ≡ h.heap_ptr)
      × (((extend_heap s h).1.headers h.heap_ptr).free ≡ false)
unfolding extend_heap
extended_stale s h stale pos = ground (arith, stale)

-- When all blocks were freed and the last search had ended at the block that began the heap, the next
-- `malloc` gives a block that is its own successor, and the `malloc` directly after it does not end,
-- in any number of rounds.
pub malloc_stale :
    (fuel fuel' size size' : ℕ) (h : Heap)
    → h.head ≡ null
    → h.last_visited ≡ h.heap_ptr
    → 0 < h.heap_ptr
    → h.heap_ptr + 20 < 2 ^ 32
    → (h' : Heap) × (malloc fuel size h ≡ some (h.heap_ptr + 20, h'))
      × ((h'.headers h.heap_ptr).next ≡ h.heap_ptr)
      × (malloc fuel' size' h' ≡ none)
malloc_stale fuel fuel' size size' h empty stale pos room =
    let s = align4 size in
    let (block, next, taken) = extended_stale s h stale pos in
    let h' = record (extend_heap s h).1 { head = (extend_heap s h).0 } in
    let addr : data_of (extend_heap s h).0 ≡ h.heap_ptr + 20 = omega (arith, block) in
    let some_head : h'.head ≢ null = omega (arith, block) in
    let loops =
      find_block_loops fuel' (align4 size') h.heap_ptr h.heap_ptr h'.headers (omega arith) next
        taken in
    (
      h',
      malloc_first fuel size h empty ∙ ap (λ a. some (a, h')) addr,
      next,
      malloc_hangs fuel' size' h' some_head
          (ap (λ a. find_block fuel' (align4 size') a a h'.headers) block ∙ loops),
    )
