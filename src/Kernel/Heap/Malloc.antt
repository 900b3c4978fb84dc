-- ===== src/Kernel/Heap/Malloc.antt =====
-- `FreeList::malloc` of kernel/SharedResources/HeapManager.cpp against first fit on the list of blocks.
use cs16mem_model_vm.Base.{
  ℕ, ◌+◌, ◌^◌, ◌<◌, ◌≤◌, ◌≡◌, ◌≢◌, refl, false, List, [], ◌∷◌, ◌==◌, arith, length, ap, sym, ◌∙◌,
  subst, ℕ_discrete, some,
}
use cs16mem_model_vm.Kernel.Heap.{
  BlockHeader, null, Heap, find_block, align4, data_of, extend_heap, split_block, malloc,
}
use cs16mem_model_vm.Kernel.Heap.Blocks.{Block, behind, first, Chain, Represents, Chain-le}
use cs16mem_model_vm.Kernel.Heap.FirstFit.{
  found, last_seen, alloc, alloc_at, find_block_lem, carved,
}
use cs16mem_model_vm.Kernel.Heap.Split.{carved_lem}
use cs16mem_model_vm.Kernel.Heap.Extend.{
  extended, extended-stop, extended-head, extended-new, extend-Chain,
}

alloc_at-found :
    (s at : ℕ) (bs : List Block) → found s at bs ≢ null → alloc_at s at bs ≡ found s at bs + 20
alloc_at-found s at [] n = absurd (n refl)
alloc_at-found s at (b ∷ bs) n = ground (arith, alloc_at-found s (behind at b) bs)

alloc_at-extended :
    (s stop prev at : ℕ) (bs : List Block) (headers : ℕ → BlockHeader)
    → Chain stop prev at bs headers
    → 0 < at
    → found s at bs ≡ null
    → alloc_at s at bs ≡ stop + 20
alloc_at-extended s stop prev at [] headers c pos none_fits = omega (arith, c)
alloc_at-extended s stop prev at (b ∷ bs) headers c pos none_fits =
    ground (arith, alloc_at-extended s stop at (behind at b) bs headers c.1)

alloc_at-le :
    (s stop prev at : ℕ) (bs : List Block) (headers : ℕ → BlockHeader)
    → Chain stop prev at bs headers
    → alloc_at s at bs ≤ stop + 20
alloc_at-le s stop prev at [] headers c = omega (arith, c)
alloc_at-le s stop prev at (b ∷ bs) headers c =
    let end = Chain-le stop at (behind at b) bs headers c.1 in
    ground (arith, alloc_at-le s stop at (behind at b) bs headers c.1)

carved_ends :
    (it s : ℕ) (h : Heap)
    → ((carved it s h).heap_ptr ≡ h.heap_ptr) × ((carved it s h).head ≡ h.head)
unfolding split_block
carved_ends it s h = ground arith

-- The heap that `malloc` leaves, in its three cases.
pub malloc_first :
    (fuel size : ℕ) (h : Heap)
    → h.head ≡ null
    → malloc fuel size h
      ≡ some (
        data_of (extend_heap (align4 size) h).0,
        record (extend_heap (align4 size) h).1 { head = (extend_heap (align4 size) h).0 },
      )
unfolding malloc
malloc_first fuel size h e = ground (arith, e)

module _ (fuel size last : ℕ) (h : Heap) (n : h.head ≢ null) where
  malloc_extends :
      find_block fuel (align4 size) h.head h.head h.headers ≡ some (null, last)
      → malloc fuel size h
        ≡ some (
          data_of (extend_heap (align4 size) (record h { last_visited = last })).0,
          (extend_heap (align4 size) (record h { last_visited = last })).1,
        )
  unfolding malloc
  malloc_extends e =
      let some_head : (h.head == null) ≡ false = ground arith in rw (some_head, malloc, e)

  malloc_carves :
      (it : ℕ)
      → it ≢ null
      → find_block fuel (align4 size) h.head h.head h.headers ≡ some (it, last)
      → malloc fuel size h
        ≡ some (data_of it, carved it (align4 size) (record h { last_visited = last }))
  unfolding malloc
  malloc_carves it m e =
      let some_head : (h.head == null) ≡ false = ground arith in
      let some_it : (it == null) ≡ false = ground arith in rw (some_head, malloc, e, some_it)

abbrev pub ptr_at : Heap → ℕ → ℕ
ptr_at h a = (h.headers a).ptr

abbrev pub Allocates : (fuel size start : ℕ) → Heap → List Block → Type 0
Allocates fuel size start h bs =
    (h' : Heap) × (malloc fuel size h ≡ some (alloc_at (align4 size) start bs, h'))
    × Represents start h' (alloc (ptr_at h) (align4 size) start bs)
    × (h'.head ≢ null)

begins :
    (old : ℕ → ℕ) (s at next : ℕ) (b : Block) (bs : List Block)
    → first next (alloc old s at (b ∷ bs)) ≡ next
begins old s at next b bs = ground arith

on_empty :
    (fuel size start : ℕ) (h : Heap)
    → Represents start h []
    → h.last_visited ≡ null
    → h.heap_ptr + (20 + align4 size) < 2 ^ 32
    → Allocates fuel size start h []
on_empty fuel size start h r none_seen room =
    let s = align4 size in
    let addr : data_of (extend_heap s h).0 ≡ start + 20 =
      omega (arith, extended s h room, r.chain) in
    let new = extended-new s h room (omega (arith, r.chain, r.not_null)) in
    (
      record (extend_heap s h).1 { head = (extend_heap s h).0 },
      malloc_first fuel size h r.starts
          ∙ ap (λ a. some (a, record (extend_heap s h).1 { head = (extend_heap s h).0 })) addr,
      record {
        not_null = r.not_null;
        starts = extended s h room ∙ sym r.chain;
        chain = (
          ground (arith, new, ap (extend_heap s h).1.headers r.chain),
          omega (arith, extended-stop s h room, r.chain),
        );
        bounded = omega (arith, extended-stop s h room);
      },
      λ e. omega (arith, extended s h room, e, r.chain, r.not_null),
    )

module _ (fuel size start : ℕ) (b : Block) (bs : List Block) (h : Heap)
    (r : Represents start h (b ∷ bs)) (enough : length (b ∷ bs) < fuel)
    (room : h.heap_ptr + (20 + align4 size) < 2 ^ 32) where
  abbrev last : ℕ
  last = last_seen (align4 size) start start (b ∷ bs)

  walk :
      find_block fuel (align4 size) h.head h.head h.headers
      ≡ some (found (align4 size) start (b ∷ bs), last)
  walk = rw r.starts (
      find_block_lem fuel (align4 size) start h.heap_ptr null start (b ∷ bs) h.headers r.chain
        r.not_null enough)

  on_full : found (align4 size) start (b ∷ bs) ≡ null → Allocates fuel size start h (b ∷ bs)
  on_full none_fits =
      let s = align4 size in
      let v = record h { last_visited = last } in
      let addr : data_of (extend_heap s v).0 ≡ alloc_at s start (b ∷ bs) = omega (
        arith,
        extended s v room,
        alloc_at-extended s h.heap_ptr null start (b ∷ bs) h.headers r.chain r.not_null none_fits,
      ) in
      (
        (extend_heap s v).1,
        malloc_extends fuel size last h (omega (arith, r.starts, r.not_null))
              (walk ∙ ap (λ it. some (it, last)) none_fits)
            ∙ ap (λ a. some (a, (extend_heap s v).1)) addr,
        record {
          not_null = r.not_null;
          starts = extended-head s v room ∙ r.starts ∙ sym (begins (ptr_at h) s start start b bs);
          chain =
              subst
                (λ n.
                  Chain n null start (alloc (ptr_at h) s start (b ∷ bs))
                    (extend_heap s v).1.headers)
                (sym (extended-stop s v room))
                (extend-Chain s start null start b bs v room r.chain r.not_null none_fits refl);
          bounded = omega (arith, extended-stop s v room);
        },
        λ e. omega (arith, extended-head s v room, e, r.starts, r.not_null),
      )

  on_fit : found (align4 size) start (b ∷ bs) ≢ null → Allocates fuel size start h (b ∷ bs)
  on_fit fit =
      let s = align4 size in
      let v = record h { last_visited = last } in
      let it = found s start (b ∷ bs) in
      let ends = carved_ends it s v in
      let addr : data_of it ≡ alloc_at s start (b ∷ bs) = omega (
        arith,
        alloc_at-found s start (b ∷ bs) fit,
        alloc_at-le s h.heap_ptr null start (b ∷ bs) h.headers r.chain,
      ) in
      (
        carved it s v,
        malloc_carves fuel size last h (omega (arith, r.starts, r.not_null)) it fit walk
            ∙ ap (λ a. some (a, carved it s v)) addr,
        record {
          not_null = r.not_null;
          starts = ends.1 ∙ r.starts ∙ sym (begins (ptr_at h) s start start b bs);
          chain =
              subst
                (λ n.
                  Chain n null start (alloc (ptr_at h) s start (b ∷ bs)) (carved it s v).headers)
                (sym ends.0)
                (carved_lem s h.heap_ptr null start (b ∷ bs) v r.chain r.not_null r.bounded fit);
          bounded = omega (arith, ends.0, r.bounded);
        },
        λ e. omega (arith, ends.1, e, r.starts, r.not_null),
      )

-- `malloc` on a heap of blocks ends, when its walk has as many rounds as there are blocks, and is first
-- fit: the first free block that is large enough (its rest of 24 bytes or more becomes a free block),
-- or else a new block at the end of the heap. The conditions are that the heap has room, that is, its
-- end stays below 2^32, and that a heap without blocks has not been searched before.
pub malloc-Represents :
    (fuel size start : ℕ) (h : Heap) (bs : List Block)
    → Represents start h bs
    → (bs ≡ [] → h.last_visited ≡ null)
    → length bs < fuel
    → h.heap_ptr + (20 + align4 size) < 2 ^ 32
    → Allocates fuel size start h bs
malloc-Represents fuel size start h [] r fresh enough room =
    on_empty fuel size start h r (fresh refl) room
malloc-Represents fuel size start h (b ∷ bs) r fresh enough room =
    elim (ℕ_discrete (found (align4 size) start (b ∷ bs)) null) [
      | yes e ↦ on_full fuel size start b bs h r enough room e
      | no n ↦ on_fit fuel size start b bs h r enough room n
    ]
