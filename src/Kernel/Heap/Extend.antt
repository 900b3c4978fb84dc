-- ===== src/Kernel/Heap/Extend.antt =====
-- `extendHeap` of kernel/SharedResources/HeapManager.cpp on the list of blocks.
use cs16mem_model_vm.Base.{
  ℕ, ◌+◌, ◌^◌, ◌<◌, ◌≤◌, ◌≡◌, ◌≢◌, refl, false, List, [], ◌∷◌, arith, ap, sym, ◌∙◌,
}
use cs16mem_model_vm.Kernel.Heap.{BlockHeader, null, Heap, extend_heap}
use cs16mem_model_vm.Kernel.Heap.Blocks.{Block, behind, first, Chain}
use cs16mem_model_vm.Kernel.Heap.FirstFit.{fits, found, last_seen, alloc}

-- The heap after `extendHeap`, when the last block is known.
module _ (s : ℕ) (h : Heap) (room : h.heap_ptr + (20 + s) < 2 ^ 32) where
  pub extended : (extend_heap s h).0 ≡ h.heap_ptr
  unfolding extend_heap
  extended = refl

  pub extended-stop : (extend_heap s h).1.heap_ptr ≡ h.heap_ptr + (20 + s)
  unfolding extend_heap
  extended-stop = ground arith

  pub extended-head : (extend_heap s h).1.head ≡ h.head
  unfolding extend_heap
  extended-head = ground arith

  pub extended-new :
      h.last_visited ≢ h.heap_ptr
      → (extend_heap s h).1.headers h.heap_ptr ≡ record {
        size = s;
        next = null;
        prev = h.last_visited;
        free = false;
        ptr = h.heap_ptr + 20;
      }
  unfolding extend_heap
  extended-new n = ground arith

  extended-last :
      h.last_visited ≢ h.heap_ptr
      → h.last_visited ≢ null
      → (extend_heap s h).1.headers h.last_visited
        ≡ record (h.headers h.last_visited) { next = h.heap_ptr }
  unfolding extend_heap
  extended-last n m = ground arith

  extended-other :
      (a : ℕ) → a ≢ h.heap_ptr → a ≢ h.last_visited → (extend_heap s h).1.headers a ≡ h.headers a
  unfolding extend_heap
  extended-other a n m = ground arith

-- The block at which a walk without room ends.
last_seen_bounds :
    (s last stop prev at : ℕ) (b : Block) (bs : List Block) (headers : ℕ → BlockHeader)
    → Chain stop prev at (b ∷ bs) headers
    → 0 < at
    → found s at (b ∷ bs) ≡ null
    → (at ≤ last_seen s last at (b ∷ bs)) × (last_seen s last at (b ∷ bs) + 20 ≤ stop)
last_seen_bounds s last stop prev at b [] headers c pos none_fits = ground (arith, c.1)
last_seen_bounds s last stop prev at b (d ∷ ds) headers c pos none_fits =
    ground (arith, last_seen_bounds s at stop at (behind at b) d ds headers c.1)

pub extend-Chain :
    (s l prev at : ℕ) (b : Block) (bs : List Block) (h : Heap)
    → h.heap_ptr + (20 + s) < 2 ^ 32
    → Chain h.heap_ptr prev at (b ∷ bs) h.headers
    → 0 < at
    → found s at (b ∷ bs) ≡ null
    → h.last_visited ≡ last_seen s l at (b ∷ bs)
    → Chain
        (h.heap_ptr + (20 + s))
        prev
        at
        (alloc (λ a. (h.headers a).ptr) s at (b ∷ bs))
        (extend_heap s h).1.headers
extend-Chain s l prev at b [] h room c pos none_fits last =
    let miss : fits s b ≡ false = ground arith in
    let here : h.last_visited ≡ at = ground arith in
    let new = extended-new s h room (omega (arith, c.1)) in
    let old = extended-last s h room (omega (arith, c.1)) (omega arith) in
    rw miss (
      ground (arith, old, c.0, c.1, ap h.headers here),
      (ground (arith, new, c.1, ap (extend_heap s h).1.headers c.1), omega (arith, c.1)),
    )
extend-Chain s l prev at b (d ∷ ds) h room c pos none_fits last =
    let miss : fits s b ≡ false = ground arith in
    let rest : found s (behind at b) (d ∷ ds) ≡ null = ground arith in
    let last' : h.last_visited ≡ last_seen s at (behind at b) (d ∷ ds) = ground arith in
    let bounds =
      last_seen_bounds s at h.heap_ptr at (behind at b) d ds h.headers c.1 (omega arith) rest in
    let old = λ (a : ℕ). (h.headers a).ptr in
    let begins : first (behind at b) (alloc old s (behind at b) (d ∷ ds)) ≡ behind at b =
      ground arith in
    rw miss (
      extended-other s h room at (omega (arith, bounds)) (omega (arith, bounds, last'))
          ∙ c.0
          ∙ ap (λ n. record { size = b.size; next = n; prev = prev; free = b.free; ptr = b.ptr })
              (sym begins),
      extend-Chain s at at (behind at b) d ds h room c.1 (omega arith) rest last',
    )
