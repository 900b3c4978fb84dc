-- ===== src/Kernel/HeapTests.antt =====
-- The model of kernel/SharedResources/HeapManager.cpp on small heaps.
use cs16mem_model_vm.Base.{
  ℕ, ◌+◌, ◌^◌, ◌<◌, ◌≤◌, ◌≡◌, ◌≢◌, refl, inl, inr, true, false, Option, none, some, List, [], ◌∷◌,
  ◌==◌, if◌then◌else◌, arith,
}
use cs16mem_model_vm.Kernel.Heap.{
  BlockHeader, null, Heap, find_block, align4, extend_heap, split_block, malloc, fusion, valid_addr,
  settle, free,
}
use cs16mem_model_vm.Kernel.Heap.Blocks.{Block, Represents}
use cs16mem_model_vm.Kernel.Heap.Malloc.{Allocates, malloc-Represents}
use cs16mem_model_vm.Kernel.Heap.Free.{free-Represents}
use cs16mem_model_vm.Kernel.Heap.Safety.{Used, Apart, malloc_disjoint, free_disjoint, malloc_stale}

abbrev zero_header : BlockHeader
zero_header = record { size = 0; next = 0; prev = 0; free = false; ptr = 0 }

abbrev start : ℕ
start = 0xC0000000

abbrev no_blocks : Heap
no_blocks = record {
  headers = λ _. zero_header;
  heap_ptr = start;
  head = null;
  last_visited = null;
}

-- A free block of 40 bytes, and one of 8 in use.
abbrev blocks : List Block
blocks =
    record { size = 40; free = true; ptr = start + 20 }
    ∷ record { size = 8; free = false; ptr = start + 80 }
    ∷ []

abbrev two_blocks : Heap
two_blocks = record {
  headers = λ a.
      if a == start
      then record { size = 40; next = start + 60; prev = null; free = true; ptr = start + 20 }
      else if a == start + 60
      then record { size = 8; next = null; prev = start; free = false; ptr = start + 80 }
      else zero_header;
  heap_ptr = start + 88;
  head = start;
  last_visited = null;
}

two_blocks-Represents : Represents start two_blocks blocks
two_blocks-Represents = record {
  not_null = omega arith;
  starts = refl;
  chain = (refl, (refl, refl));
  bounded = omega arith;
}

heap_code : Unit {0}
unfolding find_block align4 extend_heap split_block malloc fusion valid_addr settle free
heap_code = tt

-- What a heap of tests ends with: an address, the end of the heap and the first block.
abbrev seen : Option (ℕ × Heap) → Option (ℕ × ℕ × ℕ)
seen none = none
seen (some (p, h)) = some (p, h.heap_ptr, h.head)

abbrev then_malloc : ℕ → Option (ℕ × Heap) → Option (ℕ × Heap)
then_malloc size none = none
then_malloc size (some (p, h)) = malloc 8 size h

abbrev then_free : ℕ → Option (ℕ × Heap) → Option (ℕ × Heap)
then_free q none = none
then_free q (some (p, h)) = some (p, free q h)

-- 5 bytes are rounded up to 8; the second block lies behind the first.
second_malloc : seen (then_malloc 12 (malloc 8 5 no_blocks)) ≡ some (start + 48, start + 60, start)
unfolding heap_code
second_malloc = refl

-- Of the free block of 40 bytes 8 are taken; the rest, 12, becomes a free block.
split_malloc : seen (malloc 8 8 two_blocks) ≡ some (start + 20, start + 88, start)
unfolding heap_code
split_malloc = refl

-- Both blocks are freed, the heap is empty; one more call, and the next does not end.
emptied :
    seen (then_free (start + 20) (then_free (start + 48) (then_malloc 12 (malloc 8 5 no_blocks))))
    ≡ some (start + 48, start, null)
unfolding heap_code
emptied = refl

hangs :
    seen (
      then_malloc 4 (
        then_malloc 4 (
          then_free (start + 20) (then_free (start + 48) (then_malloc 12 (malloc 8 5 no_blocks))))))
    ≡ none
unfolding heap_code
hangs = refl

room : two_blocks.heap_ptr + (20 + align4 8) < 2 ^ 32
unfolding align4
room = omega arith

malloc-Represents_example : Allocates 3 8 start two_blocks blocks
malloc-Represents_example =
    malloc-Represents 3 8 start two_blocks blocks two_blocks-Represents (λ e. cc) (omega arith) room

malloc_disjoint_example :
    (p n : ℕ) × (h' : Heap) × (bs' : List Block) × (malloc 3 8 two_blocks ≡ some (p, h'))
    × Represents start h' bs'
    × (align4 8 ≤ n)
    × Used p n start bs'
    × ((q m : ℕ) → Used q m start blocks → Used q m start bs' × Apart p n q m)
malloc_disjoint_example =
    malloc_disjoint 3 8 start two_blocks blocks two_blocks-Represents (λ e. cc) (omega arith) room

free-Represents_example : Represents start (free (start + 60 + 20) two_blocks) []
free-Represents_example =
    free-Represents (start + 60) start blocks two_blocks two_blocks-Represents
      (inr (inl (refl, refl))) (omega arith)

-- A free block of 40 bytes can be freed once more; the block behind it stays in use.
free_disjoint_example :
    (bs' : List Block) × Represents start (free (start + 20) two_blocks) bs'
    × ((q m : ℕ) → Used q m start blocks → q ≢ start + 20 → Used q m start bs')
free_disjoint_example =
    free_disjoint start start blocks two_blocks two_blocks-Represents (inl (refl, refl))
      (omega arith)

-- The heap after both blocks were freed.
malloc_stale_example :
    (h' : Heap) × (malloc 8 4 (record no_blocks { last_visited = start }) ≡ some (start + 20, h'))
    × ((h'.headers start).next ≡ start)
    × (malloc 100 4 h' ≡ none)
malloc_stale_example =
    malloc_stale 8 100 4 4 (record no_blocks { last_visited = start }) refl refl (omega arith)
      (omega arith)
