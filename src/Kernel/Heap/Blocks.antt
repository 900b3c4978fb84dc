-- ===== src/Kernel/Heap/Blocks.antt =====
-- The heap of kernel/SharedResources/HeapManager.cpp as the list of its blocks, which lie one behind the
-- other from the start of the heap to its end.
use cs16mem_model_vm.Base.{ℕ, ◌+◌, ◌^◌, ◌<◌, ◌≤◌, ◌≡◌, Bool, List, [], ◌∷◌, arith, ◌∙◌}
use cs16mem_model_vm.Kernel.Heap.{BlockHeader, null, Heap}

-- A block; `ptr` is the address that its header records for its data.
pub record Block : Type 0 where
  pub size : ℕ
  pub free : Bool
  pub ptr : ℕ

-- Where the block behind one at `at` lies.
abbrev pub behind : ℕ → Block → ℕ
behind at b = at + (20 + b.size)

abbrev pub first : ℕ → List Block → ℕ
first at [] = null
first at (b ∷ bs) = at

abbrev pub header_of : (at prev : ℕ) → Block → List Block → BlockHeader
header_of at prev b bs = record {
  size = b.size;
  next = first (behind at b) bs;
  prev = prev;
  free = b.free;
  ptr = b.ptr;
}

-- The headers of the blocks from `at` on are in the store, and the blocks fill the heap up to `stop`.
abbrev pub Chain : (stop prev at : ℕ) → List Block → (ℕ → BlockHeader) → Type 0
Chain stop prev at [] headers = at ≡ stop
Chain stop prev at (b ∷ bs) headers =
    (headers at ≡ header_of at prev b bs) × Chain stop at (behind at b) bs headers

pub record Represents (start : ℕ) (h : Heap) (bs : List Block) : Type 0 where
  pub not_null : 0 < start
  pub starts : h.head ≡ first start bs
  pub chain : Chain h.heap_ptr null start bs h.headers
  pub bounded : h.heap_ptr < 2 ^ 32

pub Chain-le :
    (stop prev at : ℕ) (bs : List Block) (headers : ℕ → BlockHeader)
    → Chain stop prev at bs headers
    → at ≤ stop
Chain-le stop prev at [] headers c = omega (arith, c)
Chain-le stop prev at (b ∷ bs) headers c =
    omega (arith, Chain-le stop at (behind at b) bs headers c.1)

-- Headers below the blocks do not matter to them.
pub Chain-frame :
    (stop prev at : ℕ) (bs : List Block) (headers headers' : ℕ → BlockHeader)
    → ((a : ℕ) → at ≤ a → headers' a ≡ headers a)
    → Chain stop prev at bs headers
    → Chain stop prev at bs headers'
Chain-frame stop prev at [] headers headers' same c = c
Chain-frame stop prev at (b ∷ bs) headers headers' same c = (
  same at (omega arith) ∙ c.0,
  Chain-frame stop at (behind at b) bs headers headers' (λ a h. same a (omega arith)) c.1,
)
