-- ===== src/Kernel/Heap/FirstFit.antt =====
-- First fit on the list of blocks, and the walk of `findBlock` in kernel/SharedResources/HeapManager.cpp.
use cs16mem_model_vm.Base.{
  ℕ, zero, suc, ◌+◌, ◌-◌, ◌<◌, ◌≡◌, ◌≢◌, refl, Bool, true, false, ◌&&◌, List, [], ◌∷◌, leb,
  if◌then◌else◌, arith, length, some,
}
use cs16mem_model_vm.Base.Words.{sub32}
use cs16mem_model_vm.Kernel.Heap.{BlockHeader, null, Heap, find_block, split_block, take}
use cs16mem_model_vm.Kernel.Heap.Blocks.{Block, behind, first, Chain}

abbrev pub fits : ℕ → Block → Bool
fits s b = b.free && leb s b.size

-- Where first fit finds room, or null, and the block seen before.
abbrev pub found : (s at : ℕ) → List Block → ℕ
found s at [] = null
found s at (b ∷ bs) = if fits s b then at else found s (behind at b) bs

abbrev pub last_seen : (s last at : ℕ) → List Block → ℕ
last_seen s last at [] = last
last_seen s last at (b ∷ bs) = if fits s b then last else last_seen s at (behind at b) bs

-- A free block gives `s` bytes; a rest of 24 bytes or more becomes a free block.
abbrev pub carve : (old : ℕ → ℕ) → (s at : ℕ) → Block → List Block → List Block
carve old s at b bs =
    if leb 24 (b.size - s)
    then record { size = s; free = false; ptr = b.ptr }
      ∷ record { size = b.size - s - 20; free = true; ptr = old (at + (20 + s)) }
      ∷ bs
    else record b { free = false } ∷ bs

abbrev pub alloc : (old : ℕ → ℕ) → (s at : ℕ) → List Block → List Block
alloc old s at [] = record { size = s; free = false; ptr = at + 20 } ∷ []
alloc old s at (b ∷ bs) = if fits s b then carve old s at b bs else b ∷ alloc old s (behind at b) bs

abbrev pub alloc_at : (s at : ℕ) → List Block → ℕ
alloc_at s at [] = at + 20
alloc_at s at (b ∷ bs) = if fits s b then at + 20 else alloc_at s (behind at b) bs

pub find_block_lem :
    (fuel s last stop prev at : ℕ) (bs : List Block) (headers : ℕ → BlockHeader)
    → Chain stop prev at bs headers
    → 0 < at
    → length bs < fuel
    → find_block fuel s (first at bs) last headers ≡ some (found s at bs, last_seen s last at bs)
unfolding find_block
find_block_lem zero s last stop prev at bs headers c pos h = absurd (omega arith)
find_block_lem (suc fuel) s last stop prev at [] headers c pos h = refl
find_block_lem (suc fuel) s last stop prev at (b ∷ bs) headers c pos h =
    let rest =
      find_block_lem fuel s at stop at (behind at b) bs headers c.1 (omega arith) (omega arith) in
    rw c.0 (ground (arith, rest))

pub first-alloc :
    (old : ℕ → ℕ) (s at next : ℕ) (bs : List Block)
    → found s at bs ≢ null
    → first next (alloc old s at bs) ≡ first next bs
first-alloc old s at next [] n = absurd (n refl)
first-alloc old s at next (b ∷ bs) n = ground arith

abbrev pub carved : (it s : ℕ) → Heap → Heap
carved it s h = take it (if leb 24 (sub32 (h.headers it).size s) then split_block it s h else h)
