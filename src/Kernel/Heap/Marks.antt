-- ===== src/Kernel/Heap/Marks.antt =====
-- The steps of `FreeList::free` of kernel/SharedResources/HeapManager.cpp on the list of blocks: the mark,
-- and what it leaves around the blocks.
use cs16mem_model_vm.Base.{
  ℕ, ◌+◌, ◌<◌, ◌≤◌, ◌≡◌, ◌⊎◌, inl, inr, Bool, true, false, not, ◌&&◌, List, [], ◌∷◌, ◌==◌,
  if◌then◌else◌, arith, ap, ◌∙◌,
}
use cs16mem_model_vm.Kernel.Heap.{BlockHeader, null, Heap, write, fusion, settle}
use cs16mem_model_vm.Kernel.Heap.Blocks.{Block, behind, first, header_of, Chain, Chain-frame}
use cs16mem_model_vm.Kernel.Heap.Release.{merge, settled, Around, Becomes, fused, settle_lem}

abbrev pub freed : Block → Block
freed b = record b { free = true }

-- The blocks after the one at `it` is freed.
abbrev pub release : (it at : ℕ) → List Block → List Block
release it at [] = []
release it at (b ∷ []) = if it == at then [] else b ∷ []
release it at (b ∷ c ∷ cs) =
    if it == at
    then settled (freed b) (c ∷ cs)
    else if b.free && it == behind at b
    then settled (merge b c) cs
    else b ∷ release it (behind at b) (c ∷ cs)

-- There is a block at `it`, and its header records where its data begins.
abbrev pub IsBlock : (it at : ℕ) → List Block → Type 0
IsBlock it at [] = ⊥
IsBlock it at (b ∷ bs) = ((it ≡ at) × (b.ptr ≡ at + 20)) ⊎ IsBlock it (behind at b) bs

pub IsBlock-le : (it at : ℕ) (bs : List Block) → IsBlock it at bs → at ≤ it
IsBlock-le it at [] is = absurd is
IsBlock-le it at (b ∷ bs) (inl (e, p)) = omega arith
IsBlock-le it at (b ∷ bs) (inr is) = omega (arith, IsBlock-le it (behind at b) bs is)

-- The body of `free` behind its test.
abbrev mark : ℕ → Heap → Heap
mark it h = write it (record (h.headers it) { free = true }) h

abbrev pub give_back : ℕ → Heap → Heap
give_back it h =
    let marked = mark it h in
    let before = (marked.headers it).prev in
    if not (before == null) && (marked.headers before).free
    then settle before (fusion before marked)
    else settle it marked

Becomes-Around :
    (prev at : ℕ) (h g : Heap) (d : Block) (ds : List Block)
    → Around prev at h
    → Becomes prev at h g (d ∷ ds)
    → Around prev at g
Becomes-Around prev at h g d ds around r = record {
  low = around.low;
  linked = λ n. ap (λ (x : BlockHeader). x.next) (r.before n);
  leads = λ e. ground (arith, r.leads, e);
  top = omega (arith, around.top, r.shrinks);
}

leads_trans :
    (none_before : Bool) (a b c x y : ℕ)
    → b ≡ (if none_before then x else a)
    → c ≡ (if none_before then y else b)
    → c ≡ (if none_before then y else a)
leads_trans true a b c x y p q = q
leads_trans false a b c x y p q = q ∙ p

Becomes-trans :
    (prev at : ℕ) (h g k : Heap) (bs cs : List Block)
    → prev < at
    → Becomes prev at h g bs
    → Becomes prev at g k cs
    → Becomes prev at h k cs
Becomes-trans prev at h g k bs cs low r q = record {
  chain = q.chain;
  below = λ a l n. q.below a l n ∙ r.below a l n;
  before = λ n. q.before n ∙ ap (λ (x : BlockHeader). record x { next = first at cs }) (r.before n);
  leads =
      leads_trans (prev == null) h.head g.head k.head (first at bs) (first at cs) r.leads q.leads;
  shrinks = omega (arith, q.shrinks, r.shrinks);
}

-- A mark at the blocks does not matter to what stands around them.
marked-Around :
    (prev at it : ℕ) (h : Heap) → at ≤ it → Around prev at h → Around prev at (mark it h)
marked-Around prev at it h l around = record {
  low = around.low;
  linked = λ n. ground (arith, around.linked n, around.low);
  leads = around.leads;
  top = around.top;
}

marked-Becomes :
    (prev at it : ℕ) (h g : Heap) (bs : List Block)
    → prev < at
    → at ≤ it
    → Becomes prev at (mark it h) g bs
    → Becomes prev at h g bs
marked-Becomes prev at it h g bs low l r = record {
  chain = r.chain;
  below = λ a m n. r.below a m n ∙ ground arith;
  before = λ n. r.before n ∙ ground arith;
  leads = r.leads;
  shrinks = r.shrinks;
}

marked-Chain :
    (stop prev at : ℕ) (b : Block) (bs : List Block) (h : Heap)
    → Chain stop prev at (b ∷ bs) h.headers
    → Chain stop prev at (freed b ∷ bs) (mark at h).headers
marked-Chain stop prev at b bs h c = (
  ground (arith, c.0),
  Chain-frame stop at (behind at b) bs h.headers _ (λ a l. ground arith) c.1,
)

-- The block at hand is freed, and the one before it is not free.
pub free_here :
    (prev at : ℕ) (b : Block) (bs : List Block) (h : Heap)
    → Chain h.heap_ptr prev at (b ∷ bs) h.headers
    → Around prev at h
    → (prev ≡ null) ⊎ ((h.headers prev).free ≡ false)
    → Becomes prev at h (give_back at h) (settled (freed b) bs)
free_here prev at b bs h c around taken =
    let m = mark at h in
    let mc = marked-Chain h.heap_ptr prev at b bs h c in
    let before : (m.headers at).prev ≡ prev = ap (λ (x : BlockHeader). x.prev) mc.0 in
    let test : (not ((m.headers at).prev == null) && (m.headers (m.headers at).prev).free) ≡ false =
      rw before (ground (arith, around.low)) in
    rw test (
      marked-Becomes prev at at h (settle at m) (settled (freed b) bs) around.low (omega arith)
        (settle_lem prev at (freed b) m (marked-Around prev at at h (omega arith) around) bs mc))

-- The block behind a free one is freed.
pub free_next :
    (prev at : ℕ) (b c : Block) (cs : List Block) (h : Heap)
    → Chain h.heap_ptr prev at (b ∷ c ∷ cs) h.headers
    → Around prev at h
    → b.free ≡ true
    → Becomes prev at h (give_back (behind at b) h) (settled (merge b c) cs)
free_next prev at b c cs h ch around is_free =
    let x = behind at b in
    let m = mark x h in
    let mc : Chain h.heap_ptr prev at (b ∷ freed c ∷ cs) m.headers =
      (ground (arith, ch.0), marked-Chain h.heap_ptr at x c cs h ch.1) in
    let around' = marked-Around prev at x h (omega arith) around in
    let before : (m.headers x).prev ≡ at = ap (λ (y : BlockHeader). y.prev) mc.1.0 in
    let free_before : (m.headers at).free ≡ true =
      ap (λ (y : BlockHeader). y.free) mc.0 ∙ is_free in
    let test : (not (at == null) && (m.headers at).free) ≡ true =
      ground (arith, free_before, around.low) in
    let one : Becomes prev at m (fusion at m) (merge b c ∷ cs) =
      fused prev at b m around' (freed c) cs mc in
    let two =
      settle_lem prev at (merge b c) (fusion at m)
        (Becomes-Around prev at m (fusion at m) (merge b c) cs around' one) cs one.chain in
    rw (before, test)
      (marked-Becomes prev at x h (settle at (fusion at m)) (settled (merge b c) cs) around.low
        (omega arith)
        (Becomes-trans prev at m (fusion at m) (settle at (fusion at m)) (merge b c ∷ cs)
          (settled (merge b c) cs) around.low one two))

-- A change behind the first block, told from that block on.
pub behind-Becomes :
    (prev at : ℕ) (b : Block) (bs cs : List Block) (h g : Heap)
    → Around prev at h
    → h.headers at ≡ header_of at prev b bs
    → Becomes at (behind at b) h g cs
    → Becomes prev at h g (b ∷ cs)
behind-Becomes prev at b bs cs h g around here r = record {
  chain = (
    r.before (omega (arith, around.low))
        ∙ ap (λ (x : BlockHeader). record x { next = first (behind at b) cs }) here,
    r.chain,
  );
  below = λ a l n. r.below a (omega arith) (omega arith);
  before = λ n.
      r.below prev (omega (arith, around.low)) (omega (arith, around.low))
      ∙ ap (λ x. record (h.headers prev) { next = x }) (around.linked n);
  leads = ground (arith, r.leads, around.low, around.leads);
  shrinks = r.shrinks;
}

pub behind-Around :
    (prev at : ℕ) (b : Block) (bs : List Block) (h : Heap)
    → Around prev at h
    → h.headers at ≡ header_of at prev b bs
    → first (behind at b) bs ≡ behind at b
    → Around at (behind at b) h
behind-Around prev at b bs h around here some_behind = record {
  low = omega arith;
  linked = λ n. ap (λ (x : BlockHeader). x.next) here ∙ some_behind;
  leads = λ e. absurd (omega (arith, around.low));
  top = around.top;
}
