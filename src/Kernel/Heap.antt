-- ===== src/Kernel/Heap.antt =====
-- `FreeList` of kernel/SharedResources/HeapManager.cpp: the kernel's heap, a doubly linked list of block
-- headers. A store gives the header at each address; the bytes of the blocks are not part of it, so a
-- header field that the code does not write is what the store had there.
pub mod Blocks
pub mod FirstFit
pub mod Split
pub mod Extend
pub mod Malloc
pub mod Release
pub mod Marks
pub mod Free
pub mod Safety
use cs16mem_model_vm.Base.{
  ℕ, zero, suc, ◌+◌, ◌-◌, ◌*◌, ◌/◌, ◌%◌, ◌^◌, Bool, true, false, not, ◌&&◌, Option, none, some, ltb,
  leb, ◌==◌, if◌then◌else◌, update,
}
use cs16mem_model_vm.Base.Words.{add32, sub32}

-- `BlockHeader`; the data begins at offset `BLOCKHEADER_OFFSET`.
pub record BlockHeader : Type 0 where
  pub size : ℕ
  pub next : ℕ
  pub prev : ℕ
  pub free : Bool
  pub ptr : ℕ

abbrev pub blockheader_offset : ℕ
blockheader_offset = 20

abbrev pub null : ℕ
null = 0

-- The store, `heap_ptr`, and the fields of `FreeList` that are ever written.
pub record Heap : Type 0 where
  pub headers : ℕ → BlockHeader
  pub heap_ptr : ℕ
  pub head : ℕ
  pub last_visited : ℕ

abbrev pub write : ℕ → BlockHeader → Heap → Heap
write a b h = record h { headers = update h.headers a b }

-- The address of `block->data`.
abbrev pub data_of : ℕ → ℕ
data_of block = add32 block blockheader_offset

-- `align4`
unfoldable pub align4 : ℕ → ℕ
align4 x = add32 x 3 / 4 * 4

-- `sbrk(offset)` and `brk(addr)`
abbrev pub sbrk : ℕ → Heap → Heap
sbrk offset h = record h { heap_ptr = add32 h.heap_ptr offset }

abbrev pub brk : ℕ → Heap → Heap
brk addr h = record h { heap_ptr = addr }

-- The walk of `findBlock` from `it` on: the block found or null, and `last_visited`. `none`: the walk
-- has not ended in `fuel` rounds.
unfoldable pub find_block : (fuel s it last : ℕ) → (ℕ → BlockHeader) → Option (ℕ × ℕ)
find_block zero s it last headers = none
find_block (suc fuel) s it last headers =
    let rest = find_block fuel s (headers it).next it headers in
    if it == null
    then some (null, last)
    else if (headers it).free && leb s (headers it).size
    then some (it, last)
    else rest

-- `if (last_visited) last_visited->next = it`
abbrev pub link_last : ℕ → Heap → Heap
link_last it h =
    if h.last_visited == null
    then h
    else write h.last_visited (record (h.headers h.last_visited) { next = it }) h

-- `extendHeap`: the block and the heap.
unfoldable pub extend_heap : ℕ → Heap → ℕ × Heap
extend_heap s h =
    let it = h.heap_ptr in
    let grown = sbrk (add32 blockheader_offset s) h in
    let made =
      write it
        (record (h.headers it) { size = s; next = null; prev = h.last_visited; ptr = data_of it })
        grown in
    let linked = link_last it made in
    (it, write it (record (linked.headers it) { free = false }) linked)

-- `if (block) block->prev = p`
abbrev pub set_prev : ℕ → ℕ → Heap → Heap
set_prev block p h =
    if block == null then h else write block (record (h.headers block) { prev = p }) h

-- `splitBlock`: the rest of the block becomes a free block behind it.
unfoldable pub split_block : ℕ → ℕ → Heap → Heap
split_block block s h =
    let add = add32 (data_of block) s in
    let added =
      write add
        (record (h.headers add) {
          size = sub32 (sub32 (h.headers block).size s) blockheader_offset;
          next = (h.headers block).next;
          prev = block;
          free = true;
        })
        h in
    let cut = write block (record (added.headers block) { size = s; next = add }) added in
    set_prev (cut.headers add).next add cut

abbrev pub take : ℕ → Heap → Heap
take it h = write it (record (h.headers it) { free = false }) h

-- `malloc`: the address of the data.
unfoldable pub malloc : (fuel size : ℕ) → Heap → Option (ℕ × Heap)
malloc fuel size h =
    let s = align4 size in
    let fresh = extend_heap s h in
    if h.head == null
    then some (data_of fresh.0, record fresh.1 { head = fresh.0 })
    else elim (find_block fuel s h.head h.head h.headers) [
      | none ↦ none
      | some (it, last) ↦
          let visited = record h { last_visited = last } in
          let grown = extend_heap s visited in
          if it == null
          then some (data_of grown.0, grown.1)
          else some (
            data_of it,
            take it (
                if leb (blockheader_offset + 4) (sub32 (visited.headers it).size s)
                then split_block it s visited
                else visited),
          )
    ]

-- `fusion`: a free next block is joined.
unfoldable pub fusion : ℕ → Heap → Heap
fusion block h =
    let b = h.headers block in
    let n = h.headers b.next in
    if not (b.next == null) && n.free
    then set_prev n.next block (
        write block
          (record b { size = add32 b.size (add32 blockheader_offset n.size); next = n.next }) h)
    else h

-- `getBlock` and `validAddr`
abbrev pub get_block : ℕ → ℕ
get_block p = sub32 p blockheader_offset

unfoldable pub valid_addr : ℕ → Heap → Bool
valid_addr p h =
    not (h.head == null) && ltb h.head p && ltb p h.heap_ptr && p == (h.headers (get_block p)).ptr

-- The end of `free`: the block meets the next one, or is given back when it is the last.
unfoldable pub settle : ℕ → Heap → Heap
settle it h =
    let b = h.headers it in
    if not (b.next == null)
    then fusion it h
    else brk it (
        if b.prev == null
        then record h { head = null }
        else write b.prev (record (h.headers b.prev) { next = null }) h)

-- `free`
unfoldable pub free : ℕ → Heap → Heap
free p h =
    let it = get_block p in
    let marked = write it (record (h.headers it) { free = true }) h in
    let before = (marked.headers it).prev in
    if valid_addr p h
    then (if not (before == null) && (marked.headers before).free
        then settle before (fusion before marked)
        else settle it marked)
    else h
