-- ===== src/Kernel/Pages/HashTable.antt =====
-- `HashPageTable` of kernel/KernelObjects/PageTables.cpp: the page table of a process, an
-- `unordered_map` from page numbers to entries.
use cs16mem_model_vm.Base.{
  ℕ, zero, suc, ◌+◌, ◌-◌, ◌*◌, ◌%◌, ◌^◌, ◌≤◌, ◌<◌, ◌≡◌, ◌∙◌, ap, Bool, false, ◌||◌, leb, ltb,
  if◌then◌else◌, Option, none, some, update, arith, ◌⊎◌,
}
use cs16mem_model_vm.Base.Words.{shr, add32}
use cs16mem_model_vm.Machine.Trap.{Result, ok, crash, ◌>>=◌}
use cs16mem_model_vm.Kernel.UnorderedMap.{UnorderedMap, with_buckets, hash, emplace, find}
use cs16mem_model_vm.Kernel.UnorderedMap.Buckets.{is_none, or_else}
use cs16mem_model_vm.Kernel.UnorderedMap.Laws.{Represents}
use cs16mem_model_vm.Kernel.UnorderedMap.Insert.{emplace-Represents}
use cs16mem_model_vm.Kernel.UnorderedMap.Find.{find-contains_lem}
use cs16mem_model_vm.Kernel.Frames.{MemoryManager, reserve_frame}
use cs16mem_model_vm.Kernel.Pages.{Entry, entry}

abbrev pub text_start_vpn : ℕ
text_start_vpn = 0x400

abbrev pub static_start_vpn : ℕ
static_start_vpn = 0x10000

abbrev pub dynamic_start_vpn : ℕ
dynamic_start_vpn = 0x10008

abbrev pub stack_limit_vpn : ℕ
stack_limit_vpn = 0x80000

-- `PRESENT`, `WRITABLE` and `USER`, as the constructor joins them.
abbrev pub text_flags : ℕ
text_flags = 5

abbrev pub data_flags : ℕ
data_flags = 7

abbrev pub HashPageTable : Type 0
HashPageTable = UnorderedMap Entry

-- `HashPageTable::walkTable`
unfoldable pub walk_hash : HashPageTable → (vaddr : ℕ) → Result (Option Entry)
walk_hash table vaddr = find hash table (shr vaddr 12)

-- `HashPageTable::mapPTE`: outside the user's pages nothing is done, and a page that is mapped stays.
unfoldable pub map_hash : Entry → (vpn : ℕ) → HashPageTable → Result (HashPageTable × Bool)
map_hash pte vpn table =
    if ltb vpn text_start_vpn || leb stack_limit_vpn vpn
    then ok (table, false)
    else emplace hash vpn pte table

-- One of the loops of the constructor: a frame for each of `count` pages, at the page numbers that
-- `vpn_of` gives for `i` and the following rounds. No frame left is a failed assertion.
pub place_pages :
    (count : ℕ)
    → (vpn_of : ℕ → ℕ) → (flags i : ℕ) → HashPageTable × MemoryManager
    → Result (HashPageTable × MemoryManager)
place_pages zero vpn_of flags i s = ok s
place_pages (suc count) vpn_of flags i (table, m) = elim (reserve_frame m) [
  | none ↦ crash
  | some (paddr, m') ↦ do
    (table', _) ← emplace hash (vpn_of i) (entry (shr paddr 12) flags) table
    place_pages count vpn_of flags (i + 1) (table', m')
]

-- `HashPageTable(initText, initStatic, initStack, initDynamic)`
pub hash_page_table :
    (init_text init_static init_stack init_dynamic : ℕ)
    → MemoryManager
    → Result (HashPageTable × MemoryManager)
hash_page_table init_text init_static init_stack init_dynamic m = do
  let count = (init_text + init_static + init_stack + init_dynamic) * 2 % 2 ^ 32
  text ← place_pages init_text (λ i. add32 text_start_vpn i) text_flags 0 (with_buckets count, m)
  static ← place_pages init_static (λ i. add32 static_start_vpn i) data_flags 0 text
  stack ← place_pages init_stack (λ i. (stack_limit_vpn + 2 ^ 32 - i) % 2 ^ 32) data_flags 1 static
  place_pages init_dynamic (λ i. add32 dynamic_start_vpn i) data_flags 0 stack

-- Pages before the text and in the kernel's half are refused.
map_hash_outside :
    (pte : Entry) (vpn : ℕ) (t : HashPageTable)
    → (vpn < text_start_vpn) ⊎ (stack_limit_vpn ≤ vpn)
    → map_hash pte vpn t ≡ ok (t, false)
unfolding map_hash
map_hash_outside pte vpn t h = ground arith

inside :
    (pte : Entry) (vpn : ℕ) (t : HashPageTable)
    → text_start_vpn ≤ vpn
    → vpn < stack_limit_vpn
    → map_hash pte vpn t ≡ emplace hash vpn pte t
unfolding map_hash
inside pte vpn t h k = ground arith

walk_page :
    (t : HashPageTable) (vpn offset : ℕ) (pages : ℕ → Option Entry)
    → Represents hash t pages
    → offset < 4096
    → walk_hash t (vpn * 4096 + offset) ≡ ok (pages vpn)
unfolding walk_hash
walk_page t vpn offset pages r h =
    let page : shr (vpn * 4096 + offset) 12 ≡ vpn = omega arith in
    ap (find hash t) page ∙ (find-contains_lem hash vpn t pages r).0

-- For a page table that represents a table of pages and a page of the user's range (from the text to
-- the top of the stack), `mapPTE` maps the page and returns true, unless the page was mapped: then it
-- returns false and the old entry stays. A walk of any address of the page finds the entry that
-- stands there afterwards, and the other pages keep their entries.
pub walk-map_hash :
    (pte : Entry) (vpn offset : ℕ) (t : HashPageTable) (pages : ℕ → Option Entry)
    → Represents hash t pages
    → text_start_vpn ≤ vpn
    → vpn < stack_limit_vpn
    → offset < 4096
    → (t' : HashPageTable) × (map_hash pte vpn t ≡ ok (t', is_none (pages vpn)))
      × Represents hash t' (update pages vpn (or_else (pages vpn) (some pte)))
      × (walk_hash t' (vpn * 4096 + offset) ≡ ok (or_else (pages vpn) (some pte)))
walk-map_hash pte vpn offset t pages r low high h =
    let (t', e, size, r') = emplace-Represents hash vpn pte t pages r in
    (t', inside pte vpn t low high ∙ e, r', walk_page t' vpn offset _ r' h ∙ ap ok (ground arith))
