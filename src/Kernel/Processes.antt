-- ===== src/Kernel/Processes.antt =====
-- `PCB`, `PCB::Guard` and `ProcessManager` of kernel/SharedResources/Process.cpp. A guard is the id of its
-- process, which keeps its place in the table as long as it lives; the process manager, the memory
-- manager and the address space identifiers are one state, as `SharedResources` has them.
pub mod Slots
pub mod Destructor
pub mod Removal
pub mod Guards
pub mod Entries
pub mod Copy
pub mod Fork
use cs16mem_model_vm.Base.{
  ℕ, zero, suc, ◌+◌, ◌-◌, ◌%◌, ◌^◌, Bool, true, false, not, ◌&&◌, Option, none, some, List, [], ◌∷◌,
  ◌++◌, ltb, leb, ◌==◌, if◌then◌else◌, get_elem?, set, length, update, ◌*◌,
}
use cs16mem_model_vm.Base.Words.{shl, shr}
use cs16mem_model_vm.Machine.Trap.{Result, ok, crash, require, ◌>>=◌, ◌>>◌}
use cs16mem_model_vm.Kernel.Bitset.{Bitset}
use cs16mem_model_vm.Kernel.Frames.{
  MemoryManager, reserve_frame, free_frame, reserve_asid, free_asid,
}
use cs16mem_model_vm.Kernel.Pages.{Entry}
use cs16mem_model_vm.Kernel.Pages.HashTable.{HashPageTable}
use cs16mem_model_vm.Kernel.UnorderedMap.{UnorderedMap, with_buckets, hash, index, default_cap}
use cs16mem_model_vm.Kernel.UnorderedMap

-- `RegisterContext`; a register's number is that of `Register`.
pub record RegisterContext : Type 0 where
  pub regs : ℕ → ℕ
  pub hi_register : ℕ
  pub lo_register : ℕ
  pub epc : ℕ
  pub status : ℕ
  pub cause : ℕ

pub data ProcessState : Type 0 where
  ready running blocked zombie : ProcessState

-- `PCB` with its `AddressSpace`: the page table (a null pointer when it was moved away), the
-- identifier, and `brk`.
pub record Pcb : Type 0 where
  pub reg_ctx : RegisterContext
  pub page_table : Option HashPageTable
  pub asid : ℕ
  pub brk : ℕ
  pub state : ProcessState
  pub priority : ℕ
  pub refcount : ℕ
  pub pid : ℕ

-- Physical memory as the kernel's copy of a page sees it, by the number of its words.
abbrev pub Physical : Type 0
Physical = ℕ → ℕ

abbrev pub physical_words : ℕ
physical_words = 1310720

pub record Processes : Type 0 where
  pub processes : List (Option Pcb)
  pub free_pids : List ℕ
  pub memory : MemoryManager
  pub reserved_asids : Bitset
  pub physical : Physical

-- A failed assertion ends the kernel.
abbrev pub assert_some {ℓ} : {A : Type ℓ} → Option A → Result A
assert_some none = crash
assert_some (some a) = ok a

abbrev pub flatten {ℓ} : {A : Type ℓ} → Option (Option A) → Option A
flatten none = none
flatten (some o) = o

-- The process in a slot.
abbrev pub process_at : Processes → ℕ → Option Pcb
process_at s pid = flatten (get_elem? s.processes pid)

abbrev pub put : ℕ → Option Pcb → Processes → Processes
put pid p s = record s { processes = set s.processes pid p }

-- `borrow`: a guard more; `refcount` has 16 bits.
unfoldable pub borrow : ℕ → Processes → Result Processes
borrow pid s = do
  p ← assert_some (process_at s pid)
  ok (put pid (some (record p { refcount = (p.refcount + 1) % 2 ^ 16 })) s)

-- `operator[]`: the guard is null when there is no such process.
unfoldable pub process : ℕ → Processes → Result (Option ℕ × Processes)
process pid s = elim (process_at s pid) [
  | none ↦ ok (none, s)
  | some _ ↦ do s' ← borrow pid s; ok (some pid, s')
]

-- The destructor of `HashPageTable`, entry after entry.
pub free_pages : List (ℕ × Entry) → MemoryManager → Result MemoryManager
free_pages [] m = ok m
free_pages ((vpn, pte) ∷ rest) m = do
  m' ← assert_some (free_frame m (shl pte.pfn 12))
  free_pages rest m'

abbrev pub entries {ℓ} : {V : Type ℓ} → List (List (ℕ × V)) → List (ℕ × V)
entries [] = []
entries (b ∷ bs) = b ++ entries bs

abbrev pub free_table : Option HashPageTable → MemoryManager → Result MemoryManager
free_table none m = ok m
free_table (some table) m = free_pages (entries table.buckets) m

-- The destructor of `PCB`: that of its `AddressSpace` gives the identifier back, then the page table.
pub destroy : Pcb → Processes → Result Processes
destroy p s = do
  asids ← assert_some (free_asid s.reserved_asids p.asid)
  m ← free_table p.page_table s.memory
  ok (record s { reserved_asids = asids; memory = m })

abbrev pub is_zombie : ProcessState → Bool
is_zombie ProcessState.zombie = true
is_zombie ProcessState.ready = false
is_zombie ProcessState.running = false
is_zombie ProcessState.blocked = false

abbrev pub drop_last {ℓ} : {A : Type ℓ} → List A → List A
drop_last [] = []
drop_last (x ∷ []) = []
drop_last (x ∷ y ∷ xs) = x ∷ drop_last (y ∷ xs)

-- `freeProcess`: the last slot goes, another one is emptied and its id kept for reuse.
unfoldable pub free_process : ℕ → Processes → Result Processes
free_process pid s = do
  p ← assert_some (process_at s pid)
  require (p.refcount == 0 && is_zombie p.state)
  s' ← destroy p s
  ok (
      if pid == length s.processes - 1
      then record s' { processes = drop_last s'.processes }
      else record (put pid none s') { free_pids = s'.free_pids ++ pid ∷ [] })

-- `Guard::reset` of a guard that is not null and not of the kernel.
unfoldable pub reset : ℕ → Processes → Result Processes
reset pid s = do
  p ← assert_some (process_at s pid)
  let p' = record p { refcount = (p.refcount + (2 ^ 16 - 1)) % 2 ^ 16 }
  let s' = put pid (some p') s
  if is_zombie p'.state && p'.refcount == 0 then free_process pid s' else ok s'

-- `markForDeath` of a process other than the kernel's.
unfoldable pub mark_for_death : ℕ → Processes → Result Processes
mark_for_death pid s = do
  p ← assert_some (process_at s pid)
  ok (put pid (some (record p { state = ProcessState.zombie })) s)

abbrev pub default_entry : Entry
default_entry = record { pfn = 0; global = false; writable = false; user = false; present = false }

-- `table[vpn]` as a reference that is assigned to.
abbrev pub assign : ℕ → Entry → List (ℕ × Entry) → List (ℕ × Entry)
assign vpn e [] = []
assign vpn e ((k, v) ∷ rest) =
    let later = assign vpn e rest in if vpn == k then (k, e) ∷ rest else (k, v) ∷ later

abbrev pub assign_at : ℕ → Entry → HashPageTable → HashPageTable
assign_at vpn e table =
    let loc = hash vpn % length table.buckets in
    record table {
      buckets =
          UnorderedMap.set_bucket table.buckets loc
            (assign vpn e (UnorderedMap.bucket_at table.buckets loc));
    }

-- The loop `for (i = 0; i < 4096; ++i) dst[i] = src[i]` over `int`s, from one round on. An access past
-- the end of physical memory has no meaning: it is a crash.
unfoldable pub copy_words : (left src dst : ℕ) → Physical → Result Physical
copy_words zero src dst p = ok p
copy_words (suc left) src dst p = do
  require (ltb src physical_words)
  require (ltb dst physical_words)
  copy_words left (src + 1) (dst + 1) (update p dst (p src))

-- `(int*)(0x80000000 + (pfn << 12))` as the number of a word.
abbrev pub first_word : ℕ → ℕ
first_word pfn = pfn * 1024

-- The loop of `HashPageTable(unique_ptr<Iterator>)`: each page gets a frame of its own, into which 4096
-- words are copied.
unfoldable pub copy_pages :
    List (ℕ × Entry)
    → HashPageTable × (MemoryManager × Physical)
    → Result (HashPageTable × (MemoryManager × Physical))
copy_pages [] s = ok s
copy_pages ((vpn, pte) ∷ rest) (table, (m, p)) = do
  (placed, _) ← index hash default_entry vpn table
  (paddr, m') ← assert_some (reserve_frame m)
  p' ← copy_words 4096 (first_word pte.pfn) (first_word (shr paddr 12)) p
  copy_pages rest (assign_at vpn (record pte { pfn = shr paddr 12 }) placed, (m', p'))

abbrev pub no_pcb_exists : ℕ
no_pcb_exists = 2 ^ 32 - 1

abbrev pub last {ℓ} : {A : Type ℓ} → List A → Option A
last [] = none
last (x ∷ []) = some x
last (x ∷ y ∷ xs) = last (y ∷ xs)

-- The slot of a new process, and the table with the process in it.
unfoldable pub place : Pcb → Processes → Result (ℕ × Processes)
place p s = elim (last s.free_pids) [
  | none ↦
      let pid = length s.processes in
      ok (pid, record s { processes = s.processes ++ some (record p { pid = pid }) ∷ [] })
  | some pid ↦ elim (get_elem? s.processes pid) [
    | some none ↦ ok (
      pid,
      record (put pid (some (record p { pid = pid })) s) { free_pids = drop_last s.free_pids },
    )
    | some (some _) ↦ crash
    | none ↦ crash
  ]
]

-- `regCtx{}`
abbrev pub no_context : RegisterContext
no_context = record {
  regs = λ _. 0;
  hi_register = 0;
  lo_register = 0;
  epc = 0;
  status = 0;
  cause = 0;
}

-- The context of a child: the one given, unless the pointer is null.
abbrev pub context_or_none : Option RegisterContext → RegisterContext
context_or_none none = no_context
context_or_none (some c) = c

-- `forkProcess` with the context of the caller, `none` for a null pointer. The constructor does not set `brk`, so it is what the
-- memory of the new object held, `unset`.
unfoldable pub fork_process :
    (pid unset : ℕ) → Option RegisterContext → Processes → Result (ℕ × Processes)
fork_process pid unset context s = elim (process_at s pid) [
  | none ↦ ok (no_pcb_exists, s)
  | some parent ↦ do
    old ← assert_some parent.page_table
    (table, (m, p)) ←
        copy_pages (entries old.buckets) (with_buckets default_cap, (s.memory, s.physical))
    (asid, asids) ← assert_some (reserve_asid s.reserved_asids)
    place
        (record {
          reg_ctx = context_or_none context;
          page_table = some table;
          asid = asid;
          brk = unset;
          state = ProcessState.ready;
          priority = 0;
          refcount = 0;
          pid = 0;
        })
        (record s { memory = m; reserved_asids = asids; physical = p })
]
