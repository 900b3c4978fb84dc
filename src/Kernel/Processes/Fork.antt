-- ===== src/Kernel/Processes/Fork.antt =====
-- `forkProcess` of kernel/SharedResources/Process.cpp, over the copy of the page table, the address space
-- identifier and the slot.
use cs16mem_model_vm.Base.{
  ℕ, ◌<◌, ◌≡◌, Option, none, some, List, length, ◌⊎◌, Among, ◌+◌, ◌≤◌, false,
}
use cs16mem_model_vm.Kernel.Frames.{MemoryManager, num_pages, num_asids}
use cs16mem_model_vm.Kernel.Frames.Laws.{AllTaken, Taken}
use cs16mem_model_vm.Kernel.Pages.{Entry}
use cs16mem_model_vm.Kernel.Pages.HashTable.{HashPageTable}
use cs16mem_model_vm.Kernel.UnorderedMap.{hash}
use cs16mem_model_vm.Kernel.UnorderedMap.Laws.{Represents}
use cs16mem_model_vm.Kernel.Processes.{
  RegisterContext, first_word, ProcessState, Pcb, Processes, process_at, entries,
}
use cs16mem_model_vm.Kernel.Processes.Slots.{Slot}
use cs16mem_model_vm.Kernel.Processes.Copy.Frames.{Reserved}
use cs16mem_model_vm.Kernel.Processes.Copy.Bytes.{Clear, Outside}
use cs16mem_model_vm.Kernel.Bitset.{test}
use cs16mem_model_vm.Kernel.Processes.Copy.Pairs.{SamePages}

-- The process that a fork made: it is ready, without guards, starts with the given registers, and has
-- pages and an identifier of its own.
pub record Child (pages : ℕ → Option Entry) (context : RegisterContext) (s s' : Processes) (id : ℕ)
    : Type 0 where
  pub process : Pcb
  pub table : HashPageTable
  pub own_pages : ℕ → Option Entry
  pub frames : List ℕ
  pub was_empty : process_at s id ≡ none
  pub slot : Slot s s' id (some process)
  pub knows : process.pid ≡ id
  pub ready : process.state ≡ ProcessState.ready
  pub unguarded : process.refcount ≡ 0
  pub starts : process.reg_ctx ≡ context
  pub has_table : process.page_table ≡ some table
  pub represents : Represents hash table own_pages
  pub same : SamePages pages own_pages frames
  pub memory : Reserved s.memory s'.memory frames
  pub room : (g : ℕ) → Among g frames → g + 4 ≤ num_pages
  pub elsewhere : (w : ℕ) → Outside w frames → s'.physical w ≡ s.physical w
  pub bytes :
      (v : ℕ) (e o : Entry) (i : ℕ)
      → pages v ≡ some e
      → own_pages v ≡ some o
      → Clear e.pfn frames
      → i < 1024
      → s'.physical (first_word o.pfn + i) ≡ s.physical (first_word e.pfn + i)
  pub asids : Taken s.reserved_asids s'.reserved_asids 0 num_asids process.asid

-- A fork that fails: no frame, or no identifier, is left.
abbrev pub Exhausted : HashPageTable → Processes → Type 0
Exhausted old s =
    ((m : MemoryManager) × ((fs : List ℕ) × ((length fs < length (entries old.buckets))
          × (Reserved s.memory m fs
              × AllTaken m.reserved_pages s.memory.kernel_reserved_boundary num_pages))))
    ⊎ AllTaken s.reserved_asids 0 num_asids

-- A fork that runs past the end of memory: the frame of a page, or a frame that was free, has fewer than
-- three frames behind it.
abbrev pub PastEnd : (pages : ℕ → Option Entry) → Processes → Type 0
PastEnd pages s =
    (g : ℕ) × ((((v : ℕ) × ((e : Entry) × ((pages v ≡ some e) × (g ≡ e.pfn))))
        ⊎ ((test s.memory.reserved_pages g ≡ some false) × (s.memory.kernel_reserved_boundary ≤ g)))
      × (num_pages < g + 4))

abbrev child : RegisterContext → HashPageTable → (asid unset : ℕ) → Pcb
child context table asid unset = record {
  reg_ctx = context;
  page_table = some table;
  asid = asid;
  brk = unset;
  state = ProcessState.ready;
  priority = 0;
  refcount = 0;
  pid = 0;
}
