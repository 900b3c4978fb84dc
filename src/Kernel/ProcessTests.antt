-- ===== src/Kernel/ProcessTests.antt =====
-- The model of kernel/SharedResources/Process.cpp on a small table of processes.
use cs16mem_model_vm.Base.{
  ℕ, zero, suc, ◌≡◌, refl, inl, inr, true, false, none, some, [], ◌∷◌, arith, Among, get_elem?,
  replicate,
}
use cs16mem_model_vm.Machine.Trap.{ok, crash}
use cs16mem_model_vm.Kernel.Frames.Laws.{IsValid}
use cs16mem_model_vm.Kernel.Pages.{Entry}
use cs16mem_model_vm.Kernel.Pages.HashTable.{HashPageTable}
use cs16mem_model_vm.Kernel.UnorderedMap.Buckets
use cs16mem_model_vm.Kernel.Processes.{
  RegisterContext, ProcessState, Pcb, Processes, process_at, place, reset, free_process,
  mark_for_death, process, borrow,
}
use cs16mem_model_vm.Kernel.Processes.Slots.{IsTable, Slot, place-IsTable}
use cs16mem_model_vm.Kernel.Processes.Destructor.{Holds}
use cs16mem_model_vm.Kernel.Processes.Guards.{Left, reset-Left}

abbrev page : Entry
page = record { pfn = 300; global = false; writable = true; user = true; present = true }

abbrev one_page : HashPageTable
one_page = record { buckets = ((1024, page) ∷ []) ∷ []; size = 1 }

abbrev start_context : RegisterContext
start_context = record {
  regs = λ _. 0;
  hi_register = 0;
  lo_register = 0;
  epc = 4194304;
  status = 2;
  cause = 0;
}

abbrev first_process : Pcb
first_process = record {
  reg_ctx = start_context;
  page_table = some one_page;
  asid = 3;
  brk = 0;
  state = ProcessState.zombie;
  priority = 0;
  refcount = 1;
  pid = 0;
}

-- One process, and a slot that is free.
abbrev two_slots : Processes
two_slots = record {
  processes = some first_process ∷ none ∷ [];
  free_pids = 1 ∷ [];
  memory = record { reserved_pages = replicate 40 0; kernel_reserved_boundary = 256 };
  reserved_asids = replicate 8 0;
  physical = λ w. w;
}

two_slots-IsTable : IsTable two_slots
two_slots-IsTable = record { knows = knows; listed = listed; vacant = vacant; once = (λ h. h, tt) }
  where
    knows : (i : ℕ) (p : Pcb) → process_at two_slots i ≡ some p → p.pid ≡ i
    knows zero p e = cc
    knows (suc zero) p e = cc
    knows (suc (suc i)) p e = cc

    listed : (i : ℕ) → get_elem? two_slots.processes i ≡ some none → Among i two_slots.free_pids
    listed zero e = cc
    listed (suc zero) e = inl refl
    listed (suc (suc i)) e = cc

    vacant : (i : ℕ) → Among i two_slots.free_pids → get_elem? two_slots.processes i ≡ some none
    vacant zero (inl e) = absurd (omega arith)
    vacant (suc zero) (inl e) = refl
    vacant (suc (suc i)) (inl e) = absurd (omega arith)
    vacant i (inr h) = absurd h

memory-IsValid : IsValid two_slots.memory
memory-IsValid = record { blocks = refl; boundary = omega arith }

first_process-Holds : Holds first_process two_slots
first_process-Holds = record {
  memory = memory-IsValid;
  blocks = refl;
  asid = omega arith;
  frames = (omega arith, tt);
}

place-IsTable_example :
    (pid : ℕ) × ((s' : Processes) × ((place first_process two_slots ≡ ok (pid, s'))
        × ((process_at two_slots pid ≡ none)
            × ((Slot two_slots s' pid (some (record first_process { pid = pid })) × IsTable s')
                × ((s'.memory ≡ two_slots.memory)
                    × ((s'.reserved_asids ≡ two_slots.reserved_asids)
                        × (s'.physical ≡ two_slots.physical)))))))
place-IsTable_example = place-IsTable first_process two_slots two_slots-IsTable

reset-Left_example :
    (s' : Processes) × ((reset 0 two_slots ≡ ok s')
      × (IsTable s' × Left 0 first_process two_slots s'))
reset-Left_example =
    reset-Left 0 first_process two_slots two_slots-IsTable refl (omega arith) (omega arith)
      first_process-Holds

process_code : Unit {0}
unfolding place reset free_process mark_for_death process borrow
process_code = tt

-- The free slot is taken first, and then one more is made.
placed_in_free_slot :
    place first_process two_slots
    ≡ ok (
      1,
      record two_slots {
        processes = some first_process ∷ some (record first_process { pid = 1 }) ∷ [];
        free_pids = [];
      },
    )
unfolding process_code
placed_in_free_slot = refl

-- `operator[]` past the table gives a null guard.
no_such_process : process 2 two_slots ≡ ok (none, two_slots)
unfolding process_code
no_such_process = refl

-- A second guard is counted.
guarded :
    process 0 two_slots
    ≡ ok (
      some 0,
      record two_slots { processes = some (record first_process { refcount = 2 }) ∷ none ∷ [] },
    )
unfolding process_code
guarded = refl

-- A process with a guard is not freed.
guarded_not_freed : free_process 0 two_slots ≡ crash
unfolding process_code
guarded_not_freed = refl
