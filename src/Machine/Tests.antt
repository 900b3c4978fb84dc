-- ===== src/Machine/Tests.antt =====
-- Runs of the emulator's model on small inputs.
use cs16mem_model_vm.Base.{◌≡◌, refl, true, false, none, some, [], ◌∷◌, update, replicate, arith}
use cs16mem_model_vm.Machine.Trap.{Trap, ExceptionCode, plain, ok}
use cs16mem_model_vm.Machine.Tlb
use cs16mem_model_vm.Machine.Tlb.{
  TlbEntry, Tlb, empty_entry, load, store, translate, from_words, hi_lo_pair,
}
use cs16mem_model_vm.Machine.Tlb.Lookup.{Found, lookup-Found}
use cs16mem_model_vm.Machine.Memory.{
  Memory, load_big_endian, get_half_word, get_word, put_half_word, put_word, set_half_word,
  set_word,
}
use cs16mem_model_vm.Machine.Memory.RoundTrip.{get_word-set_word, get_word-set_word_ne}
use cs16mem_model_vm.Machine.Device.{no_device}
use cs16mem_model_vm.Machine.Files.{no_files}
use cs16mem_model_vm.Machine.Lru.{empty_cache, lookup, erase, pop, insert_new, index}
use cs16mem_model_vm.Machine.Isa.Decode.{decode, decode_r_type}
use cs16mem_model_vm.Machine.State.{Machine}
use cs16mem_model_vm.Machine.Exec.Special.{run_special}
use cs16mem_model_vm.Machine.Exec.Fp.{FloatOps}
use cs16mem_model_vm.Machine.Core.{
  trapped_registers, raise_trap, front_slot, fill_front, read_instruction, decode_front, fetch, run,
  execute, interrupt, finish, cycle,
}
use cs16mem_model_vm.Machine.Core.Traps.{Entered, raise_trap-Entered}
use cs16mem_model_vm.Machine.Core.Privilege.{Contained, cycle-Contained}

memory_code : Unit {0}
unfolding Tlb.lookup translate load_big_endian get_half_word get_word put_half_word put_word
    set_half_word set_word
memory_code = tt

fetch_code : Unit {0}
unfolding memory_code decode decode_r_type lookup erase pop insert_new index front_slot fill_front
    read_instruction decode_front fetch
fetch_code = tt

cycle_code : Unit {0}
unfolding fetch_code run_special trapped_registers raise_trap run execute interrupt finish cycle
cycle_code = tt

-- A machine in user mode, whose first word of memory is `syscall`.
abbrev pub user_machine : Machine
user_machine = record {
  program_counter = 0x80000000;
  tlb = replicate 64 empty_entry;
  registers = λ r. r;
  hi = 0;
  lo = 0;
  fp_registers = λ r. 0;
  sys_registers = λ r. 0;
  inter_dev = no_device;
  instruction_cache = empty_cache;
  memory = update (λ a. 0) 3 12;
  file_system = no_files;
  host = record { calls = []; replies = [] };
  trap_entry = 0x80000180;
  killed = false;
}

-- Floating-point arithmetic that the runs below do not reach.
abbrev no_floats : FloatOps
no_floats = record { single_op = λ op a b. 0; double_op = λ op a b. 0 }

abbrev syscall_trap : Trap
syscall_trap = plain ExceptionCode.syscall

-- The machine after the first cycle: in the kernel.
abbrev kernel_machine : Machine
kernel_machine = elim (cycle no_floats user_machine) [ none ↦ user_machine | some m ↦ m ]

cycle-Contained_example : Contained user_machine kernel_machine
unfolding cycle_code
cycle-Contained_example = cycle-Contained no_floats user_machine kernel_machine refl refl

kernel_machine_pc : kernel_machine.program_counter ≡ 0x80000180
unfolding cycle_code
kernel_machine_pc = refl

raise_trap-Entered_example :
    Entered syscall_trap user_machine (raise_trap syscall_trap user_machine)
raise_trap-Entered_example = raise_trap-Entered syscall_trap user_machine

-- Memory through a TLB that maps the page 4 of address space 1 to the frame 2.
abbrev mapped : TlbEntry
mapped = record { vpn = 4; pfn = 2; global = false; dirty = false; valid = true; asid = 1; cc = 0 }

abbrev one_page : Tlb
one_page = empty_entry ∷ mapped ∷ []

abbrev zeros : Memory
zeros a = 0

abbrev stored : Memory
stored = put_word zeros 8196 0xDEADBEEF

get_word-set_word_example : get_word stored one_page 1 0x4004 ≡ ok 0xDEADBEEF
unfolding memory_code
get_word-set_word_example =
    get_word-set_word zeros one_page 1 0x4004 0xDEADBEEF {m' = stored} (omega arith) refl

get_word-set_word_ne_example : get_word stored one_page 1 0x4008 ≡ get_word zeros one_page 1 0x4008
unfolding memory_code
get_word-set_word_ne_example =
    get_word-set_word_ne zeros one_page 1 0x4004 0xDEADBEEF {m' = stored} 0x4008 {p = 8196}
      {q = 8200} refl refl refl (λ e. ground (arith, e))

lookup-Found_example : Found one_page 0x4004 store 1 (Tlb.lookup one_page 0x4004 store 1)
lookup-Found_example = lookup-Found 0x4004 store 1 one_page
