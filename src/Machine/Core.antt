-- ===== src/Machine/Core.antt =====
-- `Hardware::Core` of machine/Processors.cpp, and `Hardware::Machine` of machine/Hardware.cpp.
pub mod Traps
pub mod Privilege
pub mod Fetch
use cs16mem_model_vm.Base.{
  ℕ, zero, suc, ◌+◌, ◌-◌, ◌*◌, ◌%◌, ◌^◌, Bool, true, false, ◌&&◌, Option, none, some, List, [], ◌∷◌,
  length, bit_or, update, ◌==◌, if◌then◌else◌, ℕ_discrete,
}
use cs16mem_model_vm.Base.Words.{shl, add32, test_bit}
use cs16mem_model_vm.Machine.Trap.{ExceptionCode, code_of, Trap, plain, Result, ok, throw, crash}
use cs16mem_model_vm.Machine.Tlb.{Tlb, empty_entry, tlb_entries}
use cs16mem_model_vm.Machine.Memory.{get_word}
use cs16mem_model_vm.Machine.Device.{Device, poll}
use cs16mem_model_vm.Machine.Lru
use cs16mem_model_vm.Machine.Lru.{LruCache, Node}
use cs16mem_model_vm.Machine.Isa.Codes.{SysRegister, sys_register}
use cs16mem_model_vm.Machine.Isa.Instr.{
  Instruction, i_type, r_type, special, floating_point, kernel,
}
use cs16mem_model_vm.Machine.Isa.Decode.{decode}
use cs16mem_model_vm.Machine.State.{
  Machine, status, asid, Action, pure, ◌>>=◌, ◌>>◌, lift, gets, modify, set_pc,
}
use cs16mem_model_vm.Machine.Exec.IType.{run_i}
use cs16mem_model_vm.Machine.Exec.RType.{run_r}
use cs16mem_model_vm.Machine.Exec.Special.{run_special}
use cs16mem_model_vm.Machine.Exec.Fp.{FloatOps, run_fp}
use cs16mem_model_vm.Machine.Exec.Kernel.{run_k}

-- `setEPC`, `setEXL(true)`, `setBadVAddr`, `setCause`, and the status register with its lowest bit
-- cleared.
unfoldable pub trapped_registers : Trap → (pc : ℕ) → (ℕ → ℕ) → ℕ → ℕ
trapped_registers t pc sys =
    update
      (update
        (update (update sys (sys_register SysRegister.epc) pc) (sys_register SysRegister.bad_vaddr)
          t.bad_addr)
        (sys_register SysRegister.cause) (shl (code_of t.code) 2))
      (sys_register SysRegister.status) (s - s % 2)
  where
    s : ℕ
    s = bit_or (sys (sys_register SysRegister.status)) 2

-- `Core::raiseTrap`
unfoldable pub raise_trap : Trap → Machine → Machine
raise_trap t m = record m {
  sys_registers = trapped_registers t m.program_counter m.sys_registers;
  program_counter = m.trap_entry;
}

-- `32 * 1024`
abbrev pub cache_capacity : ℕ
cache_capacity = 32768

-- The slot that `instructionCache[programCounter]` refers to is the front of the list.
unfoldable pub front_slot : LruCache ℕ (Option Instruction) → Option Instruction
front_slot c = elim c.storage [ [] ↦ none | n ∷ ns ↦ n.value ]

unfoldable pub fill_front :
    Instruction → LruCache ℕ (Option Instruction) → LruCache ℕ (Option Instruction)
fill_front i c = elim c.storage [
  | [] ↦ c
  | n ∷ ns ↦ record c { storage = record n { value = some i } ∷ ns }
]

-- `iu.decode( machine().memory.getWord(programCounter, tlb, asidReg & 0xFF) )`
unfoldable pub read_instruction : Machine → ℕ → Result Instruction
read_instruction m pc = elim (get_word m.memory m.tlb (asid m) pc) [
  | ok w ↦ decode pc w
  | throw t ↦ throw t
  | crash ↦ crash
]

-- `if (!instr) instr = ...`, on the slot at the front.
unfoldable pub decode_front : (pc : ℕ) → Action Instruction
decode_front pc m = elim (front_slot m.instruction_cache) [
  | some i ↦ pure i m
  | none ↦
      (do
        i ← lift (read_instruction m pc)
        modify (λ n. record n { instruction_cache = fill_front i n.instruction_cache })
        pure i)
        m
]

-- The instruction at the program counter, decoded on the first use of its slot.
unfoldable pub fetch : Action Instruction
fetch = do
  pc ← gets (λ m. m.program_counter)
  c ← gets (λ m. m.instruction_cache)
  c' ← lift (Lru.index ℕ_discrete cache_capacity pc none c)
  modify (λ m. record m { instruction_cache = c' })
  decode_front pc

module _ (ops : FloatOps) where
  -- `Instruction::run`
  unfoldable pub run : Instruction → Action (Unit {0})
  run (i_type i) = run_i i
  run (r_type r) = run_r r
  run (special s) = run_special s
  run (floating_point f) = run_fp ops f
  run (kernel k) = run_k k

  -- The body of `cycle`'s try block, up to the poll of the device.
  unfoldable pub execute : Action (Unit {0})
  execute = do i ← fetch; run i; pc ← gets (λ m. m.program_counter); set_pc (add32 pc 4)

  -- The poll after an instruction: an interrupt needs IE set before the instruction and after it.
  unfoldable pub interrupt : (old_ie : Bool) → Machine → Machine
  interrupt old_ie m =
      let (due, device) = poll m.inter_dev in
      let m' = record m { inter_dev = device } in
      if due && old_ie && test_bit (status m) 0
      then raise_trap (plain ExceptionCode.interrupt) m'
      else m'

  -- The end of `cycle`: `none` is a crash of the emulator.
  unfoldable pub finish : (old_ie : Bool) → Result (Unit {0}) × Machine → Option Machine
  finish old_ie (ok u, m) = some (interrupt old_ie m)
  finish old_ie (throw t, m) = some (raise_trap t m)
  finish old_ie (crash, m) = none

  -- `Core::cycle`
  unfoldable pub cycle : Machine → Option Machine
  cycle m = finish (test_bit (status m) 0) (execute m)

  -- The loop of `Machine::run`, for at most `fuel` cycles.
  pub run_machine : (fuel : ℕ) → Machine → Option Machine
  run_machine zero m = some m
  run_machine (suc fuel) m = elim m.killed [
    | true ↦ some m
    | false ↦ elim (cycle m) [ none ↦ none | some m' ↦ run_machine fuel m' ]
  ]
