-- ===== src/Machine/State.antt =====
-- The state of `Hardware::Machine` and of its `Core`, as one record, and the actions on it. What an
-- instruction changed before it threw stays changed.
pub mod System
use cs16mem_model_vm.Base.{ℕ, ◌%◌, ◌^◌, Bool, true, false, List, update}
use cs16mem_model_vm.Base.Words.{test_bit}
use cs16mem_model_vm.Machine.Trap.{ExceptionCode, Trap, Result, ok, throw, crash, plain}
use cs16mem_model_vm.Machine.Tlb.{Tlb}
use cs16mem_model_vm.Machine.Memory.{Memory}
use cs16mem_model_vm.Machine.Host.{Host, Call, Reply, ask}
use cs16mem_model_vm.Machine.Files.{FileSystem}
use cs16mem_model_vm.Machine.Device.{Device}
use cs16mem_model_vm.Machine.Lru.{LruCache}
use cs16mem_model_vm.Machine.Isa.Codes.{SysRegister, sys_register}
use cs16mem_model_vm.Machine.Isa.Instr.{Instruction}
use mathlib.Core.Option.{Option}

-- The register files are those of the integer unit (with `hiLo`), of the floating-point unit, whose
-- words are bit patterns, and of the system control unit. A slot of the instruction cache may hold
-- no instruction yet.
pub record Machine : Type 0 where
  pub program_counter : ℕ
  pub tlb : Tlb
  pub registers : ℕ → ℕ
  pub hi : ℕ
  pub lo : ℕ
  pub fp_registers : ℕ → ℕ
  pub sys_registers : ℕ → ℕ
  pub inter_dev : Device
  pub instruction_cache : LruCache ℕ (Option Instruction)
  pub memory : Memory
  pub file_system : FileSystem
  pub host : Host
  pub trap_entry : ℕ
  pub killed : Bool

abbrev pub status : Machine → ℕ
status m = m.sys_registers (sys_register SysRegister.status)

-- `asidReg & 0xFF`
abbrev pub asid : Machine → ℕ
asid m = m.sys_registers (sys_register SysRegister.entryhi) % 2 ^ 8

abbrev pub Action : Type 0 → Type 0
Action A = Machine → Result A × Machine

abbrev pub pure : {A : Type 0} → A → Action A
pure a m = (ok a, m)

abbrev pub continue : {A B : Type 0} → Result A → Machine → (A → Action B) → Result B × Machine
continue (ok a) m f = f a m
continue (throw t) m f = (throw t, m)
continue crash m f = (crash, m)

infixl 5 ◌>>=◌ ◌>>◌
abbrev pub ◌>>=◌ : {A B : Type 0} → Action A → (A → Action B) → Action B
◌>>=◌ a f m = continue (a m).0 (a m).1 f

abbrev pub ◌>>◌ : {B : Type 0} → Action (Unit {0}) → Action B → Action B
a >> b = a >>= λ _. b

-- A computation on the side that may throw, an access to the state, and a change of it.
abbrev pub lift : {A : Type 0} → Result A → Action A
lift r m = (r, m)

abbrev pub gets : {A : Type 0} → (Machine → A) → Action A
gets f m = (ok (f m), m)

abbrev pub modify : (Machine → Machine) → Action (Unit {0})
modify f m = (ok tt, f m)

abbrev pub raise : {A : Type 0} → ExceptionCode → Action A
raise c m = (throw (plain c), m)

-- Reads and writes of the register files, and of the program counter.
abbrev pub register_of : ℕ → Action ℕ
register_of r m = (ok (m.registers r), m)

abbrev pub set_register : ℕ → ℕ → Action (Unit {0})
set_register r v m = (ok tt, record m { registers = update m.registers r v })

abbrev pub set_fp_register : ℕ → ℕ → Action (Unit {0})
set_fp_register r v m = (ok tt, record m { fp_registers = update m.fp_registers r v })

abbrev pub set_sys_register : ℕ → ℕ → Action (Unit {0})
set_sys_register r v m = (ok tt, record m { sys_registers = update m.sys_registers r v })

abbrev pub set_pc : ℕ → Action (Unit {0})
set_pc pc m = (ok tt, record m { program_counter = pc })

abbrev pub set_memory : Memory → Action (Unit {0})
set_memory mem m = (ok tt, record m { memory = mem })

abbrev pub ask_host : Call → Action Reply
ask_host c m = (ok (ask c m.host).0, record m { host = (ask c m.host).1 })
