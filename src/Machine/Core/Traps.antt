-- ===== src/Machine/Core/Traps.antt =====
-- The entry into the kernel: what `Core::raiseTrap` leaves.
use cs16mem_model_vm.Base.{ℕ, ◌/◌, ◌%◌, ◌≡◌, ◌≢◌, refl, true, false, bit_or, arith}
use cs16mem_model_vm.Base.Bits.{bit_or_step, bit_or-zero}
use cs16mem_model_vm.Base.Words.{shl, test_bit}
use cs16mem_model_vm.Machine.Trap.{Trap, code_of}
use cs16mem_model_vm.Machine.State.{Machine, status}
use cs16mem_model_vm.Machine.Core.{trapped_registers, raise_trap}

-- The kernel is entered for the trap `t` from the state `m`: execution goes on at the trap entry, in
-- privileged mode with interrupts off; EPC, the cause and the bad address say what happened; and
-- the other system registers and all the rest of the machine are as they were.
pub record Entered (t : Trap) (m m' : Machine) : Type 0 where
  pub at_entry : m'.program_counter ≡ m.trap_entry
  pub privileged : test_bit (status m') 1 ≡ true
  pub interrupts_off : test_bit (status m') 0 ≡ false
  pub epc : m'.sys_registers 14 ≡ m.program_counter
  pub cause : m'.sys_registers 13 ≡ shl (code_of t.code) 2
  pub bad_vaddr : m'.sys_registers 8 ≡ t.bad_addr
  pub status_rest : status m' / 4 ≡ status m / 4
  pub others : (r : ℕ) → r ≢ 8 → r ≢ 12 → r ≢ 13 → r ≢ 14 → m'.sys_registers r ≡ m.sys_registers r
  pub registers : m'.registers ≡ m.registers
  pub memory : m'.memory ≡ m.memory
  pub products : (m'.hi ≡ m.hi) × (m'.lo ≡ m.lo)
  pub fp_registers : m'.fp_registers ≡ m.fp_registers
  pub tlb : m'.tlb ≡ m.tlb
  pub instruction_cache : m'.instruction_cache ≡ m.instruction_cache
  pub inter_dev : m'.inter_dev ≡ m.inter_dev
  pub files : (m'.file_system ≡ m.file_system) × (m'.host ≡ m.host)
  pub trap_entry : m'.trap_entry ≡ m.trap_entry
  pub killed : m'.killed ≡ m.killed

with_exl : (s : ℕ) → (bit_or s 2 / 2 % 2 ≡ 1) × (bit_or s 2 / 4 ≡ s / 4)
with_exl s = (
  omega (arith, bit_or_step s 2, bit_or_step (s / 2) 1, bit_or-zero (s / 2 / 2)),
  omega (arith, bit_or_step s 2, bit_or_step (s / 2) 1, bit_or-zero (s / 2 / 2)),
)

-- `raiseTrap` enters the kernel: execution goes on at the trap entry, with EXL set and interrupts off;
-- EPC, the cause and the bad address are those of the trap; the rest of the status, the other system
-- registers, the integer and floating-point registers, HI and LO, memory, the TLB, the instruction
-- cache, the devices, the files, the trap entry and the kill flag are as they were.
pub raise_trap-Entered : (t : Trap) (m : Machine) → Entered t m (raise_trap t m)
unfolding raise_trap trapped_registers
raise_trap-Entered t m = record {
  at_entry = refl;
  privileged = ground (arith, with_exl (status m));
  interrupts_off = ground (arith, with_exl (status m));
  epc = refl;
  cause = refl;
  bad_vaddr = refl;
  status_rest = omega (arith, with_exl (status m));
  others = λ r h8 h12 h13 h14. ground arith;
  registers = refl;
  memory = refl;
  products = (refl, refl);
  fp_registers = refl;
  tlb = refl;
  instruction_cache = refl;
  inter_dev = refl;
  files = (refl, refl);
  trap_entry = refl;
  killed = refl;
}
