-- ===== src/Machine/Core/Privilege.antt =====
-- A cycle outside privileged mode (EXL clear).
use cs16mem_model_vm.Base.{
  ℕ, ◌≡◌, ap, ◌∙◌, ◌⊎◌, inl, inr, Bool, true, false, some, subst, some-injective, if◌then◌else◌,
  arith,
}
use cs16mem_model_vm.Base.Words.{test_bit, add32}
use cs16mem_model_vm.Machine.Trap.{ExceptionCode, Trap, plain, Result, ok, throw, crash}
use cs16mem_model_vm.Machine.Isa.Instr.{
  Instruction, i_type, r_type, special, floating_point, kernel,
}
use cs16mem_model_vm.Machine.State.{Machine, status, set_pc}
use cs16mem_model_vm.Machine.State.System.{SameSystem, bind-SameSystem}
use cs16mem_model_vm.Machine.Exec.IType.System.{run_i-SameSystem}
use cs16mem_model_vm.Machine.Exec.RType.System.{run_r-SameSystem}
use cs16mem_model_vm.Machine.Exec.Special.System.{run_special-SameSystem}
use cs16mem_model_vm.Machine.Exec.Fp.{FloatOps}
use cs16mem_model_vm.Machine.Exec.Fp.System.{run_fp-SameSystem}
use cs16mem_model_vm.Machine.Exec.Kernel.Denied.{run_k_denied}
use cs16mem_model_vm.Machine.Device.{Device, poll}
use cs16mem_model_vm.Machine.Core.{
  fetch, decode_front, run, execute, interrupt, finish, cycle, raise_trap,
}
use cs16mem_model_vm.Machine.Core.Traps.{Entered, raise_trap-Entered}

-- What a cycle outside privileged mode may do to the system state: the TLB, the files and streams, the
-- trap entry and the kill flag stay; and so do the system control registers, unless the cycle enters
-- the kernel, from a state `x` that has the system registers of `m`.
pub record Contained (m m' : Machine) : Type 0 where
  pub tlb : m'.tlb ≡ m.tlb
  pub file_system : m'.file_system ≡ m.file_system
  pub host : m'.host ≡ m.host
  pub trap_entry : m'.trap_entry ≡ m.trap_entry
  pub killed : m'.killed ≡ m.killed
  pub registers :
      (m'.sys_registers ≡ m.sys_registers)
      ⊎ ((t : Trap) × ((x : Machine) × ((x.sys_registers ≡ m.sys_registers)
              × ((x.trap_entry ≡ m.trap_entry) × Entered t x m'))))

-- The device may have been polled.
raised :
    (t : Trap) (m x : Machine) (d : Device)
    → SameSystem m x
    → Contained m (raise_trap t (record x { inter_dev = d }))
unfolding raise_trap
raised t m x d s = record {
  tlb = s.tlb;
  file_system = s.file_system;
  host = s.host;
  trap_entry = s.trap_entry;
  killed = s.killed;
  registers = inr (
    t,
    (
      record x { inter_dev = d },
      (s.sys_registers, (s.trap_entry, raise_trap-Entered t (record x { inter_dev = d }))),
    ),
  );
}

went_on : (m x : Machine) (d : Device) → SameSystem m x → Contained m (record x { inter_dev = d })
went_on m x d s = record {
  tlb = s.tlb;
  file_system = s.file_system;
  host = s.host;
  trap_entry = s.trap_entry;
  killed = s.killed;
  registers = inl s.sys_registers;
}

fetch-SameSystem : (m : Machine) → SameSystem m (fetch m).1
unfolding fetch decode_front
fetch-SameSystem m = ground arith

still : (m : Machine) → test_bit (status m) 1 ≡ false → test_bit (status (fetch m).1) 1 ≡ false
still m h = ap (λ (s : ℕ → ℕ). test_bit (s 12) 1) (fetch-SameSystem m).sys_registers ∙ h

step_pc : (m : Machine) → SameSystem m (set_pc (add32 m.program_counter 4) m).1
step_pc m = ground arith

module _ (ops : FloatOps) where
  -- No instruction, of whatever class, changes the system state outside privileged mode; this holds
  -- also of one that throws or crashes.
  pub run-SameSystem :
      (i : Instruction) (m : Machine) → test_bit (status m) 1 ≡ false → SameSystem m (run ops i m).1
  unfolding run
  run-SameSystem (i_type i) m h = run_i-SameSystem i m
  run-SameSystem (r_type r) m h = run_r-SameSystem r m
  run-SameSystem (special s) m h = run_special-SameSystem s m
  run-SameSystem (floating_point f) m h = run_fp-SameSystem ops f m
  run-SameSystem (kernel k) m h = rw (run_k_denied k m h) (ground arith)

  execute-SameSystem :
      (m : Machine) → test_bit (status m) 1 ≡ false → SameSystem m (execute ops m).1
  unfolding execute
  execute-SameSystem m h = bind-SameSystem m fetch _ (fetch-SameSystem m) (λ i.
      bind-SameSystem (fetch m).1 (run ops i) _ (run-SameSystem i (fetch m).1 (still m h))
        (λ _. step_pc (run ops i (fetch m).1).1))

  chosen :
      (b : Bool) (m x : Machine) (d : Device)
      → SameSystem m x
      → Contained m (
          if b
          then raise_trap (plain ExceptionCode.interrupt) (record x { inter_dev = d })
          else record x { inter_dev = d })
  chosen true m x d s = raised (plain ExceptionCode.interrupt) m x d s
  chosen false m x d s = went_on m x d s

  interrupt-Contained :
      (old : Bool) (m x : Machine) → SameSystem m x → Contained m (interrupt ops old x)
  unfolding interrupt
  interrupt-Contained old m x s = chosen _ m x (poll x.inter_dev).1 s

  finish-Contained :
      (old : Bool) (m x m' : Machine) (r : Result (Unit {0}))
      → SameSystem m x
      → finish ops old (r, x) ≡ some m'
      → Contained m m'
  unfolding finish
  finish-Contained old m x m' (ok u) s e =
      subst (Contained m) (some-injective _ _ e) (interrupt-Contained old m x s)
  finish-Contained old m x m' (throw t) s e =
      subst (Contained m) (some-injective _ _ e) (raised t m x x.inter_dev s)
  finish-Contained old m x m' crash s e = ground arith

  -- User code is contained: a cycle that starts outside privileged mode, whatever word it fetches and
  -- whatever that instruction does, leaves the TLB, the host's files and streams, the trap entry and
  -- the kill flag as they are; and it leaves the system control registers as they are, or it ends in
  -- an entry into the kernel at the trap entry from such a state.
  pub cycle-Contained :
      (m m' : Machine) → test_bit (status m) 1 ≡ false → cycle ops m ≡ some m' → Contained m m'
  unfolding cycle
  cycle-Contained m m' h e =
      finish-Contained _ m (execute ops m).1 m' (execute ops m).0 (execute-SameSystem m h) e
