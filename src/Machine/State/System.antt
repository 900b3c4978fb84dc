-- ===== src/Machine/State/System.antt =====
-- The part of the machine that only the kernel may change.
use cs16mem_model_vm.Base.{◌≡◌, refl, ◌∙◌}
use cs16mem_model_vm.Machine.Trap.{Result, ok, throw, crash}
use cs16mem_model_vm.Machine.State.{Machine, Action, ◌>>=◌, continue}

-- The system control registers, the TLB, the interrupt device, the files and streams of the host, the
-- trap entry and the kill flag are the same in both states.
pub record SameSystem (m m' : Machine) : Type 0 where
  pub sys_registers : m'.sys_registers ≡ m.sys_registers
  pub tlb : m'.tlb ≡ m.tlb
  pub inter_dev : m'.inter_dev ≡ m.inter_dev
  pub file_system : m'.file_system ≡ m.file_system
  pub host : m'.host ≡ m.host
  pub trap_entry : m'.trap_entry ≡ m.trap_entry
  pub killed : m'.killed ≡ m.killed

pub SameSystem-refl : (m : Machine) → SameSystem m m
SameSystem-refl m = record {
  sys_registers = refl;
  tlb = refl;
  inter_dev = refl;
  file_system = refl;
  host = refl;
  trap_entry = refl;
  killed = refl;
}

pub SameSystem-trans : {m m' m'' : Machine} → SameSystem m m' → SameSystem m' m'' → SameSystem m m''
SameSystem-trans s t = record {
  sys_registers = t.sys_registers ∙ s.sys_registers;
  tlb = t.tlb ∙ s.tlb;
  inter_dev = t.inter_dev ∙ s.inter_dev;
  file_system = t.file_system ∙ s.file_system;
  host = t.host ∙ s.host;
  trap_entry = t.trap_entry ∙ s.trap_entry;
  killed = t.killed ∙ s.killed;
}

continue-SameSystem :
    {A B : Type 0} (m m' : Machine) (r : Result A) (f : A → Action B)
    → SameSystem m m'
    → ((a : A) → SameSystem m' (f a m').1)
    → SameSystem m (continue r m' f).1
continue-SameSystem m m' (ok a) f s h = SameSystem-trans s (h a)
continue-SameSystem m m' (throw t) f s h = s
continue-SameSystem m m' crash f s h = s

-- A step and its continuation, which may use that the step left the system state alone.
pub bind-SameSystem :
    {A B : Type 0} (m : Machine) (a : Action A) (f : A → Action B)
    → SameSystem m (a m).1
    → ((v : A) → SameSystem (a m).1 (f v (a m).1).1)
    → SameSystem m ((a >>= f) m).1
bind-SameSystem m a f s h = continue-SameSystem m (a m).1 (a m).0 f s h
