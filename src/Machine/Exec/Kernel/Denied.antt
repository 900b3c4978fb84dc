-- ===== src/Machine/Exec/Kernel/Denied.antt =====
-- The privileged instructions outside privileged mode.
use cs16mem_model_vm.Base.{◌≡◌, false}
use cs16mem_model_vm.Base.Words.{test_bit}
use cs16mem_model_vm.Machine.Trap.{ExceptionCode, throw, plain}
use cs16mem_model_vm.Machine.Isa.Instr.{KInstruction}
use cs16mem_model_vm.Machine.State.{Machine, status}
use cs16mem_model_vm.Machine.Exec.Kernel.{run_k}

-- With EXL clear every privileged instruction throws the reserved-instruction trap and changes
-- nothing.
pub run_k_denied :
    (k : KInstruction) (m : Machine)
    → test_bit (status m) 1 ≡ false
    → run_k k m ≡ (throw (plain ExceptionCode.ri), m)
unfolding run_k
run_k_denied k m h = rw h
