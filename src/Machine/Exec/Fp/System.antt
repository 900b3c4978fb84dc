-- ===== src/Machine/Exec/Fp/System.antt =====
-- The floating-point instructions leave the system state alone.
use cs16mem_model_vm.Base.{arith}
use cs16mem_model_vm.Machine.Isa.Instr.{
  FpInstruction, fr, load_fp_single, store_fp_single, single, double,
}
use cs16mem_model_vm.Machine.State.{Machine}
use cs16mem_model_vm.Machine.State.System.{SameSystem}
use cs16mem_model_vm.Machine.Exec.Fp.{FloatOps, run_fr, run_fp}

pub run_fp-SameSystem :
    (ops : FloatOps) (f : FpInstruction) (m : Machine) → SameSystem m (run_fp ops f m).1
unfolding run_fp run_fr
run_fp-SameSystem ops (fr op single ft fs fd) m = ground arith
run_fp-SameSystem ops (fr op double ft fs fd) m = ground arith
run_fp-SameSystem ops (load_fp_single rt rs imm) m = ground arith
run_fp-SameSystem ops (store_fp_single rt rs imm) m = ground arith
