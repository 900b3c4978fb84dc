-- ===== src/Machine/Exec/RType/System.antt =====
-- The R-type instructions leave the system state alone, whether or not they throw.
use cs16mem_model_vm.Base.{ℕ, arith}
use cs16mem_model_vm.Machine.Isa.Instr.{RInstruction, variable, shift, VariableOp}
use cs16mem_model_vm.Machine.State.{Machine}
use cs16mem_model_vm.Machine.State.System.{SameSystem}
use cs16mem_model_vm.Machine.Exec.RType.{operate, run_variable, run_r}

operate-SameSystem :
    (op : VariableOp) (rd rt a b : ℕ) (m : Machine) → SameSystem m (operate op rd rt a b m).1
unfolding operate
operate-SameSystem VariableOp.add rd rt a b m = ground arith
operate-SameSystem op rd rt a b m = ground arith

pub run_r-SameSystem : (r : RInstruction) (m : Machine) → SameSystem m (run_r r m).1
unfolding run_r run_variable
run_r-SameSystem (variable op rd rt rs) m = operate-SameSystem op rd rt _ _ m
run_r-SameSystem (shift op rd rt shamt) m = ground arith
