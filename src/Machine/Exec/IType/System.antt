-- ===== src/Machine/Exec/IType/System.antt =====
-- The I-type instructions leave the system state alone, whether or not they throw.
use cs16mem_model_vm.Base.{ℕ, arith}
use cs16mem_model_vm.Machine.Isa.Instr.{
  IInstruction, generic, memory, branch, branch_zero, load_upper_immediate, GenericOp, MemoryOp,
}
use cs16mem_model_vm.Machine.State.{Machine}
use cs16mem_model_vm.Machine.State.System.{SameSystem}
use cs16mem_model_vm.Machine.Exec.IType.{run_generic, access, run_memory, run_i}

run_generic-SameSystem :
    (op : GenericOp) (rt rs imm : ℕ) (m : Machine) → SameSystem m (run_generic op rt rs imm m).1
unfolding run_generic
run_generic-SameSystem GenericOp.add_immediate rt rs imm m = ground arith
run_generic-SameSystem op rt rs imm m = ground arith

access-SameSystem : (op : MemoryOp) (rt v a : ℕ) (m : Machine) → SameSystem m (access op rt v a m).1
unfolding access
access-SameSystem MemoryOp.load_byte rt v a m = ground arith
access-SameSystem op rt v a m = ground arith

pub run_i-SameSystem : (i : IInstruction) (m : Machine) → SameSystem m (run_i i m).1
unfolding run_i run_memory
run_i-SameSystem (generic op rt rs imm) m = run_generic-SameSystem op rt rs imm m
run_i-SameSystem (memory op rt rs imm) m = access-SameSystem op rt _ _ m
run_i-SameSystem (branch op rt rs imm) m = ground arith
run_i-SameSystem (branch_zero op imm rs) m = ground arith
run_i-SameSystem (load_upper_immediate rt imm) m = ground arith
