-- ===== src/Machine/Exec/Special/System.antt =====
-- Jumps, moves and operations on hi and lo, and the trapping instructions leave the system state alone.
use cs16mem_model_vm.Base.{ℕ, arith}
use cs16mem_model_vm.Machine.Isa.Instr.{SpecialInstruction, hl_move, hl_op, HlMoveOp, HlOp}
use cs16mem_model_vm.Machine.State.{Machine}
use cs16mem_model_vm.Machine.State.System.{SameSystem}
use cs16mem_model_vm.Machine.Exec.Special.{run_hl_move, operate, run_hl_op, run_special}

run_hl_move-SameSystem : (op : HlMoveOp) (r : ℕ) (m : Machine) → SameSystem m (run_hl_move op r m).1
unfolding run_hl_move
run_hl_move-SameSystem HlMoveOp.move_from_hi r m = ground arith
run_hl_move-SameSystem op r m = ground arith

operate-SameSystem : (op : HlOp) (a b : ℕ) (m : Machine) → SameSystem m (operate op a b m).1
unfolding operate
operate-SameSystem HlOp.multiply a b m = ground arith
operate-SameSystem op a b m = ground arith

pub run_special-SameSystem :
    (s : SpecialInstruction) (m : Machine) → SameSystem m (run_special s m).1
unfolding run_special run_hl_op
run_special-SameSystem (hl_move op r) m = run_hl_move-SameSystem op r m
run_special-SameSystem (hl_op op rs rt) m = operate-SameSystem op _ _ m
run_special-SameSystem s m = ground arith
