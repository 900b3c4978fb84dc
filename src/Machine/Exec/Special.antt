-- ===== src/Machine/Exec/Special.antt =====
-- `run` of the classes of machine/instructions/SpecialInstruction.cpp.
pub mod System
pub mod HiLo
use cs16mem_model_vm.Base.{ℕ, ◌-◌, ◌*◌, ◌/◌, ◌%◌, ◌^◌, Bool, not, ◌&&◌, ◌==◌, if◌then◌else◌}
use cs16mem_model_vm.Base.Int.{◌*ℤ◌, of_signed}
use cs16mem_model_vm.Base.Words.{add32, sub32, signed, shr, quotient, remainder}
use cs16mem_model_vm.Machine.Trap.{ExceptionCode, Result, ok, require}
use cs16mem_model_vm.Machine.Isa.Instr.{
  SpecialInstruction, jump, jump_and_link, jump_register, jump_and_link_register, hl_move, hl_op,
  syscall, trap_if_equal, no_op, sync, HlMoveOp, HlOp,
}
use cs16mem_model_vm.Machine.State.{
  Machine, Action, pure, ◌>>=◌, ◌>>◌, lift, gets, modify, raise, register_of, set_register, set_pc,
}

pub run_hl_move : HlMoveOp → (storage_register : ℕ) → Action (Unit {0})
run_hl_move HlMoveOp.move_from_hi r = do v ← gets (λ m. m.hi); set_register r v
run_hl_move HlMoveOp.move_from_lo r = do v ← gets (λ m. m.lo); set_register r v
run_hl_move HlMoveOp.move_to_hi r = do v ← register_of r; modify (λ m. record m { hi = v })
run_hl_move HlMoveOp.move_to_lo r = do v ← register_of r; modify (λ m. record m { lo = v })

abbrev pub set_hi_lo : (hi lo : ℕ) → Action (Unit {0})
set_hi_lo h l = modify (λ m. record m { hi = h; lo = l })

-- Division by zero, and of the least `int` by -1, have no meaning in C++.
pub operate : HlOp → (a b : ℕ) → Action (Unit {0})
operate HlOp.multiply a b =
    let res = of_signed (2 ^ 64) (signed a *ℤ signed b) in set_hi_lo (shr res 32) (res % 2 ^ 32)
operate HlOp.multiply_unsigned a b =
    let res = a * b % 2 ^ 64 in set_hi_lo (shr res 32) (res % 2 ^ 32)
operate HlOp.divide a b = do
  lift (require (not (b == 0) && not (a == 2 ^ 31 && b == 2 ^ 32 - 1)))
  set_hi_lo (remainder a b) (quotient a b)
operate HlOp.divide_unsigned a b = do lift (require (not (b == 0))); set_hi_lo (a % b) (a / b)

pub run_hl_op : HlOp → (rs rt : ℕ) → Action (Unit {0})
run_hl_op op rs rt = do a ← register_of rs; b ← register_of rt; operate op a b

-- A jump leaves the program counter one instruction before its target. `rd` and `rs` of `jalr` may
-- be one register, which is then written before it is read.
unfoldable pub run_special : SpecialInstruction → Action (Unit {0})
run_special (jump target) = set_pc target
run_special (jump_and_link target ra) = do
  pc ← gets (λ m. m.program_counter)
  set_register ra (add32 pc 4)
  set_pc target
run_special (jump_register ra) = do a ← register_of ra; set_pc (sub32 a 4)
run_special (jump_and_link_register rd rs) = do
  pc ← gets (λ m. m.program_counter)
  set_register rd (add32 pc 4)
  a ← register_of rs
  set_pc (sub32 a 4)
run_special (hl_move op r) = run_hl_move op r
run_special (hl_op op rs rt) = run_hl_op op rs rt
run_special syscall = raise ExceptionCode.syscall
run_special (trap_if_equal rs rt) = do
  a ← register_of rs
  b ← register_of rt
  if a == b then raise ExceptionCode.trap else pure tt
run_special no_op = pure tt
run_special sync = pure tt
