-- ===== src/Machine/Exec/RType.antt =====
-- `run` of the classes of machine/instructions/RInstruction.cpp.
pub mod System
pub mod Sum
use cs16mem_model_vm.Base.{
  ℕ, ◌-◌, ◌*◌, ◌%◌, ◌^◌, Bool, bit_and, bit_or, bit_xor, bit_of, ltb, ◌==◌, if◌then◌else◌,
}
use cs16mem_model_vm.Base.Int.{◌+ℤ◌, ◌-ℤ◌, ◌*ℤ◌, ltb_ℤ, of_signed}
use cs16mem_model_vm.Base.Words.{
  shl, shr, add32, sub32, signed, unsigned, fits_int, shift_right_arithmetic,
}
use cs16mem_model_vm.Machine.Trap.{ExceptionCode, Result, ok, crash, require}
use cs16mem_model_vm.Machine.Isa.Instr.{RInstruction, variable, shift, VariableOp, ShiftOp}
use cs16mem_model_vm.Machine.State.{
  Machine, Action, pure, ◌>>=◌, ◌>>◌, lift, raise, register_of, set_register,
}

-- `~(rs | rt)`
abbrev pub nor32 : ℕ → ℕ → ℕ
nor32 a b = 2 ^ 32 - 1 - bit_or a b

-- A shift by 32 or more has no meaning in C++.
abbrev pub shift_amount : ℕ → Action (Unit {0})
shift_amount k = lift (require (ltb k 32))

-- `Add` and `Subtract` hand `&rt` to the builtin: the result goes to rt. The operands are
-- `a` of rs and `b` of rt.
pub operate : VariableOp → (rd rt a b : ℕ) → Action (Unit {0})
operate VariableOp.add rd rt a b = do
  set_register rt (unsigned (signed a +ℤ signed b))
  if fits_int (signed a +ℤ signed b) then pure tt else raise ExceptionCode.overflow
operate VariableOp.add_unsigned rd rt a b = set_register rd (add32 a b)
operate VariableOp.and rd rt a b = set_register rd (bit_and a b)
operate VariableOp.nor rd rt a b = set_register rd (nor32 a b)
operate VariableOp.or rd rt a b = set_register rd (bit_or a b)
operate VariableOp.xor rd rt a b = set_register rd (bit_xor a b)
operate VariableOp.set_less_than rd rt a b = set_register rd (bit_of (ltb_ℤ (signed a) (signed b)))
operate VariableOp.set_less_than_unsigned rd rt a b = set_register rd (bit_of (ltb a b))
operate VariableOp.subtract rd rt a b = do
  set_register rt (unsigned (signed a -ℤ signed b))
  if fits_int (signed a -ℤ signed b) then pure tt else raise ExceptionCode.overflow
operate VariableOp.subtract_unsigned rd rt a b = set_register rd (sub32 a b)
operate VariableOp.shift_left_logical_variable rd rt a b = do
  shift_amount a
  set_register rd (shl b a)
operate VariableOp.shift_right_logical_variable rd rt a b = do
  shift_amount a
  set_register rd (shr b a)
operate VariableOp.shift_right_arithmetic_variable rd rt a b = do
  shift_amount a
  set_register rd (shift_right_arithmetic b a)
operate VariableOp.move_on_not_zero rd rt a b = if b == 0 then pure tt else set_register rd a
operate VariableOp.multiply_to_gpr rd rt a b =
    set_register rd (of_signed (2 ^ 64) (signed a *ℤ signed b) % 2 ^ 32)

pub run_variable : VariableOp → (rd rt rs : ℕ) → Action (Unit {0})
run_variable op rd rt rs = do a ← register_of rs; b ← register_of rt; operate op rd rt a b

pub shifted : ShiftOp → (rt shamt : ℕ) → ℕ
shifted ShiftOp.shift_left_logical b k = shl b k
shifted ShiftOp.shift_right_logical b k = shr b k
shifted ShiftOp.shift_right_arithmetic b k = shift_right_arithmetic b k

pub run_r : RInstruction → Action (Unit {0})
run_r (variable op rd rt rs) = run_variable op rd rt rs
run_r (shift op rd rt shamt) = do b ← register_of rt; set_register rd (shifted op b shamt)
