-- ===== src/Machine/Isa/Decode.antt =====
-- `IntegerUnit::decode`, `FloatingPointUnit::decode` and `SystemControlUnit::decode` of
-- machine/Processors.cpp. A `switch` is a list of its cases.
pub mod Encode
pub mod Jump
use cs16mem_model_vm.Base.{
  ℕ, ◌+◌, ◌*◌, ◌/◌, ◌%◌, ◌^◌, Bool, true, false, ◌&&◌, ◌||◌, Option, none, some, List, [], ◌∷◌,
  bit_or, ◌==◌, if◌then◌else◌,
}
use cs16mem_model_vm.Base.Words.{shl, shr, add32, sub32}
use cs16mem_model_vm.Machine.Trap.{
  ExceptionCode, Result, ok, throw, crash, plain, ◌>>=◌, ◌>>◌, require,
}
use cs16mem_model_vm.Machine.Isa.Codes.{
  Opcode, opcode, Cp0Funct, cp0_funct, Funct, funct, Fmt, fmt, FpFunct, fp_funct, Register,
  register,
}
use cs16mem_model_vm.Machine.Isa.Instr
use cs16mem_model_vm.Machine.Isa.Instr.{
  Instruction, IInstruction, generic, memory, branch, branch_zero, GenericOp, MemoryOp, BranchOp,
  BranchZeroOp, variable, shift, VariableOp, ShiftOp, SpecialInstruction, hl_move, hl_op, HlMoveOp,
  HlOp, fr, FrOp, single, double, KInstruction,
}

abbrev pub switch {ℓ} : {A : Type ℓ} → ℕ → List (ℕ × A) → Option A
switch n [] = none
switch n ((c, a) ∷ cases) = if n == c then some a else switch n cases

-- `default: throw Trap(Trap::RI)`
abbrev pub or_reserved {ℓ} : {A : Type ℓ} → Option A → Result A
or_reserved none = throw (plain ExceptionCode.ri)
or_reserved (some a) = ok a

-- The fields of an instruction word.
abbrev pub op_field : ℕ → ℕ
op_field w = shr w 26 % 2 ^ 6

abbrev pub rs_field : ℕ → ℕ
rs_field w = shr w 21 % 2 ^ 5

abbrev pub rt_field : ℕ → ℕ
rt_field w = shr w 16 % 2 ^ 5

abbrev pub rd_field : ℕ → ℕ
rd_field w = shr w 11 % 2 ^ 5

abbrev pub shamt_field : ℕ → ℕ
shamt_field w = shr w 6 % 2 ^ 5

abbrev pub funct_field : ℕ → ℕ
funct_field w = w % 2 ^ 6

abbrev pub imm_field : ℕ → ℕ
imm_field w = w % 2 ^ 16

-- `binary_instruction & 0x1FFFFFF`: 25 bits.
abbrev pub address_field : ℕ → ℕ
address_field w = w % 2 ^ 25

-- The target that the constructors of `Jump` and `JumpAndLink` compute.
pub jump_target : (pc address : ℕ) → ℕ
jump_target pc address = sub32 (bit_or (add32 pc 4 / 2 ^ 28 * 2 ^ 28) (shl address 2)) 4

-- `SPECIAL2`
pub decode_special2 : (fn rd rt rs : ℕ) → Result Instruction
decode_special2 fn rd rt rs = or_reserved (
    switch fn
      ((funct Funct.mul, Instruction.r_type (variable VariableOp.multiply_to_gpr rd rt rs)) ∷ []))

-- `REGIMM`, on the rt field.
pub decode_regimm : (rt rs imm : ℕ) → Result Instruction
decode_regimm rt rs imm = or_reserved (
    switch rt (
      (1, zero_branch BranchZeroOp.branch_on_greater_than_or_equal_zero)
      ∷ (0, zero_branch BranchZeroOp.branch_on_less_than_zero)
      ∷ []))
  where
    zero_branch : BranchZeroOp → Instruction
    zero_branch op = Instruction.i_type (branch_zero op imm rs)

-- The R-type instructions: opcode 0.
unfoldable pub decode_r_type : (fn rd rt rs shamt : ℕ) → Result Instruction
decode_r_type fn rd rt rs shamt = or_reserved (
    switch fn (
      (funct Funct.addu, var VariableOp.add_unsigned)
      ∷ (funct Funct.and, var VariableOp.and)
      ∷ (funct Funct.nor, var VariableOp.nor)
      ∷ (funct Funct.or, var VariableOp.or)
      ∷ (funct Funct.slt, var VariableOp.set_less_than)
      ∷ (funct Funct.sltu, var VariableOp.set_less_than_unsigned)
      ∷ (funct Funct.movn, var VariableOp.move_on_not_zero)
      ∷ (funct Funct.sll, shft ShiftOp.shift_left_logical)
      ∷ (funct Funct.srl, shft ShiftOp.shift_right_logical)
      ∷ (funct Funct.sra, shft ShiftOp.shift_right_arithmetic)
      ∷ (funct Funct.sllv, var VariableOp.shift_left_logical_variable)
      ∷ (funct Funct.srlv, var VariableOp.shift_right_logical_variable)
      ∷ (funct Funct.srav, var VariableOp.shift_right_arithmetic_variable)
      ∷ (funct Funct.subu, var VariableOp.subtract_unsigned)
      ∷ (funct Funct.xor, var VariableOp.xor)
      ∷ (funct Funct.mult, hl HlOp.multiply)
      ∷ (funct Funct.div, hl HlOp.divide)
      ∷ (funct Funct.multu, hl HlOp.multiply_unsigned)
      ∷ (funct Funct.divu, hl HlOp.divide_unsigned)
      ∷ (funct Funct.mfhi, Instruction.special (hl_move HlMoveOp.move_from_hi rd))
      ∷ (funct Funct.mflo, Instruction.special (hl_move HlMoveOp.move_from_lo rd))
      ∷ (funct Funct.mthi, Instruction.special (hl_move HlMoveOp.move_to_hi rs))
      ∷ (funct Funct.mtlo, Instruction.special (hl_move HlMoveOp.move_to_lo rs))
      ∷ (funct Funct.add, var VariableOp.add)
      ∷ (funct Funct.sub, var VariableOp.subtract)
      ∷ (funct Funct.syscall, Instruction.special SpecialInstruction.syscall)
      ∷ (funct Funct.sync, Instruction.special SpecialInstruction.sync)
      ∷ (funct Funct.teq, Instruction.special (SpecialInstruction.trap_if_equal rs rt))
      ∷ (funct Funct.vmtunnel, Instruction.kernel KInstruction.vm_tunnel)
      ∷ (funct Funct.jr, Instruction.special (SpecialInstruction.jump_register rs))
      ∷ (funct Funct.jalr, Instruction.special (SpecialInstruction.jump_and_link_register rd rs))
      ∷ []))
  where
    var : VariableOp → Instruction
    var op = Instruction.r_type (variable op rd rt rs)

    shft : ShiftOp → Instruction
    shft op = Instruction.r_type (shift op rd rt shamt)

    hl : HlOp → Instruction
    hl op = Instruction.special (hl_op op rs rt)

-- The I- and J-type instructions: the last switch of the decoder.
pub decode_i_type : (op pc rt rs imm address : ℕ) → Result Instruction
decode_i_type op pc rt rs imm address = or_reserved (
    switch op (
      (opcode Opcode.addiu, gen GenericOp.add_immediate_unsigned)
      ∷ (opcode Opcode.andi, gen GenericOp.and_immediate)
      ∷ (opcode Opcode.slti, gen GenericOp.set_less_than_immediate)
      ∷ (opcode Opcode.xori, gen GenericOp.xor_immediate)
      ∷ (opcode Opcode.sltiu, gen GenericOp.set_less_than_immediate_unsigned)
      ∷ (opcode Opcode.ori, gen GenericOp.or_immediate)
      ∷ (opcode Opcode.lw, mem MemoryOp.load_word)
      ∷ (opcode Opcode.sw, mem MemoryOp.store_word)
      ∷ (opcode Opcode.sb, mem MemoryOp.store_byte)
      ∷ (opcode Opcode.lbu, mem MemoryOp.load_byte_unsigned)
      ∷ (opcode Opcode.lb, mem MemoryOp.load_byte)
      ∷ (opcode Opcode.lhu, mem MemoryOp.load_halfword_unsigned)
      ∷ (opcode Opcode.lh, mem MemoryOp.load_halfword)
      ∷ (opcode Opcode.sh, mem MemoryOp.store_halfword)
      ∷ (opcode Opcode.beq, Instruction.i_type (branch BranchOp.branch_on_equal rt rs imm))
      ∷ (opcode Opcode.bne, Instruction.i_type (branch BranchOp.branch_on_not_equal rt rs imm))
      ∷ (opcode Opcode.lwc1, Instruction.floating_point (Instr.load_fp_single rt rs imm))
      ∷ (opcode Opcode.swc1, Instruction.floating_point (Instr.store_fp_single rt rs imm))
      ∷ (opcode Opcode.bgtz, zero_branch BranchZeroOp.branch_on_greater_than_zero)
      ∷ (opcode Opcode.blez, zero_branch BranchZeroOp.branch_on_less_than_or_equal_zero)
      ∷ (opcode Opcode.addi, gen GenericOp.add_immediate)
      ∷ (opcode Opcode.j, Instruction.special (SpecialInstruction.jump target))
      ∷ (
        opcode Opcode.jal,
        Instruction.special (SpecialInstruction.jump_and_link target (register Register.ra)),
      )
      ∷ (opcode Opcode.lui, Instruction.i_type (IInstruction.load_upper_immediate rt imm))
      ∷ (opcode Opcode.cache, Instruction.kernel KInstruction.perform_cache_op)
      ∷ []))
  where
    gen : GenericOp → Instruction
    gen op = Instruction.i_type (generic op rt rs imm)

    mem : MemoryOp → Instruction
    mem op = Instruction.i_type (memory op rt rs imm)

    zero_branch : BranchZeroOp → Instruction
    zero_branch op = Instruction.i_type (branch_zero op imm rs)

    target : ℕ
    target = jump_target pc address

-- `FR_INIT`: the format is asserted, and a double must start at an even register.
pub decode_fr : FrOp → (format ft fs fd : ℕ) → Result Instruction
decode_fr op format ft fs fd = do
  require (format == fmt Fmt.d || format == fmt Fmt.s)
  if format == fmt Fmt.s then ok (Instruction.floating_point (fr op single ft fs fd)) else (do
    require (ft % 2 == 0 && fs % 2 == 0 && fd % 2 == 0)
    ok (Instruction.floating_point (fr op double ft fs fd)))

-- `FloatingPointUnit::decode`
pub decode_floating_point : ℕ → Result Instruction
decode_floating_point w = do
  op ← or_reserved (
      switch (funct_field w) (
        (fp_funct FpFunct.fpadd, FrOp.fp_add)
        ∷ (fp_funct FpFunct.fpdiv, FrOp.fp_divide)
        ∷ (fp_funct FpFunct.fpmul, FrOp.fp_multiply)
        ∷ (fp_funct FpFunct.fpsub, FrOp.fp_subtract)
        ∷ []))
  decode_fr op (rs_field w) (rt_field w) (rd_field w) (shamt_field w)

-- The switch of `SystemControlUnit::decode`, which falls through to the moves.
pub decode_coprocessor0 : (fn rs : ℕ) → Option KInstruction
decode_coprocessor0 fn rs =
    if rs == 0x10
    then switch fn (
        (cp0_funct Cp0Funct.eret, KInstruction.exception_return)
        ∷ (cp0_funct Cp0Funct.tlbr, KInstruction.tlb_read_indexed)
        ∷ (cp0_funct Cp0Funct.tlbwi, KInstruction.tlb_write_indexed)
        ∷ (cp0_funct Cp0Funct.tlbwr, KInstruction.tlb_write_random)
        ∷ (cp0_funct Cp0Funct.tlbp, KInstruction.tlb_probe)
        ∷ [])
    else none

-- `SystemControlUnit::decode`
pub decode_system_control : ℕ → Result Instruction
decode_system_control w = elim (decode_coprocessor0 (funct_field w) (rs_field w)) [
  | some k ↦ ok (Instruction.kernel k)
  | none ↦
      if rs_field w == 0
      then ok (Instruction.kernel (KInstruction.move_from_coprocessor0 (rt_field w) (rd_field w)))
      else if rs_field w == 4
      then ok (Instruction.kernel (KInstruction.move_to_coprocessor0 (rt_field w) (rd_field w)))
      else throw (plain ExceptionCode.ri)
]

-- `IntegerUnit::decode`, at the program counter `pc`.
unfoldable pub decode : (pc w : ℕ) → Result Instruction
decode pc w =
    if op_field w == opcode Opcode.fp_type
    then decode_floating_point w
    else if op_field w == opcode Opcode.k_type
    then decode_system_control w
    else if op_field w == opcode Opcode.regimm
    then decode_regimm (rt_field w) (rs_field w) (imm_field w)
    else if op_field w == opcode Opcode.special2
    then decode_special2 (funct_field w) (rd_field w) (rt_field w) (rs_field w)
    else if op_field w == opcode Opcode.r_type
    then decode_r_type (funct_field w) (rd_field w) (rt_field w) (rs_field w) (shamt_field w)
    else decode_i_type (op_field w) pc (rt_field w) (rs_field w) (imm_field w) (address_field w)
