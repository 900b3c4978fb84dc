-- ===== src/Machine/Isa/Assembler.antt =====
-- The instruction formats of MIPS, from the architecture's manual, for the operations of
-- machine/BinaryUtils.h: an assembler for the I-type and R-type classes.
use cs16mem_model_vm.Base.{ℕ, ◌+◌, ◌*◌, ◌^◌, ◌<◌}
use cs16mem_model_vm.Machine.Isa.Instr
use cs16mem_model_vm.Machine.Isa.Instr.{
  IInstruction, generic, memory, branch, branch_zero, GenericOp, MemoryOp, BranchOp, BranchZeroOp,
  RInstruction, variable, shift, VariableOp, ShiftOp, HlMoveOp, HlOp,
}

-- The three formats: op/rs/rt/immediate, op/rs/rt/rd/shamt/funct and op/address.
abbrev pub word_i : (op rs rt imm : ℕ) → ℕ
word_i op rs rt imm = op * 2 ^ 26 + rs * 2 ^ 21 + rt * 2 ^ 16 + imm

abbrev pub word_r : (op rs rt rd shamt fn : ℕ) → ℕ
word_r op rs rt rd shamt fn =
    op * 2 ^ 26 + rs * 2 ^ 21 + rt * 2 ^ 16 + rd * 2 ^ 11 + shamt * 2 ^ 6 + fn

abbrev pub word_j : (op address : ℕ) → ℕ
word_j op address = op * 2 ^ 26 + address

-- The MIPS code numbers of the operations, from the architecture's tables.
abbrev pub generic_code : GenericOp → ℕ
generic_code GenericOp.add_immediate = 8
generic_code GenericOp.add_immediate_unsigned = 9
generic_code GenericOp.set_less_than_immediate = 10
generic_code GenericOp.set_less_than_immediate_unsigned = 11
generic_code GenericOp.and_immediate = 12
generic_code GenericOp.or_immediate = 13
generic_code GenericOp.xor_immediate = 14

abbrev pub memory_code : MemoryOp → ℕ
memory_code MemoryOp.load_byte = 32
memory_code MemoryOp.load_halfword = 33
memory_code MemoryOp.load_word = 35
memory_code MemoryOp.load_byte_unsigned = 36
memory_code MemoryOp.load_halfword_unsigned = 37
memory_code MemoryOp.store_byte = 40
memory_code MemoryOp.store_halfword = 41
memory_code MemoryOp.store_word = 43

abbrev pub branch_code : BranchOp → ℕ
branch_code BranchOp.branch_on_equal = 4
branch_code BranchOp.branch_on_not_equal = 5

abbrev pub variable_code : VariableOp → ℕ
variable_code VariableOp.shift_left_logical_variable = 4
variable_code VariableOp.shift_right_logical_variable = 6
variable_code VariableOp.shift_right_arithmetic_variable = 7
variable_code VariableOp.move_on_not_zero = 11
variable_code VariableOp.add = 32
variable_code VariableOp.add_unsigned = 33
variable_code VariableOp.subtract = 34
variable_code VariableOp.subtract_unsigned = 35
variable_code VariableOp.and = 36
variable_code VariableOp.or = 37
variable_code VariableOp.xor = 38
variable_code VariableOp.nor = 39
variable_code VariableOp.set_less_than = 42
variable_code VariableOp.set_less_than_unsigned = 43
variable_code VariableOp.multiply_to_gpr = 2

abbrev pub shift_code : ShiftOp → ℕ
shift_code ShiftOp.shift_left_logical = 0
shift_code ShiftOp.shift_right_logical = 2
shift_code ShiftOp.shift_right_arithmetic = 3

abbrev pub hl_code : HlOp → ℕ
hl_code HlOp.multiply = 24
hl_code HlOp.multiply_unsigned = 25
hl_code HlOp.divide = 26
hl_code HlOp.divide_unsigned = 27

-- The assembler.
abbrev pub encode_i : IInstruction → ℕ
encode_i (generic op rt rs imm) = word_i (generic_code op) rs rt imm
encode_i (memory op rt rs imm) = word_i (memory_code op) rs rt imm
encode_i (branch op rt rs imm) = word_i (branch_code op) rs rt imm
encode_i (branch_zero BranchZeroOp.branch_on_less_than_zero imm rs) = word_i 1 rs 0 imm
encode_i (branch_zero BranchZeroOp.branch_on_greater_than_or_equal_zero imm rs) = word_i 1 rs 1 imm
encode_i (branch_zero BranchZeroOp.branch_on_less_than_or_equal_zero imm rs) = word_i 6 rs 0 imm
encode_i (branch_zero BranchZeroOp.branch_on_greater_than_zero imm rs) = word_i 7 rs 0 imm
encode_i (Instr.load_upper_immediate rt imm) = word_i 15 0 rt imm

abbrev pub encode_r : RInstruction → ℕ
encode_r (variable VariableOp.multiply_to_gpr rd rt rs) = word_r 28 rs rt rd 0 2
encode_r (variable op rd rt rs) = word_r 0 rs rt rd 0 (variable_code op)
encode_r (shift op rd rt shamt) = word_r 0 0 rt rd shamt (shift_code op)

-- The operands fit their fields.
abbrev pub FitsI : IInstruction → Type 0
FitsI (generic op rt rs imm) = (rt < 2 ^ 5) × (rs < 2 ^ 5) × (imm < 2 ^ 16)
FitsI (memory op rt rs imm) = (rt < 2 ^ 5) × (rs < 2 ^ 5) × (imm < 2 ^ 16)
FitsI (branch op rt rs imm) = (rt < 2 ^ 5) × (rs < 2 ^ 5) × (imm < 2 ^ 16)
FitsI (branch_zero op imm rs) = (rs < 2 ^ 5) × (imm < 2 ^ 16)
FitsI (Instr.load_upper_immediate rt imm) = (rt < 2 ^ 5) × (imm < 2 ^ 16)

abbrev pub FitsR : RInstruction → Type 0
FitsR (variable op rd rt rs) = (rd < 2 ^ 5) × (rt < 2 ^ 5) × (rs < 2 ^ 5)
FitsR (shift op rd rt shamt) = (rd < 2 ^ 5) × (rt < 2 ^ 5) × (shamt < 2 ^ 5)
