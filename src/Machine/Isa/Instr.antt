-- ===== src/Machine/Isa/Instr.antt =====
-- The instruction classes of machine/instructions/. An object of the C++ holds references to the
-- registers that it works on; a value here holds the registers' numbers.
use cs16mem_model_vm.Base.{ℕ}

-- `IGenericInstruction` and its classes.
pub data GenericOp : Type 0 where
  add_immediate add_immediate_unsigned and_immediate or_immediate xor_immediate : GenericOp
  set_less_than_immediate set_less_than_immediate_unsigned : GenericOp

-- `IMemoryInstruction`
pub data MemoryOp : Type 0 where
  load_byte load_byte_unsigned load_halfword load_halfword_unsigned load_word : MemoryOp
  store_byte store_halfword store_word : MemoryOp

-- `IBranchInstruction` and `IBranchZeroInstruction`
pub data BranchOp : Type 0 where
  branch_on_equal branch_on_not_equal : BranchOp

pub data BranchZeroOp : Type 0 where
  branch_on_greater_than_or_equal_zero branch_on_greater_than_zero : BranchZeroOp
  branch_on_less_than_or_equal_zero branch_on_less_than_zero : BranchZeroOp

-- `IInstruction`: the immediate is the pattern of the `short`.
pub data IInstruction : Type 0 where
  generic : GenericOp → (rt rs imm : ℕ) → IInstruction
  memory : MemoryOp → (rt rs imm : ℕ) → IInstruction
  branch : BranchOp → (rt rs imm : ℕ) → IInstruction
  branch_zero : BranchZeroOp → (imm rs : ℕ) → IInstruction
  load_upper_immediate : (rt imm : ℕ) → IInstruction

-- `RVariableInstruction` and `RShiftInstruction`
pub data VariableOp : Type 0 where
  add add_unsigned and nor or xor set_less_than set_less_than_unsigned subtract : VariableOp
  subtract_unsigned shift_left_logical_variable shift_right_logical_variable : VariableOp
  shift_right_arithmetic_variable move_on_not_zero multiply_to_gpr : VariableOp

pub data ShiftOp : Type 0 where
  shift_left_logical shift_right_logical shift_right_arithmetic : ShiftOp

pub data RInstruction : Type 0 where
  variable : VariableOp → (rd rt rs : ℕ) → RInstruction
  shift : ShiftOp → (rd rt shamt : ℕ) → RInstruction

-- The classes of SpecialInstruction.h. A jump's target is computed when it is decoded.
pub data HlMoveOp : Type 0 where
  move_from_hi move_from_lo move_to_hi move_to_lo : HlMoveOp

pub data HlOp : Type 0 where
  multiply multiply_unsigned divide divide_unsigned : HlOp

pub data SpecialInstruction : Type 0 where
  jump : (target : ℕ) → SpecialInstruction
  jump_and_link : (target ra : ℕ) → SpecialInstruction
  jump_register : (ra : ℕ) → SpecialInstruction
  jump_and_link_register : (rd rs : ℕ) → SpecialInstruction
  hl_move : HlMoveOp → (storage_register : ℕ) → SpecialInstruction
  hl_op : HlOp → (rs rt : ℕ) → SpecialInstruction
  syscall : SpecialInstruction
  trap_if_equal : (rs rt : ℕ) → SpecialInstruction
  no_op sync : SpecialInstruction

-- `FRInstruction`, over one or two words, and `FPSingleMemoryInstruction`.
pub data FrOp : Type 0 where
  fp_add fp_divide fp_multiply fp_subtract : FrOp

pub data Precision : Type 0 where
  single double : Precision

pub data FpInstruction : Type 0 where
  fr : FrOp → Precision → (ft fs fd : ℕ) → FpInstruction
  load_fp_single : (rt rs imm : ℕ) → FpInstruction
  store_fp_single : (rt rs imm : ℕ) → FpInstruction

-- `KInstruction`: the privileged classes.
pub data KInstruction : Type 0 where
  move_to_coprocessor0 : (rt rd : ℕ) → KInstruction
  move_from_coprocessor0 : (rt rd : ℕ) → KInstruction
  exception_return : KInstruction
  tlb_probe tlb_read_indexed tlb_write_indexed tlb_write_random : KInstruction
  perform_cache_op : KInstruction
  vm_tunnel : KInstruction

-- `Hardware::Instruction`
pub data Instruction : Type 0 where
  i_type : IInstruction → Instruction
  r_type : RInstruction → Instruction
  special : SpecialInstruction → Instruction
  floating_point : FpInstruction → Instruction
  kernel : KInstruction → Instruction
