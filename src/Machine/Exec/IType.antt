-- ===== src/Machine/Exec/IType.antt =====
-- `run` of the classes of machine/instructions/IInstruction.cpp.
pub mod System
pub mod Overflow
use cs16mem_model_vm.Base.{
  ℕ, ◌+◌, ◌*◌, ◌%◌, ◌^◌, Bool, true, false, not, ◌||◌, bit_and, bit_or, bit_xor, bit_of, ltb, leb,
  ◌==◌, if◌then◌else◌,
}
use cs16mem_model_vm.Base.Int.{◌+ℤ◌, ltb_ℤ}
use cs16mem_model_vm.Base.Words.{
  shl, add32, extend8, extend16, signed, unsigned, is_negative, fits_int,
}
use cs16mem_model_vm.Machine.Trap.{ExceptionCode, Result}
use cs16mem_model_vm.Machine.Memory.{
  get_byte, get_half_word, get_word, set_byte, set_half_word, set_word, Memory,
}
use cs16mem_model_vm.Machine.Isa.Instr.{
  IInstruction, generic, memory, branch, branch_zero, load_upper_immediate, GenericOp, MemoryOp,
  BranchOp, BranchZeroOp,
}
use cs16mem_model_vm.Machine.State.{
  Machine, asid, Action, pure, ◌>>=◌, ◌>>◌, lift, gets, raise, register_of, set_register, set_pc,
  set_memory,
}

-- `__builtin_add_overflow` stores the wrapped sum, whether or not it fits.
pub run_generic : GenericOp → (rt rs imm : ℕ) → Action (Unit {0})
run_generic GenericOp.add_immediate rt rs imm = do
  a ← register_of rs
  set_register rt (unsigned (signed a +ℤ signed (extend16 imm)))
  if fits_int (signed a +ℤ signed (extend16 imm)) then pure tt else raise ExceptionCode.overflow
run_generic GenericOp.add_immediate_unsigned rt rs imm = do
  a ← register_of rs
  set_register rt (add32 a (extend16 imm))
run_generic GenericOp.and_immediate rt rs imm = do
  a ← register_of rs
  set_register rt (bit_and a imm)
run_generic GenericOp.or_immediate rt rs imm = do a ← register_of rs; set_register rt (bit_or a imm)
run_generic GenericOp.xor_immediate rt rs imm = do
  a ← register_of rs
  set_register rt (bit_xor a imm)
run_generic GenericOp.set_less_than_immediate rt rs imm = do
  a ← register_of rs
  set_register rt (bit_of (ltb_ℤ (signed a) (signed (extend16 imm))))
run_generic GenericOp.set_less_than_immediate_unsigned rt rs imm = do
  a ← register_of rs
  set_register rt (bit_of (ltb a imm))

-- A load: what memory holds at the address, made a word by `extend`.
abbrev pub load_with :
    (Memory → Machine → ℕ → Result ℕ) → (ℕ → ℕ) → (rt addr : ℕ) → Action (Unit {0})
load_with get extend rt addr m = (do v ← lift (get m.memory m addr); set_register rt (extend v)) m

abbrev pub store_with :
    (Memory → Machine → ℕ → ℕ → Result Memory) → (value addr : ℕ) → Action (Unit {0})
store_with put value addr m = (do mem ← lift (put m.memory m addr value); set_memory mem) m

-- The access of each class, at its address: `value` is what rt holds.
pub access : MemoryOp → (rt value addr : ℕ) → Action (Unit {0})
access MemoryOp.load_byte rt v addr =
    load_with (λ mem m a. get_byte mem m.tlb (asid m) a) extend8 rt addr
access MemoryOp.load_byte_unsigned rt v addr =
    load_with (λ mem m a. get_byte mem m.tlb (asid m) a) (λ b. b) rt addr
access MemoryOp.load_halfword rt v addr =
    load_with (λ mem m a. get_half_word mem m.tlb (asid m) a) extend16 rt addr
access MemoryOp.load_halfword_unsigned rt v addr =
    load_with (λ mem m a. get_half_word mem m.tlb (asid m) a) (λ h. h) rt addr
access MemoryOp.load_word rt v addr =
    load_with (λ mem m a. get_word mem m.tlb (asid m) a) (λ w. w) rt addr
access MemoryOp.store_byte rt v addr =
    store_with (λ mem m a b. set_byte mem m.tlb (asid m) a b) (v % 2 ^ 8) addr
access MemoryOp.store_halfword rt v addr =
    store_with (λ mem m a h. set_half_word mem m.tlb (asid m) a h) (v % 2 ^ 16) addr
access MemoryOp.store_word rt v addr =
    store_with (λ mem m a w. set_word mem m.tlb (asid m) a w) v addr

-- The address is `Word(rs) + int(imm)`.
pub run_memory : MemoryOp → (rt rs imm : ℕ) → Action (Unit {0})
run_memory op rt rs imm = do
  base ← register_of rs
  v ← register_of rt
  access op rt v (add32 base (extend16 imm))

-- `pc += int(imm) << 2`
abbrev pub take_branch : (imm : ℕ) → Action (Unit {0})
take_branch imm m = set_pc (add32 m.program_counter (shl (extend16 imm) 2)) m

pub branches : BranchOp → (rt rs : ℕ) → Bool
branches BranchOp.branch_on_equal a b = a == b
branches BranchOp.branch_on_not_equal a b = not (a == b)

pub branches_zero : BranchZeroOp → (rs : ℕ) → Bool
branches_zero BranchZeroOp.branch_on_greater_than_or_equal_zero a = not (is_negative a)
branches_zero BranchZeroOp.branch_on_greater_than_zero a = not (is_negative a || a == 0)
branches_zero BranchZeroOp.branch_on_less_than_or_equal_zero a = is_negative a || a == 0
branches_zero BranchZeroOp.branch_on_less_than_zero a = is_negative a

pub run_i : IInstruction → Action (Unit {0})
run_i (generic op rt rs imm) = run_generic op rt rs imm
run_i (memory op rt rs imm) = run_memory op rt rs imm
run_i (branch op rt rs imm) = do
  a ← register_of rt
  b ← register_of rs
  if branches op a b then take_branch imm else pure tt
run_i (branch_zero op imm rs) = do
  a ← register_of rs
  if branches_zero op a then take_branch imm else pure tt
run_i (load_upper_immediate rt imm) = set_register rt (shl imm 16)
