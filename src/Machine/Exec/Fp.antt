-- ===== src/Machine/Exec/Fp.antt =====
-- `run` of the classes of machine/instructions/FloatingPoint.impl.hpp and FloatingPoint.cpp. The host's
-- float arithmetic is a parameter, on bit patterns of 32 and 64 bits.
pub mod System
use cs16mem_model_vm.Base.{ℕ, ◌+◌, ◌*◌, ◌/◌, ◌%◌, ◌^◌}
use cs16mem_model_vm.Base.Words.{add32, extend16}
use cs16mem_model_vm.Machine.Trap.{Result}
use cs16mem_model_vm.Machine.Memory.{get_word, set_word}
use cs16mem_model_vm.Machine.Isa.Instr.{
  FpInstruction, fr, load_fp_single, store_fp_single, FrOp, Precision, single, double,
}
use cs16mem_model_vm.Machine.State.{
  Machine, asid, Action, pure, ◌>>=◌, ◌>>◌, lift, gets, register_of, set_fp_register, set_memory,
}

-- `fs op ft` on the values that two patterns stand for.
pub record FloatOps : Type 0 where
  pub single_op : FrOp → (fs ft : ℕ) → ℕ
  pub double_op : FrOp → (fs ft : ℕ) → ℕ

-- `getDouble`: two registers, the low word first.
abbrev pub double_of : ℕ → Action ℕ
double_of r = gets (λ m. m.fp_registers r + m.fp_registers (r + 1) * 2 ^ 32)

module _ (ops : FloatOps) where
  pub run_fr : FrOp → Precision → (ft fs fd : ℕ) → Action (Unit {0})
  run_fr op single ft fs fd = do
    a ← gets (λ m. m.fp_registers fs)
    b ← gets (λ m. m.fp_registers ft)
    set_fp_register fd (ops.single_op op a b)
  run_fr op double ft fs fd = do
    a ← double_of fs
    b ← double_of ft
    set_fp_register fd (ops.double_op op a b % 2 ^ 32)
    set_fp_register (fd + 1) (ops.double_op op a b / 2 ^ 32)

  pub run_fp : FpInstruction → Action (Unit {0})
  run_fp (fr op precision ft fs fd) = run_fr op precision ft fs fd
  run_fp (load_fp_single rt rs imm) = do
    base ← register_of rs
    m ← gets (λ m. m)
    w ← lift (get_word m.memory m.tlb (asid m) (add32 base (extend16 imm)))
    set_fp_register rt w
  run_fp (store_fp_single rt rs imm) = do
    base ← register_of rs
    m ← gets (λ m. m)
    mem ← lift (set_word m.memory m.tlb (asid m) (add32 base (extend16 imm)) (m.fp_registers rt))
    set_memory mem
