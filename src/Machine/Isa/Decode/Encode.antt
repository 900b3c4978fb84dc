-- ===== src/Machine/Isa/Decode/Encode.antt =====
-- The decoders of machine/Processors.cpp against the instruction formats of MIPS.
use cs16mem_model_vm.Base.{ℕ, ◌^◌, ◌<◌, ◌≡◌, ◌≢◌, refl, arith}
use cs16mem_model_vm.Machine.Trap.{ok}
use cs16mem_model_vm.Machine.Isa.Instr
use cs16mem_model_vm.Machine.Isa.Instr.{
  Instruction, IInstruction, generic, memory, branch, branch_zero, GenericOp, MemoryOp, BranchOp,
  BranchZeroOp, RInstruction, variable, shift, VariableOp, ShiftOp, SpecialInstruction, hl_move,
  hl_op, HlMoveOp, HlOp, KInstruction,
}
use cs16mem_model_vm.Machine.Isa.Decode.{
  op_field, rs_field, rt_field, rd_field, shamt_field, funct_field, imm_field, address_field,
  decode, decode_i_type, decode_r_type, decode_regimm, decode_special2,
}
use cs16mem_model_vm.Machine.Isa.Assembler.{
  word_i, word_r, generic_code, memory_code, branch_code, variable_code, shift_code, encode_i,
  encode_r, FitsI, FitsR,
}

word_i_fields :
    (op rs rt imm : ℕ)
    → op < 2 ^ 6
    → rs < 2 ^ 5
    → rt < 2 ^ 5
    → imm < 2 ^ 16
    → (op_field (word_i op rs rt imm) ≡ op)
      × (rs_field (word_i op rs rt imm) ≡ rs)
      × (rt_field (word_i op rs rt imm) ≡ rt)
      × (imm_field (word_i op rs rt imm) ≡ imm)
word_i_fields op rs rt imm h0 h1 h2 h3 = omega arith

word_r_fields :
    (op rs rt rd shamt fn : ℕ)
    → op < 2 ^ 6
    → rs < 2 ^ 5
    → rt < 2 ^ 5
    → rd < 2 ^ 5
    → shamt < 2 ^ 5
    → fn < 2 ^ 6
    → (op_field (word_r op rs rt rd shamt fn) ≡ op)
      × (rs_field (word_r op rs rt rd shamt fn) ≡ rs)
      × (rt_field (word_r op rs rt rd shamt fn) ≡ rt)
      × (rd_field (word_r op rs rt rd shamt fn) ≡ rd)
      × (shamt_field (word_r op rs rt rd shamt fn) ≡ shamt)
      × (funct_field (word_r op rs rt rd shamt fn) ≡ fn)
word_r_fields op rs rt rd shamt fn h0 h1 h2 h3 h4 h5 = omega arith

-- The opcodes that the decoder does not send to a switch of their own.
abbrev Plain : ℕ → Type 0
Plain op = (1 < op) × (op < 2 ^ 6) × (op ≢ 16) × (op ≢ 17) × (op ≢ 28)

module _ (pc op rs rt imm : ℕ) {i : Instruction} (h1 : rs < 2 ^ 5) (h2 : rt < 2 ^ 5)
    (h3 : imm < 2 ^ 16) where
  decode-word_i :
      Plain op
      → ((address : ℕ) → decode_i_type op pc rt rs imm address ≡ ok i)
      → decode pc (word_i op rs rt imm) ≡ ok i
  unfolding decode
  decode-word_i h k =
      let f = word_i_fields op rs rt imm h.1 h1 h2 h3 in
      rw (f.0, f.1, f.2, f.3) (ground (arith, k (address_field (word_i op rs rt imm))))

decode-generic :
    (pc : ℕ) (op : GenericOp) (rt rs imm : ℕ)
    → rt < 2 ^ 5
    → rs < 2 ^ 5
    → imm < 2 ^ 16
    → decode pc (word_i (generic_code op) rs rt imm)
      ≡ ok (Instruction.i_type (generic op rt rs imm))
unfolding decode_i_type
decode-generic pc GenericOp.add_immediate rt rs imm h1 h2 h3 =
    decode-word_i pc 8 rs rt imm h2 h1 h3 (omega arith) (λ a. refl)
decode-generic pc op rt rs imm h1 h2 h3 =
    decode-word_i pc (generic_code op) rs rt imm h2 h1 h3 (omega arith) (λ a. refl)

decode-memory :
    (pc : ℕ) (op : MemoryOp) (rt rs imm : ℕ)
    → rt < 2 ^ 5
    → rs < 2 ^ 5
    → imm < 2 ^ 16
    → decode pc (word_i (memory_code op) rs rt imm) ≡ ok (Instruction.i_type (memory op rt rs imm))
unfolding decode_i_type
decode-memory pc MemoryOp.load_byte rt rs imm h1 h2 h3 =
    decode-word_i pc 32 rs rt imm h2 h1 h3 (omega arith) (λ a. refl)
decode-memory pc op rt rs imm h1 h2 h3 =
    decode-word_i pc (memory_code op) rs rt imm h2 h1 h3 (omega arith) (λ a. refl)

decode-branch :
    (pc : ℕ) (op : BranchOp) (rt rs imm : ℕ)
    → rt < 2 ^ 5
    → rs < 2 ^ 5
    → imm < 2 ^ 16
    → decode pc (word_i (branch_code op) rs rt imm) ≡ ok (Instruction.i_type (branch op rt rs imm))
unfolding decode_i_type
decode-branch pc BranchOp.branch_on_equal rt rs imm h1 h2 h3 =
    decode-word_i pc 4 rs rt imm h2 h1 h3 (omega arith) (λ a. refl)
decode-branch pc op rt rs imm h1 h2 h3 =
    decode-word_i pc (branch_code op) rs rt imm h2 h1 h3 (omega arith) (λ a. refl)

decode-branch_zero :
    (pc : ℕ) (op : BranchZeroOp) (imm rs : ℕ)
    → rs < 2 ^ 5
    → imm < 2 ^ 16
    → decode pc (encode_i (branch_zero op imm rs)) ≡ ok (Instruction.i_type (branch_zero op imm rs))
unfolding decode_i_type decode decode_regimm
decode-branch_zero pc BranchZeroOp.branch_on_less_than_zero imm rs h1 h2 =
    let f = word_i_fields 1 rs 0 imm (omega arith) h1 (omega arith) h2 in rw (f.0, f.1, f.2, f.3)
decode-branch_zero pc BranchZeroOp.branch_on_greater_than_or_equal_zero imm rs h1 h2 =
    let f = word_i_fields 1 rs 1 imm (omega arith) h1 (omega arith) h2 in rw (f.0, f.1, f.2, f.3)
decode-branch_zero pc BranchZeroOp.branch_on_less_than_or_equal_zero imm rs h1 h2 =
    decode-word_i pc 6 rs 0 imm h1 (omega arith) h2 (omega arith) (λ a. refl)
decode-branch_zero pc BranchZeroOp.branch_on_greater_than_zero imm rs h1 h2 =
    decode-word_i pc 7 rs 0 imm h1 (omega arith) h2 (omega arith) (λ a. refl)

-- The decoder reads the MIPS encoding of an I-type instruction, operands within their fields, as
-- that instruction.
pub decode-encode_i :
    (pc : ℕ) (i : IInstruction) → FitsI i → decode pc (encode_i i) ≡ ok (Instruction.i_type i)
unfolding decode_i_type
decode-encode_i pc (generic op rt rs imm) h = decode-generic pc op rt rs imm h.0 h.1 h.2
decode-encode_i pc (memory op rt rs imm) h = decode-memory pc op rt rs imm h.0 h.1 h.2
decode-encode_i pc (branch op rt rs imm) h = decode-branch pc op rt rs imm h.0 h.1 h.2
decode-encode_i pc (branch_zero op imm rs) h = decode-branch_zero pc op imm rs h.0 h.1
decode-encode_i pc (Instr.load_upper_immediate rt imm) h =
    decode-word_i pc 15 0 rt imm (omega arith) h.0 h.1 (omega arith) (λ a. refl)

module _ (pc rs rt rd shamt fn : ℕ) {i : Instruction} (h1 : rs < 2 ^ 5) (h2 : rt < 2 ^ 5)
    (h3 : rd < 2 ^ 5) (h4 : shamt < 2 ^ 5) (h5 : fn < 2 ^ 6) where
  decode-word_r :
      decode_r_type fn rd rt rs shamt ≡ ok i → decode pc (word_r 0 rs rt rd shamt fn) ≡ ok i
  unfolding decode
  decode-word_r k =
      let f = word_r_fields 0 rs rt rd shamt fn (omega arith) h1 h2 h3 h4 h5 in
      rw (f.0, f.1, f.2, f.3, f.4, f.5) k

-- The decoder reads the MIPS encoding of an R-type instruction (a shift by a constant, an operation
-- on two registers, or `mul`), operands within their fields, as that instruction.
pub decode-encode_r :
    (pc : ℕ) (r : RInstruction) → FitsR r → decode pc (encode_r r) ≡ ok (Instruction.r_type r)
unfolding decode_r_type decode decode_special2
decode-encode_r pc (variable VariableOp.multiply_to_gpr rd rt rs) h =
    let f = word_r_fields 28 rs rt rd 0 2 (omega arith) h.2 h.1 h.0 (omega arith) (omega arith) in
    rw (f.0, f.1, f.2, f.3, f.5)
decode-encode_r pc (variable op rd rt rs) h =
    decode-word_r pc rs rt rd 0 (variable_code op) h.2 h.1 h.0 (omega arith) (omega arith) refl
decode-encode_r pc (shift ShiftOp.shift_left_logical rd rt shamt) h =
    decode-word_r pc 0 rt rd shamt 0 (omega arith) h.1 h.0 h.2 (omega arith) refl
decode-encode_r pc (shift op rd rt shamt) h =
    decode-word_r pc 0 rt rd shamt (shift_code op) (omega arith) h.1 h.0 h.2 (omega arith) refl
