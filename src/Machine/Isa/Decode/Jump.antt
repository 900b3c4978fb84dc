-- ===== src/Machine/Isa/Decode/Jump.antt =====
-- `decodeIType` of machine/Processors.cpp on the two jumps, and where they go.
use cs16mem_model_vm.Base.{ℕ, ◌+◌, ◌*◌, ◌/◌, ◌%◌, ◌^◌, ◌<◌, ◌≡◌, ◌∙◌, ap, arith}
use cs16mem_model_vm.Base.Bits.{bit_or-disjoint}
use cs16mem_model_vm.Base.Words.{shl}
use cs16mem_model_vm.Machine.Trap.{ok}
use cs16mem_model_vm.Machine.Isa.Instr.{Instruction, SpecialInstruction}
use cs16mem_model_vm.Machine.Isa.Decode.{op_field, decode, decode_i_type, jump_target}
use cs16mem_model_vm.Machine.Isa.Assembler.{word_j}

decode-jump :
    (pc w : ℕ)
    → op_field w ≡ 2
    → decode pc w ≡ ok (Instruction.special (SpecialInstruction.jump (jump_target pc (w % 2 ^ 25))))
unfolding decode decode_i_type
decode-jump pc w e = rw e

decode-jump_and_link :
    (pc w : ℕ)
    → op_field w ≡ 3
    → decode pc w
      ≡ ok (Instruction.special (SpecialInstruction.jump_and_link (jump_target pc (w % 2 ^ 25)) 31))
unfolding decode decode_i_type
decode-jump_and_link pc w e = rw e

-- The address field of a jump has 26 bits in MIPS; the decoder keeps 25 of them. So it reads a jump
-- (opcode 2) and a jump and link (opcode 3), of any address field, as going to the same target as
-- with the top bit of the address cleared.
pub decode_jump_top_bit :
    (pc address : ℕ)
    → address < 2 ^ 26
    → (decode pc (word_j 2 address)
        ≡ ok (Instruction.special (SpecialInstruction.jump (jump_target pc (address % 2 ^ 25)))))
      × (decode pc (word_j 3 address)
          ≡ ok (
              Instruction.special
                (SpecialInstruction.jump_and_link (jump_target pc (address % 2 ^ 25)) 31)))
decode_jump_top_bit pc address h = (
  decode-jump pc (word_j 2 address) (omega arith) ∙ same 2,
  decode-jump_and_link pc (word_j 3 address) (omega arith)
      ∙ ap (λ t. ok (Instruction.special (SpecialInstruction.jump_and_link (jump_target pc t) 31)))
          (omega arith),
)
  where
    same :
        (op : ℕ)
        → ok (
            Instruction.special
              (SpecialInstruction.jump (jump_target pc (word_j op address % 2 ^ 25))))
          ≡ ok (Instruction.special (SpecialInstruction.jump (jump_target pc (address % 2 ^ 25))))
    same op =
        ap (λ t. ok (Instruction.special (SpecialInstruction.jump (jump_target pc t))))
          (omega arith)

-- A jump whose address field is below 2^25 goes to that word of the 256 MB region of the next
-- instruction. (The machine adds 4 to the program counter after the instruction.)
jump_target_region :
    (pc address : ℕ)
    → pc + 4 < 2 ^ 32
    → address < 2 ^ 25
    → (jump_target pc address + 4) % 2 ^ 32 ≡ (pc + 4) / 2 ^ 28 * 2 ^ 28 + address * 4
unfolding jump_target
jump_target_region pc address h1 h2 = ground (
  arith,
  bit_or-disjoint 28 ((pc + 4) % 2 ^ 32 / 2 ^ 28 * 2 ^ 28) (shl address 2) (omega arith)
      (omega arith),
)
