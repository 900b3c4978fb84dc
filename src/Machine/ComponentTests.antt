-- ===== src/Machine/ComponentTests.antt =====
-- The laws of the emulator's parts on small inputs: instruction words, arithmetic, the LRU cache and the
-- file table.
use cs16mem_model_vm.Base.{◌%◌, ◌^◌, ◌≡◌, some, [], ◌∷◌, arith}
use cs16mem_model_vm.Machine.Trap.{ok}
use cs16mem_model_vm.Machine.Host.{Host, Reply}
use cs16mem_model_vm.Machine.Files.{FileSystem}
use cs16mem_model_vm.Machine.Files.Slots.{IsValid}
use cs16mem_model_vm.Machine.Isa.Instr
use cs16mem_model_vm.Machine.Isa.Instr.{
  Instruction, IInstruction, RInstruction, generic, variable, GenericOp, VariableOp, HlOp,
  KInstruction,
}
use cs16mem_model_vm.Machine.Isa.Decode.{decode, jump_target}
use cs16mem_model_vm.Machine.State.{Machine}
use cs16mem_model_vm.Machine.Isa.Assembler.{word_j, encode_i, encode_r}
use cs16mem_model_vm.Machine.Isa.Decode.Encode.{decode-encode_i, decode-encode_r}
use cs16mem_model_vm.Machine.Isa.Decode.Jump.{decode_jump_top_bit}
use cs16mem_model_vm.Machine.Exec.IType.{run_generic}
use cs16mem_model_vm.Machine.Exec.IType.Overflow.{Adds, add_immediate-Adds}
use cs16mem_model_vm.Base.Int.{pos}
use cs16mem_model_vm.Machine.Tests.{user_machine}

decode-encode_i_example :
    decode 0 (encode_i (generic GenericOp.add_immediate 8 9 0xFFFC))
    ≡ ok (Instruction.i_type (generic GenericOp.add_immediate 8 9 0xFFFC))
decode-encode_i_example =
    decode-encode_i 0 (generic GenericOp.add_immediate 8 9 0xFFFC)
      (omega arith, omega arith, omega arith)

decode-encode_r_example :
    decode 0 (encode_r (variable VariableOp.xor 1 2 3))
    ≡ ok (Instruction.r_type (variable VariableOp.xor 1 2 3))
decode-encode_r_example =
    decode-encode_r 0 (variable VariableOp.xor 1 2 3) (omega arith, omega arith, omega arith)

-- A jump to 0x0A000000 - its word address has the top bit set - is decoded as one to 0x02000000.
decode_jump_top_bit_example :
    (decode 0 (word_j 2 0x2800000)
      ≡ ok (Instruction.special (Instr.jump (jump_target 0 (0x2800000 % 2 ^ 25)))))
    × (decode 0 (word_j 3 0x2800000)
        ≡ ok (Instruction.special (Instr.jump_and_link (jump_target 0 (0x2800000 % 2 ^ 25)) 31)))
decode_jump_top_bit_example = decode_jump_top_bit 0 0x2800000 (omega arith)

abbrev full_register : Machine
full_register = record user_machine { registers = λ r. 0x7FFFFFFF }

add_immediate-Adds_example :
    Adds (pos 0x80000000) 8 full_register (run_generic GenericOp.add_immediate 8 9 1 full_register)
add_immediate-Adds_example = add_immediate-Adds 8 9 1 full_register (omega arith) (omega arith)

abbrev one_file : FileSystem
one_file = record {
  files = some (record { fd = 3; err = 0; offset = 0 }) ∷ [];
  free_vfds = [];
  capacity = 1;
}

abbrev descriptor_4 : Reply
descriptor_4 = record { value = 4; errno = 0; bytes = [] }

one_file-IsValid : IsValid one_file
one_file-IsValid = record {
  free_is_empty = λ v h. absurd h;
  empty_is_free = λ v h. ground (arith, h);
  distinct = tt;
}
