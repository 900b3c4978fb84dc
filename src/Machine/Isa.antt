-- ===== src/Machine/Isa.antt =====
-- The instruction set: the code numbers of machine/BinaryUtils.h, the instruction classes of
-- machine/instructions/, and the decoders of machine/Processors.cpp.
pub mod Codes
pub mod Instr
pub mod Assembler
pub mod Decode
