-- ===== src/Machine/Exec.antt =====
-- `run` of each class of instruction, machine/instructions/.
pub mod IType
pub mod RType
pub mod Special
pub mod Fp
pub mod Kernel
pub mod Tunnel
