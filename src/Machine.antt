-- ===== src/Machine.antt =====
-- The emulated machine of machine/: TLB, memory, instructions, processors and file table.
pub mod Trap
pub mod Tlb
pub mod Memory
pub mod Host
pub mod Files
pub mod Lru
pub mod Isa
pub mod Device
pub mod State
pub mod Exec
pub mod Core
mod Tests
mod CacheTests
mod ComponentTests
