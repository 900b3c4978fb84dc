-- ===== src/Kernel.antt =====
-- The kernel: its containers, its resources and its scheduler, as its C++ under kernel/ writes them.
pub mod Bitset
pub mod Frames
pub mod Heap
pub mod LinkedList
pub mod Pages
pub mod Processes
pub mod Scheduler
pub mod Strings
pub mod UnorderedMap
pub mod Vector
mod Tests
mod MapTests
mod HeapTests
mod ProcessTests
mod ListTests
mod VectorTests
