-- ===== src/Lib.antt =====
-- The verification library of CS16MemModelVM: an emulated MIPS machine (machine/) and the kernel that
-- runs on it (kernel/), modelled as functions on explicit state.
--
-- The program. `Hardware::Machine` holds memory, a file table and a `Core`; `Core::cycle` fetches the
-- instruction at the program counter through an LRU cache of decoded instructions, runs it, and polls the
-- interrupt device; a trap that is thrown on the way enters the kernel. Memory is reached through a TLB that
-- the kernel fills. The kernel keeps bit sets of frames and address space identifiers, page tables, and a
-- queue of processes with three levels. A server speaks WebSocket frames (network/).
--
-- The files, and the code they are about.
--   Base and below: names shared by all modules; native numbers with Boolean tests, lists with native
--     indices, 32-bit words with their wrap written out, integers, and bit operations as arithmetic.
--   Machine/Trap: `Hardware::Trap` of machine/Processors.h, and the result of code that can throw: a value,
--     a trap, or a crash of the emulator (a failed assertion, an exception that nothing catches, or an
--     operation that C++ gives no meaning).
--   Machine/Tlb: `TLBEntry` and `TLB` of machine/Memory.cpp; Tlb/Entry and Tlb/Lookup hold the proofs.
--   Machine/Memory: `Memory` of machine/Memory.cpp and `loadBigEndian` of machine/BinaryUtils.cpp.
--   Machine/Host, Machine/Files: the calls that leave the program, each answered by a reply that the state
--     lists, and `OpenFile` and `FileSystem` of machine/FileSystem.cpp; Files/Slots and Files/Growth are about
--     the table and its vector.
--   Machine/Lru: `LRUCache` of machine/LRUCache.h. A list iterator is the number of a node. Lru/Assoc,
--     Lru/Tracks and Lru/Refine hold the invariant and the specification, a recency list.
--   Machine/Isa: the codes of machine/BinaryUtils.h, the instruction classes of machine/instructions/, and
--     the three decoders of machine/Processors.cpp. An instruction is a value that names registers, where the
--     C++ object refers to them.
--   Machine/Device, Machine/State: the interrupt devices, and the state of `Machine` and `Core` as one record.
--   Machine/Exec: `run` of the instruction classes (IInstruction.cpp, RInstruction.cpp,
--     SpecialInstruction.cpp, FloatingPoint.cpp, KInstructions.cpp). What an instruction changed before it
--     threw stays changed.
--   Machine/Core: `Core::cycle`, `Core::raiseTrap` and the loop of `Machine::run`; Core/Fetch, Core/Traps
--     and Core/Privilege hold the proofs.
--   Kernel/Bitset: `ministl::bitset` of kernel/kstl/Bitset.h.
--   Kernel/Frames: `MemoryManager` of kernel/SharedResources/VirtualMemory.cpp and the identifiers that
--     `AddressSpace` reserves; Frames/History has the sequences of calls.
--   Kernel/Pages: `kernel::TLBEntry`, `PageTable::Entry`, `KernelPageTable` and `AddressSpace::translate`;
--     Pages/Refill joins them to the TLB of Machine/Tlb, and Pages/HashTable is `HashPageTable` of
--     kernel/KernelObjects/PageTables.cpp.
--   Kernel/Scheduler: `MultiLevelQueue` of kernel/KernelObjects/Scheduler.cpp.
--   Kernel/UnorderedMap: `ministl::unordered_map` of kernel/kstl/UnorderedMap.h.
--   Kernel/LinkedList: `ministl::list` of kernel/kstl/Queue.h on a store of nodes. Links has the sequence of
--     cells that the nodes represent; Ends, Front and Back are the operations at the two ends, Unlink and
--     Erase the removal inside, Clear the end of a list.
--   Kernel/Vector, Kernel/Strings: `ministl::vector` of kernel/kstl/Vector.h as a buffer of slots, and
--     `ministl::string`, `strlen` and `streq` of kernel/kstl/String.cpp.
--   Kernel/Heap: `FreeList` of kernel/SharedResources/HeapManager.cpp on a store of block headers. Heap/Blocks
--     has the list of blocks that a store represents; FirstFit, Split and Extend are the steps of `malloc`,
--     Release those of `free`, and Safety is about the bytes of the blocks.
--   Kernel/Processes: `PCB`, `PCB::Guard` and `ProcessManager` of kernel/SharedResources/Process.cpp with the
--     memory manager and the identifiers they use. Processes/Slots is about the table, Destructor and Guards
--     about the end of a process, Entries, Copy and Fork about the copy of one, with Copy/Frames, Copy/Words and
--     Copy/Bytes for the frames and the words that it takes.
--   Network/WebSocket: the frames of network/WebSocket.cpp. Parts reads the parts of a frame, RoundTrip is
--     about whole frames, Safety and Total about any bytes.
--   Machine/Tests, ComponentTests and CacheTests, Kernel/Tests, MapTests,
--     HeapTests, ListTests, VectorTests and ProcessTests, Network/Tests: runs on small inputs.
--
-- Numbers and bounds. A word is a native number; sums, differences and shifts to the left are reduced by
-- 2 ^ 32 where the code's type does it, and an `int` is read from its word with its sign. Shifts by 32 or
-- more, division by zero and accesses past the end of physical memory have no meaning in C++ and are a crash.
--
-- Fuel. `Tunnel.read_string` has 2 ^ 32 rounds, one for each address, after which a string without an end
-- would repeat. `Bitset.count_block` has 32 rounds, one for each bit of a block, and gives
-- nothing when they are not enough. `Core.run_machine` takes the
-- number of cycles. `Heap.find_block` and `Heap.malloc` take the rounds of the walk; one more than there are
-- blocks is enough. `LinkedList.delete_all`, `shrink` and `extend` take a bound on their rounds; one more than
-- there are cells is enough for `clear`, and the difference of the sizes for `Vector.resize`. All other loops are recursion on a list or on the number of rounds that the code's loop
-- counts.
--
-- Parameters. Floating-point arithmetic is a record of functions on bit patterns. The C library and the
-- streams are the replies of the host. The thread of `WallClock` is an environment that raises its flag.
--
-- Not modelled. `Machine::loadKernel`, the loader, the network server and the WebSocket handshake, the assembly of the kernel, the user
-- programs; of the kernel, the constructors, copies and moves of the containers
-- in kernel/kstl/, `calloc`
-- and the bytes of the heap's blocks, `createProcess` and `exec`, the segmented page table and the trap
-- handler. The copy of a page on fork writes the words of physical memory, and what it may overwrite there
-- is not followed into the structures of the kernel. `erase` of `unordered_map` is left out with the sizes of
-- the buckets' lists, which it leaves stale.
pub mod Base
pub mod Machine
pub mod Kernel
pub mod Network
