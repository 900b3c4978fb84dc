-- ===== src/Machine/Exec/Kernel.antt =====
-- `run` of the privileged classes of machine/instructions/KInstructions.cpp.
pub mod Denied
use cs16mem_model_vm.Base.{
  ℕ, ◌+◌, ◌%◌, ◌^◌, Bool, true, false, ◌&&◌, ◌||◌, Option, none, some, List, [], ◌∷◌, get_elem?,
  set, ltb, ◌==◌, if◌then◌else◌,
}
use cs16mem_model_vm.Base.Words.{add32, test_bit}
use cs16mem_model_vm.Machine.Trap.{ExceptionCode, Result, ok, crash, require}
use cs16mem_model_vm.Machine.Tlb.{Tlb, TlbEntry, tlb_entries, from_words, hi_lo_pair}
use cs16mem_model_vm.Machine.Lru
use cs16mem_model_vm.Machine.Isa.Codes.{SysRegister, sys_register}
use cs16mem_model_vm.Machine.Isa.Instr.{
  KInstruction, move_to_coprocessor0, move_from_coprocessor0, exception_return, tlb_probe,
  tlb_read_indexed, tlb_write_indexed, tlb_write_random, perform_cache_op, vm_tunnel,
}
use cs16mem_model_vm.Machine.State.{
  Machine, status, Action, pure, ◌>>=◌, ◌>>◌, lift, gets, modify, raise, register_of, set_register,
  set_sys_register, set_pc,
}
use cs16mem_model_vm.Machine.Exec.Tunnel.{run_tunnel}

abbrev pub sys : SysRegister → Action ℕ
sys r = gets (λ m. m.sys_registers (sys_register r))

-- `tlb[i]`: `std::array::at`, which throws out of range.
abbrev pub tlb_at : Tlb → ℕ → Result TlbEntry
tlb_at tlb i = elim (get_elem? tlb i) [ none ↦ crash | some e ↦ ok e ]

-- The loop of `TLBProbe`: `i` entries were passed over.
pub probe : Tlb → (i vpn asid : ℕ) → Option ℕ
probe [] i vpn asid = none
probe (e ∷ es) i vpn asid =
    let rest = probe es (i + 1) vpn asid in
    if e.vpn == vpn && (e.global || e.asid == asid) then some i else rest

-- `TLBReadIndexed`
pub read_indexed : Action (Unit {0})
read_indexed = do
  i ← sys SysRegister.index
  lift (require (ltb i tlb_entries))
  m ← gets (λ m. m)
  e ← lift (tlb_at m.tlb i)
  set_sys_register (sys_register SysRegister.entryhi) (hi_lo_pair e).0
  set_sys_register (sys_register SysRegister.entrylo0) (hi_lo_pair e).1

-- `TLBWriteIndexed`, at the index in a register.
pub write_indexed : SysRegister → Action (Unit {0})
write_indexed r = do
  i ← sys r
  lift (require (ltb i tlb_entries))
  hi ← sys SysRegister.entryhi
  lo ← sys SysRegister.entrylo0
  m ← gets (λ m. m)
  old ← lift (tlb_at m.tlb i)
  modify (λ m. record m { tlb = set m.tlb i (from_words hi lo) })

-- `run` past the check of EXL.
pub run_privileged : KInstruction → Action (Unit {0})
run_privileged (move_to_coprocessor0 rt rd) = do v ← register_of rt; set_sys_register rd v
run_privileged (move_from_coprocessor0 rt rd) = do
  v ← gets (λ m. m.sys_registers rd)
  set_register rt v
run_privileged exception_return = do epc ← sys SysRegister.epc; set_pc epc
run_privileged tlb_probe = do
  hi ← sys SysRegister.entryhi
  m ← gets (λ m. m)
  elim (probe m.tlb 0 (from_words hi 0).vpn (from_words hi 0).asid) [
    | some i ↦ set_sys_register (sys_register SysRegister.index) i
    | none ↦ set_sys_register (sys_register SysRegister.index) 0x80000000
  ]
run_privileged tlb_read_indexed = read_indexed
run_privileged tlb_write_indexed = write_indexed SysRegister.index
run_privileged tlb_write_random = do
  write_indexed SysRegister.random
  i ← sys SysRegister.random
  set_sys_register (sys_register SysRegister.random) (add32 i 1 % tlb_entries)
run_privileged perform_cache_op =
    modify (λ m. record m { instruction_cache = Lru.clear m.instruction_cache })
run_privileged vm_tunnel = run_tunnel

-- `EXL_CHECK`: outside privileged mode the instruction is reserved.
pub run_k : KInstruction → Action (Unit {0})
run_k k = do s ← gets status; if test_bit s 1 then run_privileged k else raise ExceptionCode.ri
