-- ===== src/Machine/Exec/Tunnel.antt =====
-- `VMTunnel::run` of machine/instructions/KInstructions.cpp: the kernel's calls to the emulator.
use cs16mem_model_vm.Base.{
  ℕ, zero, suc, ◌%◌, ◌^◌, true, false, List, [], ◌∷◌, length, ◌==◌, if◌then◌else◌,
}
use cs16mem_model_vm.Base.Words.{add32}
use cs16mem_model_vm.Machine.Trap.{crash, require}
use cs16mem_model_vm.Machine.Memory.{get_byte, get_word, set_byte, set_word}
use cs16mem_model_vm.Machine.Host.{print_bytes, print_integer, scan_integer, read_input}
use cs16mem_model_vm.Machine.Files
use cs16mem_model_vm.Machine.Isa.Codes.{Register, register}
use cs16mem_model_vm.Machine.State.{
  asid, Action, pure, ◌>>=◌, ◌>>◌, lift, gets, modify, register_of, set_memory, ask_host,
}

abbrev pub word_at : ℕ → Action ℕ
word_at addr m = lift (get_word m.memory m.tlb (asid m) addr) m

abbrev pub byte_at : ℕ → Action ℕ
byte_at addr m = lift (get_byte m.memory m.tlb (asid m) addr) m

abbrev pub put_word_at : ℕ → ℕ → Action (Unit {0})
put_word_at addr w m = (do mem ← lift (set_word m.memory m.tlb (asid m) addr w); set_memory mem) m

abbrev pub put_byte_at : ℕ → ℕ → Action (Unit {0})
put_byte_at addr b m = (do mem ← lift (set_byte m.memory m.tlb (asid m) addr b); set_memory mem) m

-- The loop over a string in memory, up to its 0 byte. The address wraps, so `fuel` rounds are at
-- most the number of addresses; `crash` when they are used up.
pub read_string : (fuel addr : ℕ) → Action (List ℕ)
read_string zero addr = lift crash
read_string (suc fuel) addr = do
  b ← byte_at addr
  elim (b == 0) [
    | true ↦ pure []
    | false ↦ do rest ← read_string fuel (add32 addr 1); pure (b ∷ rest)
  ]

-- The loops that copy what was read to memory, byte by byte.
pub copy_out : (addr : ℕ) → List ℕ → Action (Unit {0})
copy_out addr [] = pure tt
copy_out addr (b ∷ bs) = do put_byte_at addr b; copy_out (add32 addr 1) bs

abbrev pub string_at : ℕ → Action (List ℕ)
string_at = read_string (2 ^ 32)

-- `res` and `err`.
abbrev pub answer : (res err : ℕ) → Action (ℕ × ℕ)
answer res err = pure (res, err)

pub halt : Action (ℕ × ℕ)
halt = do modify (λ m. record m { killed = true }); answer 0 0

pub print_string : (addr : ℕ) → Action (ℕ × ℕ)
print_string addr = do out ← string_at addr; r ← ask_host (print_bytes out); answer 0 0

pub fopen : (addr flags : ℕ) → Action (ℕ × ℕ)
fopen addr flags = do
  path ← string_at addr
  m ← gets (λ m. m)
  (vfd, fs, h) ← lift (Files.open_vfd m.file_system path flags m.host)
  modify (λ m. record m { file_system = fs; host = h })
  answer vfd 0

pub fread : (vfd buf count : ℕ) → Action (ℕ × ℕ)
fread vfd buf count = do
  m ← gets (λ m. m)
  file ← lift (Files.file_at m.file_system vfd)
  (bytes, file', h) ← lift (Files.read file count m.host)
  modify (λ m. record m { file_system = Files.replace m.file_system vfd file'; host = h })
  copy_out buf bytes
  answer (length bytes % 2 ^ 32) 0

pub fseek : (vfd offset whence : ℕ) → Action (ℕ × ℕ)
fseek vfd offset whence = do
  m ← gets (λ m. m)
  file ← lift (Files.file_at m.file_system vfd)
  let (moved, file', h) = Files.seek file offset whence m.host
  modify (λ m. record m { file_system = Files.replace m.file_system vfd file'; host = h })
  answer moved (Files.error file')

pub fclose : (vfd : ℕ) → Action (ℕ × ℕ)
fclose vfd = do
  m ← gets (λ m. m)
  (code, fs, h) ← lift (Files.close_vfd m.file_system vfd m.host)
  modify (λ m. record m { file_system = fs; host = h })
  answer 0 0

-- `stdin(buf, bytes)`: the loop takes `res` characters of the buffer, which has no meaning past those
-- that were read.
pub read_stdin : (buf count : ℕ) → Action (ℕ × ℕ)
read_stdin buf count = do
  r ← ask_host (read_input count)
  lift (require (r.value % 2 ^ 32 == length r.bytes))
  copy_out buf r.bytes
  answer (r.value % 2 ^ 32) 0

-- The switch on the request. Request 7 (`fwrite`) falls through to 8.
pub serve : (req arg0 arg1 arg2 : ℕ) → Action (ℕ × ℕ)
serve req arg0 arg1 arg2 =
    if req == 1
    then halt
    else if req == 2
    then print_string arg0
    else if req == 3
    then (do r ← ask_host (print_integer arg0); answer 0 0)
    else if req == 4
    then (do r ← ask_host scan_integer; answer (r.value % 2 ^ 32) 0)
    else if req == 5
    then fopen arg0 arg1
    else if req == 6
    then fread arg0 arg1 arg2
    else if req == 7
    then fseek arg0 arg1 arg2
    else if req == 8
    then fseek arg0 arg1 arg2
    else if req == 9
    then fclose arg0
    else if req == 10
    then read_stdin arg0 arg1
    else answer 0 0

-- The request is read from the words at a0, and answered at v0.
pub run_tunnel : Action (Unit {0})
run_tunnel = do
  req_addr ← register_of (register Register.a0)
  res_addr ← register_of (register Register.v0)
  req ← word_at req_addr
  arg0 ← word_at (add32 req_addr 4)
  arg1 ← word_at (add32 req_addr 8)
  arg2 ← word_at (add32 req_addr 12)
  (res, err) ← serve req arg0 arg1 arg2
  put_word_at res_addr res
  put_word_at (add32 res_addr 4) err
