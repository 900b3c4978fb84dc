-- ===== src/Machine/Host.antt =====
-- What the emulator asks of its host, machine/FileSystem.cpp and machine/Hardware.cpp: the C library
-- and the streams. The calls are recorded, newest first, and each is answered by the next reply.
use cs16mem_model_vm.Base.{ℕ, List, [], ◌∷◌}

pub data Call : Type 0 where
  open_file : (path : List ℕ) (flags : ℕ) → Call
  read_file : (fd count : ℕ) → Call
  seek_file : (fd offset whence : ℕ) → Call
  close_file : (fd : ℕ) → Call
  print_bytes : List ℕ → Call
  print_integer : ℕ → Call
  scan_integer : Call
  read_input : (count : ℕ) → Call

-- What a call returns: its value as the C library's type has it, `errno`, and the bytes read.
pub record Reply : Type 0 where
  pub value : ℕ
  pub errno : ℕ
  pub bytes : List ℕ

pub record Host : Type 0 where
  pub calls : List Call
  pub replies : List Reply

abbrev pub silent : Reply
silent = record { value = 0; errno = 0; bytes = [] }

abbrev pub next_reply : List Reply → Reply
next_reply [] = silent
next_reply (r ∷ rs) = r

abbrev pub later_replies : List Reply → List Reply
later_replies [] = []
later_replies (r ∷ rs) = rs

abbrev pub ask : Call → Host → Reply × Host
ask c h = (next_reply h.replies, record { calls = c ∷ h.calls; replies = later_replies h.replies })
