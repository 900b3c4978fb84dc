-- ===== src/Machine/Files/Growth.antt =====
-- `FileSystem::open` of machine/FileSystem.cpp on a table whose vector is full.
use cs16mem_model_vm.Base.{◌≡◌, Option, none, some, List, [], ◌∷◌}
use cs16mem_model_vm.Machine.Host.{Call, close_file, Host, Reply}
use cs16mem_model_vm.Machine.Files.{OpenFile}

-- The calls that close the files of a list, on top of others.
abbrev pub closed : List (Option OpenFile) → List Call → List Call
closed [] calls = calls
closed (none ∷ files) calls = closed files calls
closed (some f ∷ files) calls = closed files (close_file f.fd ∷ calls)

-- The host agrees to everything that it is asked.
abbrev pub Agrees : List Reply → Type 0
Agrees [] = Unit {0}
Agrees (r ∷ rs) = (r.value ≡ 0) × Agrees rs
