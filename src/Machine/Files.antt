-- ===== src/Machine/Files.antt =====
-- `Hardware::OpenFile` and `Hardware::FileSystem` of machine/FileSystem.h and machine/FileSystem.cpp.
pub mod Slots
pub mod Growth
use cs16mem_model_vm.Base.{
  zero, suc, ℕ, ◌+◌, ◌-◌, ◌*◌, ◌%◌, ◌^◌, Bool, true, false, not, Option, none, some, List, [], ◌∷◌,
  ◌++◌, length, get_elem?, set, leb, ltb, ◌==◌, if◌then◌else◌,
}
use cs16mem_model_vm.Machine.Trap.{Result, ok, crash, ◌>>=◌, ◌>>◌, require}
use cs16mem_model_vm.Machine.Host.{
  Call, open_file, read_file, seek_file, close_file, Host, Reply, ask,
}

-- `Word(-1)`
abbrev pub word_minus_one : ℕ
word_minus_one = 2 ^ 32 - 1

pub record OpenFile : Type 0 where
  pub fd : ℕ
  pub err : ℕ
  pub offset : ℕ

-- `freeVFDs` is kept with its back first; `capacity` is that of the vector `files`.
pub record FileSystem : Type 0 where
  pub files : List (Option OpenFile)
  pub free_vfds : List ℕ
  pub capacity : ℕ

abbrev pub no_files : FileSystem
no_files = record { files = []; free_vfds = []; capacity = 0 }

-- `OpenFile(path, flags)`: a refused open fails an assertion.
pub open_host : List ℕ → ℕ → Host → Result (OpenFile × Host)
open_host path flags h =
    let (r, h') = ask (open_file path flags) h in
    if r.value == word_minus_one
    then crash
    else ok (record { fd = r.value; err = 0; offset = 0 }, h')

-- `buffer.resize(n)`: the bytes cut or filled up with 0.
pub resize : ℕ → List ℕ → List ℕ
resize zero bytes = []
resize (suc n) [] = 0 ∷ resize n []
resize (suc n) (b ∷ bytes) = b ∷ resize n bytes

-- `OpenFile::read`. The C library's result is kept as a 64-bit number, where a failure is 2^64 - 1,
-- and the code compares it with `Word(-1)`. A vector refuses a size of 2^63 bytes or more.
pub read : OpenFile → ℕ → Host → Result (List ℕ × OpenFile × Host)
read f count h =
    let (r, h') = ask (read_file f.fd count) h in
    if r.value == word_minus_one
    then ok ([], record f { err = r.errno }, h')
    else if ltb r.value (2 ^ 63)
    then ok (resize r.value r.bytes, f, h')
    else crash

-- `OpenFile::seek`: the result is cut to a `Word`.
pub seek : OpenFile → ℕ → ℕ → Host → ℕ × OpenFile × Host
seek f offset whence h =
    let (r, h') = ask (seek_file f.fd offset whence) h in
    let moved = r.value % 2 ^ 32 in
    (moved, (if moved == word_minus_one then record f { err = r.errno } else f), h')

-- `OpenFile::error`
pub error : OpenFile → ℕ
error f = f.err

-- `FileSystem::open` on a free slot: `files[vfd]` must be empty, and takes the new file.
pub reuse : FileSystem → ℕ → List ℕ → List ℕ → ℕ → Host → Result (ℕ × FileSystem × Host)
reuse fs vfd rest path flags h = elim (get_elem? fs.files vfd) [
  | some none ↦ do
    (file, h') ← open_host path flags h
    ok (
      (if not (file.err == 0) then file.err else vfd),
      record fs { files = set fs.files vfd (some file); free_vfds = rest },
      h',
    )
  | _ ↦ crash
]

-- `~OpenFile` of the objects that a growing vector leaves behind. `OpenFile` has a destructor and so no
-- move: the new buffer has copies, and the old objects close their descriptors.
unfoldable pub close_left : List (Option OpenFile) → Host → Result Host
close_left [] h = ok h
close_left (none ∷ files) h = close_left files h
close_left (some f ∷ files) h = do
  let (r, h') = ask (close_file f.fd) h
  require (r.value == 0)
  close_left files h'

-- A vector that is full doubles its capacity.
abbrev pub next_capacity : ℕ → ℕ
next_capacity n = if n == 0 then 1 else 2 * n

-- `files.emplace_back(in_place, path, flags)`: a new buffer has the new file first, then the copies.
unfoldable pub append_file : FileSystem → List ℕ → ℕ → Host → Result (ℕ × FileSystem × Host)
append_file fs path flags h = do
  (file, h') ← open_host path flags h
  let grows = length fs.files == fs.capacity
  h'' ← (if grows then close_left fs.files h' else ok h')
  ok (
    length fs.files,
    record fs {
      files = fs.files ++ (some file ∷ []);
      capacity = if grows then next_capacity fs.capacity else fs.capacity;
    },
    h'',
  )

pub open_vfd : FileSystem → List ℕ → ℕ → Host → Result (ℕ × FileSystem × Host)
open_vfd fs path flags h = elim fs.free_vfds [
  | [] ↦ append_file fs path flags h
  | vfd ∷ rest ↦ reuse fs vfd rest path flags h
]

-- `FileSystem::close`: -1 out of range, -2 on an empty slot; `~OpenFile` asserts that the host
-- closed the file.
pub close_vfd : FileSystem → ℕ → Host → Result (ℕ × FileSystem × Host)
close_vfd fs vfd h = elim (get_elem? fs.files vfd) [
  | none ↦ ok (2 ^ 32 - 1, fs, h)
  | some none ↦ ok (2 ^ 32 - 2, fs, h)
  | some (some f) ↦ do
    let (r, h') = ask (close_file f.fd) h
    require (r.value == 0)
    ok (0, record fs { files = set fs.files vfd none; free_vfds = vfd ∷ fs.free_vfds }, h')
]

-- `FileSystem::operator[]` and the dereference of its result: `at` throws out of range, and an
-- empty optional has no file.
pub file_at : FileSystem → ℕ → Result OpenFile
file_at fs vfd = elim (get_elem? fs.files vfd) [ some (some f) ↦ ok f | _ ↦ crash ]

-- The file behind the reference, after a call that changed it.
pub replace : FileSystem → ℕ → OpenFile → FileSystem
replace fs vfd f = record fs { files = set fs.files vfd (some f) }
