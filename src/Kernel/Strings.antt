-- ===== src/Kernel/Strings.antt =====
-- `strlen`, `streq` and `ministl::string` of kernel/kstl/String.cpp. A string is a vector of characters that
-- ends with a 0; a `const char*` is the list of the bytes from its address on.
pub mod Text
pub mod Append
use cs16mem_model_vm.Base.{
  ℕ, zero, suc, ◌+◌, ◌-◌, ◌%◌, ◌^◌, Bool, true, false, not, ◌||◌, List, [], ◌∷◌, ltb, ◌==◌,
  if◌then◌else◌,
}
use cs16mem_model_vm.Base.Words.{add32, sub32}
use cs16mem_model_vm.Machine.Trap.{Result, ok, crash, require, ◌>>=◌, ◌>>◌}
use cs16mem_model_vm.Kernel.Vector.{Vector, emplace_back, at, assign, resize}
use cs16mem_model_vm.Kernel.Vector

-- The loop of `strlen`; past the bytes a read has no meaning.
unfoldable pub strlen : List ℕ → Result ℕ
strlen [] = crash
strlen (c ∷ s) = if c == 0 then ok 0 else (do len ← strlen s; ok (add32 len 1))

-- The loop of `streq`, on two pointers that are not null and not the same.
unfoldable pub streq : List ℕ → List ℕ → Result Bool
streq [] b = crash
streq (x ∷ a) [] = crash
streq (x ∷ a) (y ∷ b) =
    let later = streq a b in
    if x == 0 || y == 0 then ok (x == y) else if x == y then later else ok false

abbrev pub size : Vector ℕ → ℕ
size s = sub32 s.size 1

-- `operator[]` and `at`
abbrev pub char_at : Vector ℕ → ℕ → Result ℕ
char_at s idx = require (ltb idx (size s)) >> at s idx

-- `_data.back() = c`
abbrev pub set_last : ℕ → Vector ℕ → Result (Vector ℕ)
set_last c s = require (ltb 0 s.size) >> assign (s.size - 1) c s

-- `push_back(c)` and `operator+=(c)`
unfoldable pub push_back : ℕ → Vector ℕ → Result (Vector ℕ)
push_back c s = do s' ← set_last c s; emplace_back 0 s'

unfoldable pub pop_back : Vector ℕ → Result (Vector ℕ)
pop_back s = do require (ltb 0 (size s)); s' ← Vector.pop_back s; set_last 0 s'

-- The loop of `operator+=(const string&)`.
unfoldable pub append_loop : (left i start : ℕ) → (str s : Vector ℕ) → Result (Vector ℕ)
append_loop zero i start str s = ok s
append_loop (suc left) i start str s = do
  c ← char_at str (i - start)
  s' ← assign i c s
  append_loop left (i + 1) start str s'

-- `operator+=` of another string; `fuel` bounds the rounds of `resize`.
unfoldable pub append : (fuel : ℕ) → (str s : Vector ℕ) → Result (Vector ℕ)
append fuel str s = do
  let start = s.size
  let new_size = add32 (add32 start (size str)) 1
  grown ← resize fuel new_size 0 s
  copied ← append_loop (new_size - start) start start str grown
  assign new_size 0 copied
