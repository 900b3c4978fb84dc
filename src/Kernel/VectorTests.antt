-- ===== src/Kernel/VectorTests.antt =====
-- The models of kernel/kstl/Vector.h and String.cpp on small vectors and strings.
use cs16mem_model_vm.Base.{
  ℕ, ◌+◌, ◌^◌, ◌≡◌, ◌≢◌, ◌⊎◌, refl, true, false, none, some, List, [], ◌∷◌, arith,
}
use cs16mem_model_vm.Machine.Trap.{ok, crash, ◌>>=◌}
use cs16mem_model_vm.Kernel.Vector.{
  Vector, round_to_pow2, move_slots, reserve, emplace_back, at, assign, back, shrink, extend,
  resize, empty_vector,
}
use cs16mem_model_vm.Kernel.Vector
use cs16mem_model_vm.Kernel.Vector.Slots.{IsVector}
use cs16mem_model_vm.Kernel.Vector.Ends.{emplace_back-IsVector}
use cs16mem_model_vm.Kernel.Vector.Resize.{resize-IsVector}
use cs16mem_model_vm.Kernel.Strings.{strlen, streq, push_back, pop_back, append_loop, append}
use cs16mem_model_vm.Kernel.Strings.Text.{streq_lem}
use cs16mem_model_vm.Kernel.Strings.Append.{append_crash}

abbrev full : Vector ℕ
full = record { slots = some 7 ∷ some 0 ∷ []; size = 2; capacity = 2 }

full-IsVector : IsVector full (7 ∷ 0 ∷ [])
full-IsVector = record { counted = refl; fits = omega arith; bounded = omega arith; held = refl }

vector_code : Unit {0}
unfolding round_to_pow2 move_slots reserve emplace_back Vector.pop_back at assign back shrink extend
    resize strlen streq push_back pop_back append_loop append
vector_code = tt

rounded : round_to_pow2 5 ≡ 8
unfolding vector_code
rounded = refl

-- A capacity for more than 2^31 values wraps to 0.
rounded_to_zero : round_to_pow2 (2 ^ 31 + 1) ≡ 0
unfolding vector_code
rounded_to_zero = refl

grown :
    emplace_back 9 full
    ≡ ok (record { slots = some 7 ∷ some 0 ∷ some 9 ∷ none ∷ []; size = 3; capacity = 4 })
unfolding vector_code
grown = refl

abbrev nine : ℕ
nine = 9

first_of_empty : (emplace_back 9 empty_vector >>= λ v. back v) ≡ ok nine
unfolding vector_code
first_of_empty = refl

-- The string of one character, 7, with one more.
pushed :
    push_back 8 full
    ≡ ok (record { slots = some 7 ∷ some 8 ∷ some 0 ∷ none ∷ []; size = 3; capacity = 4 })
unfolding vector_code
pushed = refl

popped : pop_back full ≡ ok (record { slots = some 0 ∷ none ∷ []; size = 1; capacity = 2 })
unfolding vector_code
popped = refl

measured : strlen (7 ∷ 8 ∷ 0 ∷ 9 ∷ []) ≡ ok 2
unfolding vector_code
measured = refl

emplace_back-IsVector_example :
    (v' : Vector ℕ) × ((emplace_back 9 full ≡ ok v') × IsVector v' (7 ∷ 0 ∷ 9 ∷ []))
emplace_back-IsVector_example =
    emplace_back-IsVector 9 full (7 ∷ 0 ∷ []) full-IsVector (omega arith)

resize-IsVector_example :
    (v' : Vector ℕ) × ((resize 3 5 4 full ≡ ok v') × IsVector v' (7 ∷ 0 ∷ 4 ∷ 4 ∷ 4 ∷ []))
resize-IsVector_example =
    resize-IsVector 3 5 4 full (7 ∷ 0 ∷ []) full-IsVector (omega arith) (omega arith) (omega arith)

abbrev word : List ℕ
word = 5 ∷ []

abbrev longer : List ℕ
longer = 5 ∷ 6 ∷ []

streq_lem_example :
    ((word ≡ longer) × (streq (5 ∷ 0 ∷ []) (5 ∷ 6 ∷ 0 ∷ 1 ∷ []) ≡ ok true))
    ⊎ ((word ≢ longer) × (streq (5 ∷ 0 ∷ []) (5 ∷ 6 ∷ 0 ∷ 1 ∷ []) ≡ ok false))
streq_lem_example =
    streq_lem word longer [] (1 ∷ []) ((λ e. omega arith), tt)
      ((λ e. omega arith), ((λ e. omega arith), tt))

append_crash_example : append 8 full full ≡ crash
append_crash_example =
    append_crash 8 full full (7 ∷ []) (7 ∷ []) full-IsVector full-IsVector (omega arith)
      (omega arith)
