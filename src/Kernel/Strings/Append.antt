-- ===== src/Kernel/Strings/Append.antt =====
-- `operator+=` of kernel/kstl/String.cpp for another string.
use cs16mem_model_vm.Base.{
  ℕ, zero, suc, ◌+◌, ◌-◌, ◌%◌, ◌^◌, ◌<◌, ◌≤◌, ◌≡◌, ◌∙◌, ap, refl, true, false, some, List, [], ◌∷◌,
  ◌++◌, ltb, get_elem?, set, length, arith, length-set, lt_of_get_elem?, get_elem?_of_lt,
}
use cs16mem_model_vm.Machine.Trap.{ok, crash, ◌>>=◌}
use cs16mem_model_vm.Kernel.Vector.{Vector, assign, resize}
use cs16mem_model_vm.Kernel.Vector.Slots.{IsVector, length-snoc}
use cs16mem_model_vm.Kernel.Vector.Access.{at-IsVector, assign-IsVector}
use cs16mem_model_vm.Kernel.Vector.Resize.{resized, length-resized, resize-IsVector}
use cs16mem_model_vm.Kernel.Strings.{size, char_at, append_loop, append}
use cs16mem_model_vm.Kernel.Strings.Text.{IsString}

size_lem : (s : Vector ℕ) (cs : List ℕ) → IsString s cs → size s ≡ length cs
size_lem s cs h = omega (arith, h.counted, length-snoc cs 0, h.fits, h.bounded)

get_elem?-snoc :
    (cs : List ℕ) (b i c : ℕ) → get_elem? cs i ≡ some c → get_elem? (cs ++ b ∷ []) i ≡ some c
get_elem?-snoc [] b i c e = cc
get_elem?-snoc (x ∷ cs) b zero c e = e
get_elem?-snoc (x ∷ cs) b (suc i) c e = get_elem?-snoc cs b i c e

char_at-IsString :
    (s : Vector ℕ) (cs : List ℕ) (i c : ℕ)
    → IsString s cs
    → get_elem? cs i ≡ some c
    → char_at s i ≡ ok c
char_at-IsString s cs i c h e =
    let low : i < length cs = lt_of_get_elem? cs i e in
    let inside : ltb i (size s) ≡ true = ground (arith, size_lem s cs h, low) in
    rw (inside) (at-IsVector s (cs ++ 0 ∷ []) i c h (get_elem?-snoc cs 0 i c e))

char_at_end : (s : Vector ℕ) (cs : List ℕ) → IsString s cs → char_at s (length cs) ≡ crash
char_at_end s cs h =
    let outside : ltb (length cs) (size s) ≡ false = ground (arith, size_lem s cs h) in
    rw (outside, ◌>>=◌) refl

loop_step :
    (left i start c : ℕ) (str s s' : Vector ℕ)
    → char_at str (i - start) ≡ ok c
    → assign i c s ≡ ok s'
    → append_loop (suc left) i start str s ≡ append_loop left (i + 1) start str s'
unfolding append_loop
loop_step left i start c str s s' e k =
    ap (λ r. r >>= λ x. (assign i x s >>= λ y. append_loop left (i + 1) start str y)) e
    ∙ ap (λ r. r >>= λ y. append_loop left (i + 1) start str y) k

loop_end :
    (left i start : ℕ) (str s : Vector ℕ)
    → char_at str (i - start) ≡ crash
    → append_loop (suc left) i start str s ≡ crash
unfolding append_loop
loop_end left i start str s e =
    ap (λ r. r >>= λ x. (assign i x s >>= λ y. append_loop left (i + 1) start str y)) e

loop_crash :
    (left j start : ℕ) (str s : Vector ℕ) (ds xs : List ℕ)
    → IsString str ds
    → IsVector s xs
    → j + left ≡ length ds
    → start + length ds < length xs
    → append_loop (suc left) (start + j) start str s ≡ crash
loop_crash zero j start str s ds xs t h e room =
    let at_end : start + j - start ≡ length ds = omega (arith, e) in
    loop_end 0 (start + j) start str s (ap (char_at str) at_end ∙ char_at_end str ds t)
loop_crash (suc left) j start str s ds xs t h e room =
    let (c, there) = get_elem?_of_lt ds j (omega (arith, e)) in
    let (s', (k, r)) = assign-IsVector s xs (start + j) c h (omega (arith, e, room)) in
    let here : start + j - start ≡ j = omega arith in
    let next : start + j + 1 ≡ start + (j + 1) = omega arith in
    loop_step (suc left) (start + j) start c str s s'
      (ap (char_at str) here ∙ char_at-IsString str ds j c t there) k
    ∙ ap (λ i. append_loop (suc left) i start str s') next
    ∙ loop_crash left (j + 1) start str s' ds (set xs (start + j) c) t r (omega (arith, e))
        (omega (arith, room, length-set xs (start + j) c))

append_run :
    (fuel : ℕ) (str s grown : Vector ℕ)
    → resize fuel (((s.size + size str) % 2 ^ 32 + 1) % 2 ^ 32) 0 s ≡ ok grown
    → append_loop (((s.size + size str) % 2 ^ 32 + 1) % 2 ^ 32 - s.size) s.size s.size str grown
      ≡ crash
    → append fuel str s ≡ crash
unfolding append
append_run fuel str s grown e k = rw (e, k, ◌>>=◌) refl

-- `operator+=` of any other string fails an assertion, however much fuel `resize` has beyond what it
-- needs.
pub append_crash :
    (fuel : ℕ) (str s : Vector ℕ) (ds cs : List ℕ)
    → IsString str ds
    → IsString s cs
    → length cs + length ds < 2 ^ 29
    → length ds + 1 ≤ fuel
    → append fuel str s ≡ crash
append_crash fuel str s ds cs t h bound enough =
    let n = length cs + 1 in
    let xs = cs ++ 0 ∷ [] in
    let len : length xs ≡ n = omega (arith, length-snoc cs 0) in
    let counted : s.size ≡ n = h.counted ∙ len in
    let added = size_lem str ds t in
    let target : ((s.size + size str) % 2 ^ 32 + 1) % 2 ^ 32 ≡ n + length ds + 1 =
      omega (arith, counted, added, bound) in
    let (grown, (e, r)) =
      resize-IsVector fuel (n + length ds + 1) 0 s xs h (omega (arith, len))
        (omega (arith, len, enough)) (omega (arith, bound)) in
    let ys = resized (n + length ds + 1) 0 xs in
    let rounds : n + length ds + 1 - n ≡ suc (length ds) = omega arith in
    let start : n ≡ n + 0 = omega arith in
    append_run fuel str s grown (ap (λ k. resize fuel k 0 s) target ∙ e) (
      ap (λ k. append_loop (k - s.size) s.size s.size str grown) target
      ∙ ap (λ k. append_loop (n + length ds + 1 - k) k k str grown) counted
      ∙ ap (λ k. append_loop k n n str grown) rounds
      ∙ ap (λ k. append_loop (suc (length ds)) k n str grown) start
      ∙ loop_crash (length ds) 0 n str grown ds ys t r (omega arith)
          (omega (arith, length-resized (n + length ds + 1) 0 xs)))
