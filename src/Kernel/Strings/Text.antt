-- ===== src/Kernel/Strings/Text.antt =====
-- `strlen` and `streq` of kernel/kstl/String.cpp on bytes that end with a 0, and `push_back` and `pop_back`.
use cs16mem_model_vm.Base.{
  ℕ, suc, ◌+◌, ◌-◌, ◌%◌, ◌^◌, ◌<◌, ◌≡◌, ◌≢◌, ◌⊎◌, ◌∙◌, ap, refl, subst, true, false, List, [], ◌∷◌,
  ◌++◌, ltb, ◌==◌, set, length, inl, inr, arith, Bool-cases,
}
use cs16mem_model_vm.Machine.Trap.{ok, ◌>>=◌}
use cs16mem_model_vm.Kernel.Vector.{Vector, emplace_back, assign}
use cs16mem_model_vm.Kernel.Vector.Slots.{IsVector, length-snoc}
use cs16mem_model_vm.Kernel.Vector.Ends.{emplace_back-IsVector, pop_back-IsVector}
use cs16mem_model_vm.Kernel.Vector.Access.{assign-IsVector}
use cs16mem_model_vm.Kernel.Strings.{strlen, streq, size, set_last, push_back, pop_back}
use cs16mem_model_vm.Kernel.Vector

-- Text without a 0.
abbrev pub NoZero : List ℕ → Type 0
NoZero [] = Unit {0}
NoZero (c ∷ cs) = (c ≢ 0) × NoZero cs

-- `strlen` of a text that ends with a 0 is its length, whatever bytes follow.
strlen_lem :
    (cs rest : List ℕ) → NoZero cs → length cs < 2 ^ 32 → strlen (cs ++ 0 ∷ rest) ≡ ok (length cs)
unfolding strlen
strlen_lem [] rest h bound = refl
strlen_lem (c ∷ cs) rest h bound =
    let on : (c == 0) ≡ false = ground (arith, h.0) in
    let count : (length cs + 1) % 2 ^ 32 ≡ suc (length cs) = omega (arith, bound) in
    rw (on, strlen_lem cs rest h.1 (omega (arith, bound)), ◌>>=◌) (ap ok count)

differ_head : (x y : ℕ) (cs ds : List ℕ) → x ≢ y → x ∷ cs ≢ y ∷ ds
differ_head x y cs ds n e = n cc

differ_tail : (x y : ℕ) (cs ds : List ℕ) → cs ≢ ds → x ∷ cs ≢ y ∷ ds
differ_tail x y cs ds n e = n cc

-- `streq` of two texts that end with a 0 tells whether they are the same, whatever bytes follow.
pub streq_lem :
    (cs ds rest rest' : List ℕ)
    → NoZero cs
    → NoZero ds
    → ((cs ≡ ds) × (streq (cs ++ 0 ∷ rest) (ds ++ 0 ∷ rest') ≡ ok true))
      ⊎ ((cs ≢ ds) × (streq (cs ++ 0 ∷ rest) (ds ++ 0 ∷ rest') ≡ ok false))
unfolding streq
streq_lem [] [] rest rest' h k = inl (refl, refl)
streq_lem [] (y ∷ ds) rest rest' h k =
    let other : (0 == y) ≡ false = ground (arith, k.0) in inr (λ e. cc, ap ok other)
streq_lem (x ∷ cs) [] rest rest' h k =
    let other : (x == 0) ≡ false = ground (arith, h.0) in inr (λ e. cc, rw other refl)
streq_lem (x ∷ cs) (y ∷ ds) rest rest' h k =
    let on : (x == 0) ≡ false = ground (arith, h.0) in
    let on' : (y == 0) ≡ false = ground (arith, k.0) in
    elim (Bool-cases (x == y)) [
      | inr f ↦
          let apart : x ≢ y = ground (arith, f) in
          inr (differ_head x y cs ds apart, rw (on, on', f) refl)
      | inl t ↦
          let same : x ≡ y = ground (arith, t) in
          elim (streq_lem cs ds rest rest' h.1 k.1) [
            | inl (e, r) ↦ inl (cc, rw (on, on', t) r)
            | inr (n, r) ↦ inr (differ_tail x y cs ds n, rw (on, on', t) r)
          ]
    ]

-- A string with the characters, and the 0 behind them.
abbrev pub IsString : Vector ℕ → List ℕ → Type 0
IsString s cs = IsVector s (cs ++ 0 ∷ [])

set-last : (cs : List ℕ) (b c : ℕ) → set (cs ++ b ∷ []) (length cs) c ≡ cs ++ c ∷ []
set-last [] b c = refl
set-last (x ∷ cs) b c = ap (λ ys. x ∷ ys) (set-last cs b c)

set_last-IsVector :
    (c : ℕ) (s : Vector ℕ) (cs : List ℕ) (b : ℕ)
    → IsVector s (cs ++ b ∷ [])
    → (s' : Vector ℕ) × ((set_last c s ≡ ok s') × IsVector s' (cs ++ c ∷ []))
set_last-IsVector c s cs b h =
    let len = length-snoc cs b in
    let last : s.size - 1 ≡ length cs = omega (arith, h.counted, len) in
    let some_values : ltb 0 s.size ≡ true = ground (arith, h.counted, len) in
    let (s', (e, r)) = assign-IsVector s (cs ++ b ∷ []) (length cs) c h (omega (arith, len)) in
    (
      s',
      (rw (some_values) (ap (λ i. assign i c s) last ∙ e), subst (IsVector s') (set-last cs b c) r),
    )

push_back_run :
    (c : ℕ) (s s' s2 : Vector ℕ)
    → set_last c s ≡ ok s'
    → emplace_back 0 s' ≡ ok s2
    → push_back c s ≡ ok s2
unfolding push_back
push_back_run c s s' s2 e k = ap (λ r. r >>= λ x. emplace_back 0 x) e ∙ k

-- `push_back` and `operator+=` of a character put it behind the others, and the 0 behind it.
push_back-IsString :
    (c : ℕ) (s : Vector ℕ) (cs : List ℕ)
    → IsString s cs
    → length cs + 1 < 2 ^ 30
    → (s' : Vector ℕ) × ((push_back c s ≡ ok s') × IsString s' (cs ++ c ∷ []))
push_back-IsString c s cs h bound =
    let (s', (e, r)) = set_last-IsVector c s cs 0 h in
    let (s2, (k, r2)) =
      emplace_back-IsVector 0 s' (cs ++ c ∷ []) r (omega (arith, bound, length-snoc cs c)) in
    (s2, (push_back_run c s s' s2 e k, r2))

pop_back_run :
    (s s' s2 : Vector ℕ)
    → ltb 0 (size s) ≡ true
    → Vector.pop_back s ≡ ok s'
    → set_last 0 s' ≡ ok s2
    → pop_back s ≡ ok s2
unfolding pop_back
pop_back_run s s' s2 some_values e k = rw (some_values) (ap (λ r. r >>= λ x. set_last 0 x) e ∙ k)

-- `pop_back` takes the last character away.
pop_back-IsString :
    (c : ℕ) (s : Vector ℕ) (cs : List ℕ)
    → IsString s (cs ++ c ∷ [])
    → (s' : Vector ℕ) × ((pop_back s ≡ ok s') × IsString s' cs)
pop_back-IsString c s cs h =
    let len = length-snoc (cs ++ c ∷ []) 0 in
    let some_values : ltb 0 (size s) ≡ true =
      ground (arith, h.counted, len, length-snoc cs c, h.fits, h.bounded) in
    let (s', (e, r)) = pop_back-IsVector 0 s (cs ++ c ∷ []) h in
    let (s2, (k, r2)) = set_last-IsVector 0 s' cs c r in
    (s2, (pop_back_run s s' s2 some_values e k, r2))
