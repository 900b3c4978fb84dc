-- ===== src/Kernel/Vector/Resize.antt =====
-- `resize(count, value)` of kernel/kstl/Vector.h, against the sequence of values.
use mathlib.Core.List.{append-nil}
use cs16mem_model_vm.Base.{
  ℕ, zero, suc, ◌+◌, ◌-◌, ◌^◌, ◌<◌, ◌≤◌, ◌≡◌, ◌∙◌, ap, sym, refl, subst, true, false, List, [], ◌∷◌,
  ◌++◌, ltb, leb, length, replicate, inl, inr, arith, length-append, length-replicate, Bool-cases,
}
use cs16mem_model_vm.Machine.Trap.{ok, ◌>>=◌}
use cs16mem_model_vm.Kernel.Vector.{Vector, emplace_back, pop_back, shrink, extend, resize}
use cs16mem_model_vm.Kernel.Vector.Slots.{IsVector, length-snoc, snoc-++}
use cs16mem_model_vm.Kernel.Vector.Ends.{emplace_back-IsVector, pop_back-IsVector}

module _ {ℓ} {V : Type ℓ} where
  -- The first `count` values, or all when there are fewer.
  abbrev shortened : ℕ → List V → List V
  shortened zero xs = []
  shortened (suc n) [] = []
  shortened (suc n) (x ∷ xs) = x ∷ shortened n xs

  shortened_all : (n : ℕ) (xs : List V) → length xs ≤ n → shortened n xs ≡ xs
  shortened_all zero [] h = refl
  shortened_all zero (x ∷ xs) h = absurd (omega arith)
  shortened_all (suc n) [] h = refl
  shortened_all (suc n) (x ∷ xs) h = ap (λ ys. x ∷ ys) (shortened_all n xs (omega arith))

  shortened-snoc :
      (n : ℕ) (xs : List V) (x : V) → n ≤ length xs → shortened n (xs ++ x ∷ []) ≡ shortened n xs
  shortened-snoc zero xs x h = refl
  shortened-snoc (suc n) [] x h = absurd (omega arith)
  shortened-snoc (suc n) (y ∷ xs) x h = ap (λ ys. y ∷ ys) (shortened-snoc n xs x (omega arith))

  length-shortened : (n : ℕ) (xs : List V) → n ≤ length xs → length (shortened n xs) ≡ n
  length-shortened zero xs h = refl
  length-shortened (suc n) [] h = absurd (omega arith)
  length-shortened (suc n) (x ∷ xs) h = ap suc (length-shortened n xs (omega arith))

  snoc_of : (x : V) (xs : List V) → (ys : List V) × ((y : V) × (x ∷ xs ≡ ys ++ y ∷ []))
  snoc_of x [] = ([], (x, refl))
  snoc_of x (z ∷ xs) = let (ys, (y, e)) = snoc_of z xs in (x ∷ ys, (y, ap (λ zs. x ∷ zs) e))

  shrink_stop :
      (fuel count : ℕ) (v : Vector V) → ltb count v.size ≡ false → shrink fuel count v ≡ ok v
  unfolding shrink
  shrink_stop zero count v e = rw e refl
  shrink_stop (suc fuel) count v e = rw e refl

  shrink_step :
      (fuel count : ℕ) (v v' : Vector V)
      → ltb count v.size ≡ true
      → pop_back v ≡ ok v'
      → shrink (suc fuel) count v ≡ shrink fuel count v'
  unfolding shrink
  shrink_step fuel count v v' e p = rw (e, p, ◌>>=◌) refl

  shrink-IsVector :
      (fuel count : ℕ) (v : Vector V) (xs : List V)
      → IsVector v xs
      → length xs ≤ count + fuel
      → (v' : Vector V) × ((shrink fuel count v ≡ ok v') × IsVector v' (shortened count xs))
  shrink-IsVector fuel count v [] h enough = (
    v,
    (
      shrink_stop fuel count v (ground (arith, h.counted)),
      subst (IsVector v) (sym (shortened_all count [] (omega arith))) h,
    ),
  )
  shrink-IsVector zero count v (x ∷ xs) h enough = (
    v,
    (
      shrink_stop zero count v (ground (arith, h.counted, enough)),
      subst (IsVector v) (sym (shortened_all count (x ∷ xs) (omega (arith, enough)))) h,
    ),
  )
  shrink-IsVector (suc fuel) count v (x ∷ xs) h enough = elim (Bool-cases (ltb count v.size)) [
    | inl more ↦
        let (ys, (y, split)) = snoc_of x xs in
        let len : length (x ∷ xs) ≡ suc (length ys) = ap length split ∙ length-snoc ys y in
        let above : count < length (x ∷ xs) = ground (arith, more, h.counted) in
        let (v', (popped, r)) = pop_back-IsVector y v ys (subst (IsVector v) split h) in
        let (v2, (e, r2)) = shrink-IsVector fuel count v' ys r (omega (arith, enough, len)) in
        (
          v2,
          (
            shrink_step fuel count v v' more popped ∙ e,
            subst (IsVector v2)
                (sym (shortened-snoc count ys y (omega (arith, above, len)))
                  ∙ ap (shortened count) (sym split))
                r2,
          ),
        )
    | inr f ↦
        let all : length (x ∷ xs) ≤ count = ground (arith, f, h.counted) in
        (
          v,
          (
            shrink_stop (suc fuel) count v f,
            subst (IsVector v) (sym (shortened_all count (x ∷ xs) all)) h,
          ),
        )
  ]

  extend_stop :
      (fuel count : ℕ) (x : V) (v : Vector V)
      → ltb v.size count ≡ false
      → extend fuel count x v ≡ ok v
  unfolding extend
  extend_stop zero count x v e = rw e refl
  extend_stop (suc fuel) count x v e = rw e refl

  extend_step :
      (fuel count : ℕ) (x : V) (v v' : Vector V)
      → ltb v.size count ≡ true
      → emplace_back x v ≡ ok v'
      → extend (suc fuel) count x v ≡ extend fuel count x v'
  unfolding extend
  extend_step fuel count x v v' e p = rw (e, p, ◌>>=◌) refl

  extend-IsVector :
      (left extra : ℕ) (x : V) (v : Vector V) (xs : List V)
      → IsVector v xs
      → length xs + left < 2 ^ 30
      → (v' : Vector V) × ((extend (left + extra) (length xs + left) x v ≡ ok v')
          × IsVector v' (xs ++ replicate left x))
  extend-IsVector zero extra x v xs h bound = (
    v,
    (
      extend_stop (0 + extra) (length xs + 0) x v (ground (arith, h.counted)),
      subst (IsVector v) (sym (append-nil xs)) h,
    ),
  )
  extend-IsVector (suc left) extra x v xs h bound =
      let (v', (placed, r)) = emplace_back-IsVector x v xs h (omega (arith, bound)) in
      let len = length-snoc xs x in
      let (v2, (e, r2)) =
        extend-IsVector left extra x v' (xs ++ x ∷ []) r (omega (arith, bound, len)) in
      let fuel : suc left + extra ≡ suc (left + extra) = omega arith in
      let target : length xs + suc left ≡ length (xs ++ x ∷ []) + left = omega (arith, len) in
      (
        v2,
        (
          ap (λ f. extend f (length xs + suc left) x v) fuel
              ∙ extend_step (left + extra) (length xs + suc left) x v v' (ground (arith, h.counted))
                  placed
              ∙ ap (λ c. extend (left + extra) c x v') target
              ∙ e,
          subst (IsVector v2) (snoc-++ xs x (replicate left x)) r2,
        ),
      )

  kept_count : (count : ℕ) (xs : List V) → length (shortened count xs) + (count - length xs) ≡ count
  kept_count count xs = elim (Bool-cases (leb count (length xs))) [
    | inl t ↦
        let low : count ≤ length xs = ground (arith, t) in
        omega (arith, length-shortened count xs low, low)
    | inr f ↦
        let high : length xs ≤ count = ground (arith, f) in
        omega (arith, ap length (shortened_all count xs high), high)
  ]

  -- The values after a `resize`.
  abbrev pub resized : ℕ → V → List V → List V
  resized count x xs = shortened count xs ++ replicate (count - length xs) x

  pub length-resized : (count : ℕ) (x : V) (xs : List V) → length (resized count x xs) ≡ count
  length-resized count x xs = omega (
    arith,
    length-append (shortened count xs) (replicate (count - length xs) x),
    length-replicate (count - length xs) x,
    kept_count count xs,
  )

  resize_run :
      (fuel count : ℕ) (x : V) (v short long : Vector V)
      → shrink fuel count v ≡ ok short
      → extend fuel count x short ≡ ok long
      → resize fuel count x v ≡ ok long
  unfolding resize
  resize_run fuel count x v short long e k = rw (e, ◌>>=◌) k

  -- `resize` to fewer than 2^30 values ends normally, with as many rounds as the sizes differ by: the
  -- first values stay, the rest goes, and the missing ones are the given value.
  pub resize-IsVector :
      (fuel count : ℕ) (x : V) (v : Vector V) (xs : List V)
      → IsVector v xs
      → length xs ≤ count + fuel
      → count ≤ length xs + fuel
      → count < 2 ^ 30
      → (v' : Vector V) × ((resize fuel count x v ≡ ok v') × IsVector v' (resized count x xs))
  resize-IsVector fuel count x v xs h down up bound =
      let (short, (e, r)) = shrink-IsVector fuel count v xs h down in
      let kept = shortened count xs in
      let left = count - length xs in
      let len : length kept + left ≡ count = kept_count count xs in
      let (long, (k, r2)) =
        extend-IsVector left (fuel - left) x short kept r (omega (arith, len, bound)) in
      let rounds : left + (fuel - left) ≡ fuel = omega (arith, up) in
      (
        long,
        (
          resize_run fuel count x v short long e (
              ap (λ f. extend f count x short) (sym rounds)
              ∙ ap (λ c. extend (left + (fuel - left)) c x short) (sym len)
              ∙ k),
          r2,
        ),
      )
