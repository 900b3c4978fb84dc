-- ===== src/Kernel/Vector/Slots.antt =====
-- The slots of a vector (kernel/kstl/Vector.h) and the sequence of values that they hold.
use mathlib.Core.List.{append-nil}
use cs16mem_model_vm.Base.{
  ℕ, zero, suc, ◌+◌, ◌-◌, ◌^◌, ◌≤◌, ◌≡◌, ◌∙◌, ap, sym, refl, true, Option, none, some, List, [],
  ◌∷◌, ◌++◌, ltb, get_elem?, set, length, arith, length-replicate,
}
use cs16mem_model_vm.Machine.Trap.{ok, ◌>>=◌}
use cs16mem_model_vm.Kernel.Vector.{Vector, raw, move_slots}

module _ {ℓ} {V : Type ℓ} where
  -- Slots that hold the values, and raw memory behind them.
  abbrev pub buffer : List V → ℕ → List (Option V)
  buffer [] spare = raw spare
  buffer (x ∷ xs) spare = some x ∷ buffer xs spare

  pub record IsVector (v : Vector V) (xs : List V) : Type ℓ where
    pub counted : v.size ≡ length xs
    pub fits : length xs ≤ v.capacity
    pub bounded : v.capacity ≤ 2 ^ 31
    pub held : v.slots ≡ buffer xs (v.capacity - length xs)

  pub length-buffer : (xs : List V) (spare : ℕ) → length (buffer xs spare) ≡ length xs + spare
  length-buffer [] spare = omega (arith, length-replicate {A = Option V} spare none)
  length-buffer (x ∷ xs) spare = omega (arith, length-buffer xs spare)

  -- A value in the first raw slot.
  pub set-buffer :
      (xs : List V) (x : V) (spare : ℕ)
      → set (buffer xs (suc spare)) (length xs) (some x) ≡ buffer (xs ++ x ∷ []) spare
  set-buffer [] x spare = refl
  set-buffer (y ∷ xs) x spare = ap (λ b. some y ∷ b) (set-buffer xs x spare)

  -- The last value gone.
  pub unset-buffer :
      (xs : List V) (x : V) (spare : ℕ)
      → set (buffer (xs ++ x ∷ []) spare) (length xs) none ≡ buffer xs (suc spare)
  unset-buffer [] x spare = refl
  unset-buffer (y ∷ xs) x spare = ap (λ b. some y ∷ b) (unset-buffer xs x spare)

  pub last-buffer :
      (xs : List V) (x : V) (spare : ℕ)
      → get_elem? (buffer (xs ++ x ∷ []) spare) (length xs) ≡ some (some x)
  last-buffer [] x spare = refl
  last-buffer (y ∷ xs) x spare = last-buffer xs x spare

  -- Raw slots before the values that are still to be moved.
  abbrev moved_from : ℕ → List V → ℕ → List (Option V)
  moved_from zero xs spare = buffer xs spare
  moved_from (suc n) xs spare = none ∷ moved_from n xs spare

  next_value :
      (n : ℕ) (x : V) (xs : List V) (spare : ℕ)
      → get_elem? (moved_from n (x ∷ xs) spare) n ≡ some (some x)
  next_value zero x xs spare = refl
  next_value (suc n) x xs spare = next_value n x xs spare

  next_gone :
      (n : ℕ) (x : V) (xs : List V) (spare : ℕ)
      → set (moved_from n (x ∷ xs) spare) n none ≡ moved_from (suc n) xs spare
  next_gone zero x xs spare = refl
  next_gone (suc n) x xs spare = ap (λ b. none ∷ b) (next_gone n x xs spare)

  move_step :
      (left i : ℕ) (old fresh : List (Option V)) (x : V)
      → get_elem? old i ≡ some (some x)
      → ltb i (length fresh) ≡ true
      → move_slots (suc left) i (old, fresh)
        ≡ move_slots left (i + 1) (set old i none, set fresh i (some x))
  unfolding move_slots
  move_step left i old fresh x e room = rw (e, room, ◌>>=◌) refl

  move_end :
      (i : ℕ) (buffers : List (Option V) × List (Option V)) → move_slots 0 i buffers ≡ ok buffers
  unfolding move_slots
  move_end i buffers = refl

  pub snoc-++ : (xs : List V) (x : V) (ys : List V) → (xs ++ x ∷ []) ++ ys ≡ xs ++ x ∷ ys
  snoc-++ [] x ys = refl
  snoc-++ (y ∷ xs) x ys = ap (λ zs. y ∷ zs) (snoc-++ xs x ys)

  pub length-snoc : (xs : List V) (x : V) → length (xs ++ x ∷ []) ≡ suc (length xs)
  length-snoc [] x = refl
  length-snoc (y ∷ xs) x = ap suc (length-snoc xs x)

  -- The loop of `reserve` after `done` were moved: it ends normally, with all values in the replacement.
  pub move_slots_lem :
      (xs done : List V) (spare extra : ℕ)
      → (old : List (Option V)) × (move_slots
            (length xs)
            (length done)
            (moved_from (length done) xs spare, buffer done (length xs + extra))
          ≡ ok (old, buffer (done ++ xs) extra))
  move_slots_lem [] done spare extra =
      let old = moved_from (length done) [] spare in
      let spare' : buffer done (0 + extra) ≡ buffer (done ++ []) extra =
        ap (buffer done) (omega arith) ∙ ap (λ zs. buffer zs extra) (sym (append-nil done)) in
      (old, move_end (length done) (old, buffer done (0 + extra)) ∙ ap (λ b. ok (old, b)) spare')
  move_slots_lem (x ∷ xs) done spare extra =
      let n = length done in
      let (old, e) = move_slots_lem xs (done ++ x ∷ []) spare extra in
      let old0 = moved_from n (x ∷ xs) spare in
      let fresh0 = buffer done (suc (length xs) + extra) in
      let next : suc (length xs) + extra ≡ suc (length xs + extra) = omega arith in
      let room : ltb n (length fresh0) ≡ true =
        ground (arith, length-buffer done (suc (length xs) + extra)) in
      let filled : set fresh0 n (some x) ≡ buffer (done ++ x ∷ []) (length xs + extra) =
        ap (λ k. set (buffer done k) n (some x)) next ∙ set-buffer done x (length xs + extra) in
      let gone : set old0 n none ≡ moved_from (length (done ++ x ∷ [])) xs spare =
        next_gone n x xs spare ∙ ap (λ k. moved_from k xs spare) (sym (length-snoc done x)) in
      let count : n + 1 ≡ length (done ++ x ∷ []) = omega (arith, length-snoc done x) in
      (
        old,
        move_step (length xs) n old0 fresh0 x (next_value n x xs spare) room
            ∙ ap (λ i. move_slots (length xs) i (set old0 n none, set fresh0 n (some x))) count
            ∙ ap (λ b. move_slots (length xs) (length (done ++ x ∷ [])) (b, set fresh0 n (some x)))
                gone
            ∙ ap
                (λ b.
                  move_slots (length xs) (length (done ++ x ∷ []))
                    (moved_from (length (done ++ x ∷ [])) xs spare, b))
                filled
            ∙ e
            ∙ ap (λ zs. ok (old, buffer zs extra)) (snoc-++ done x xs),
      )
