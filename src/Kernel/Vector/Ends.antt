-- ===== src/Kernel/Vector/Ends.antt =====
-- `emplace_back` and `pop_back` of kernel/kstl/Vector.h, against the sequence of values.
use cs16mem_model_vm.Base.{
  suc, ◌+◌, ◌-◌, ◌*◌, ◌%◌, ◌^◌, ◌<◌, ◌≤◌, ◌≡◌, ◌∙◌, ap, refl, true, false, Option, none, some, List,
  [], ◌∷◌, ◌++◌, ltb, ◌==◌, get_elem?, set, length, inl, inr, arith, Bool-cases,
}
use cs16mem_model_vm.Machine.Trap.{ok, ◌>>=◌}
use cs16mem_model_vm.Kernel.Vector.{
  Vector, growth_factor, construct_at, reserve, emplace_back, pop_back,
}
use cs16mem_model_vm.Kernel.Vector.Slots.{
  buffer, IsVector, length-buffer, set-buffer, unset-buffer, last-buffer, length-snoc,
}
use cs16mem_model_vm.Kernel.Vector.Growth.{reserve-IsVector}

module _ {ℓ} {V : Type ℓ} where
  placed :
      (x : V) (v : Vector V) (xs : List V)
      → IsVector v xs
      → length xs < v.capacity
      → (slots : List (Option V)) × ((construct_at v.size x v.slots ≡ ok slots)
          × IsVector (record v { slots = slots; size = (v.size + 1) % 2 ^ 32 }) (xs ++ x ∷ []))
  placed x v xs h room =
      let spare = v.capacity - length xs - 1 in
      let count : v.capacity - length xs ≡ suc spare = omega (arith, room) in
      let slots : v.slots ≡ buffer xs (suc spare) = h.held ∙ ap (buffer xs) count in
      let low : ltb (length xs) (length (buffer xs (suc spare))) ≡ true =
        ground (arith, length-buffer xs (suc spare)) in
      let filled = set-buffer xs x spare in
      let spare' : spare ≡ v.capacity - length (xs ++ x ∷ []) = omega (arith, length-snoc xs x) in
      (
        buffer (xs ++ x ∷ []) spare,
        (
          ap (λ n. construct_at n x v.slots) h.counted
              ∙ ap (construct_at (length xs) x) slots
              ∙ rw (low) (ap ok filled),
          record {
            counted = omega (arith, h.counted, length-snoc xs x, room, h.bounded);
            fits = omega (arith, length-snoc xs x, room);
            bounded = h.bounded;
            held = ap (buffer (xs ++ x ∷ [])) spare';
          },
        ),
      )

  run_full :
      (x : V) (v room : Vector V) (slots : List (Option V))
      → (v.size == v.capacity) ≡ true
      → reserve (v.capacity * growth_factor % 2 ^ 32) v ≡ ok room
      → construct_at room.size x room.slots ≡ ok slots
      → emplace_back x v ≡ ok (record room { slots = slots; size = (room.size + 1) % 2 ^ 32 })
  unfolding emplace_back
  run_full x v room slots full e k =
      rw (full, e, ◌>>=◌)
        (ap (λ r. r >>= λ s. ok (record room { slots = s; size = (room.size + 1) % 2 ^ 32 })) k)

  run_free :
      (x : V) (v : Vector V) (slots : List (Option V))
      → (v.size == v.capacity) ≡ false
      → construct_at v.size x v.slots ≡ ok slots
      → emplace_back x v ≡ ok (record v { slots = slots; size = (v.size + 1) % 2 ^ 32 })
  unfolding emplace_back
  run_free x v slots free_slot k =
      rw (free_slot)
        (ap (λ r. r >>= λ s. ok (record v { slots = s; size = (v.size + 1) % 2 ^ 32 })) k)

  -- `emplace_back` of a vector with fewer than 2^30 values ends normally and puts the value behind them,
  -- whether the buffer grows first or not, from no capacity too.
  pub emplace_back-IsVector :
      (x : V) (v : Vector V) (xs : List V)
      → IsVector v xs
      → length xs < 2 ^ 30
      → (v' : Vector V) × ((emplace_back x v ≡ ok v') × IsVector v' (xs ++ x ∷ []))
  emplace_back-IsVector x v xs h bound = elim (Bool-cases (v.size == v.capacity)) [
    | inl full ↦
        let same : v.size ≡ v.capacity = ground (arith, full) in
        let wanted : v.capacity * growth_factor % 2 ^ 32 ≤ 2 ^ 31 =
          omega (arith, same, h.counted, bound) in
        let (room, (e, (r, (more, positive)))) =
          reserve-IsVector (v.capacity * growth_factor % 2 ^ 32) v xs h wanted in
        let left : length xs < room.capacity =
          omega (arith, same, h.counted, bound, more, positive) in
        let (slots, (k, r')) = placed x room xs r left in
        (
          record room { slots = slots; size = (room.size + 1) % 2 ^ 32 },
          (run_full x v room slots full e k, r'),
        )
    | inr free_slot ↦
        let left : length xs < v.capacity = ground (arith, free_slot, h.counted, h.fits) in
        let (slots, (k, r')) = placed x v xs h left in
        (
          record v { slots = slots; size = (v.size + 1) % 2 ^ 32 },
          (run_free x v slots free_slot k, r'),
        )
  ]

  pop_run :
      (x : V) (v : Vector V)
      → ltb 0 v.size ≡ true
      → get_elem? v.slots (v.size - 1) ≡ some (some x)
      → pop_back v ≡ ok (record v { slots = set v.slots (v.size - 1) none; size = v.size - 1 })
  unfolding pop_back
  pop_run x v some_values e = rw (some_values, e, ◌>>=◌) refl

  -- `pop_back` of a vector with a value ends normally and takes the last one away.
  pub pop_back-IsVector :
      (x : V) (v : Vector V) (xs : List V)
      → IsVector v (xs ++ x ∷ [])
      → (v' : Vector V) × ((pop_back v ≡ ok v') × IsVector v' xs)
  pop_back-IsVector x v xs h =
      let n = length xs in
      let spare = v.capacity - length (xs ++ x ∷ []) in
      let last : v.size - 1 ≡ n = omega (arith, h.counted, length-snoc xs x) in
      let there : get_elem? v.slots (v.size - 1) ≡ some (some x) =
        ap (get_elem? v.slots) last ∙ ap (λ b. get_elem? b n) h.held ∙ last-buffer xs x spare in
      let gone : set v.slots (v.size - 1) none ≡ buffer xs (suc spare) =
        ap (λ i. set v.slots i none) last
        ∙ ap (λ b. set b n none) h.held
        ∙ unset-buffer xs x spare in
      let spare' : suc spare ≡ v.capacity - n = omega (arith, h.fits, length-snoc xs x) in
      (
        record v { slots = set v.slots (v.size - 1) none; size = v.size - 1 },
        (
          pop_run x v (ground (arith, h.counted, length-snoc xs x)) there,
          record {
            counted = last;
            fits = omega (arith, h.fits, length-snoc xs x);
            bounded = h.bounded;
            held = gone ∙ ap (buffer xs) spare';
          },
        ),
      )
