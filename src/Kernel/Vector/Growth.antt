-- ===== src/Kernel/Vector/Growth.antt =====
-- `reserve`, `emplace_back` and `pop_back` of kernel/kstl/Vector.h, against the sequence of values.
use cs16mem_model_vm.Base.{
  ℕ, zero, suc, ◌+◌, ◌-◌, ◌%◌, ◌^◌, ◌<◌, ◌≤◌, ◌≡◌, ◌∙◌, ap, refl, true, false, Option, List, [],
  leb, ◌==◌, if◌then◌else◌, length, inl, inr, arith, Bool-cases,
}
use cs16mem_model_vm.Base.Bits.{bit_or-lt_pow, bit_or-ge}
use cs16mem_model_vm.Base.Words.{shr}
use cs16mem_model_vm.Machine.Trap.{ok, ◌>>=◌}
use cs16mem_model_vm.Kernel.Vector.{Vector, raw, smear, round_to_pow2, move_slots, reserve}
use cs16mem_model_vm.Kernel.Vector.Slots.{buffer, IsVector, move_slots_lem}

smear_lem : (x k : ℕ) → x < 2 ^ 31 → shr x k ≤ x → (x ≤ smear x k) × (smear x k < 2 ^ 31)
smear_lem x k h low = (bit_or-ge x (shr x k), bit_or-lt_pow 31 x (shr x k) h (omega (arith, low)))

-- A capacity for up to 2^31 values has room for them.
round_to_pow2_lem : (x : ℕ) → x ≤ 2 ^ 31 → (x ≤ round_to_pow2 x) × (round_to_pow2 x ≤ 2 ^ 31)
unfolding round_to_pow2
round_to_pow2_lem zero h = (omega arith, omega arith)
round_to_pow2_lem (suc y) h =
    let s1 = smear_lem y 1 (omega arith) (omega arith) in
    let y1 = smear y 1 in
    let s2 = smear_lem y1 2 s1.1 (omega arith) in
    let y2 = smear y1 2 in
    let s3 = smear_lem y2 4 s2.1 (omega arith) in
    let y3 = smear y2 4 in
    let s4 = smear_lem y3 8 s3.1 (omega arith) in
    let y4 = smear y3 8 in
    let s5 = smear_lem y4 16 s4.1 (omega arith) in
    let some_values : (suc y == 0) ≡ false = ground arith in
    let before : suc y - 1 ≡ y = omega arith in
    let small : (smear y4 16 + 1) % 2 ^ 32 ≡ smear y4 16 + 1 = omega (arith, s5.1) in
    rw (some_values, before, small)
      (omega (arith, s1.0, s2.0, s3.0, s4.0, s5.0), omega (arith, s5.1))

abbrev wanted : ℕ → ℕ
wanted count = if count == 0 then 1 else count

wanted_lem :
    (count : ℕ)
    → count ≤ 2 ^ 31
    → (count ≤ wanted count) × ((0 < wanted count) × (wanted count ≤ 2 ^ 31))
wanted_lem count h = (ground arith, (ground arith, ground arith))

module _ {ℓ} {V : Type ℓ} where
  reserve_kept :
      (count : ℕ) (v : Vector V) → leb (wanted count) v.capacity ≡ true → reserve count v ≡ ok v
  unfolding reserve
  reserve_kept count v e = rw e refl

  reserve_grown :
      (count : ℕ) (v : Vector V) (old fresh : List (Option V))
      → leb (wanted count) v.capacity ≡ false
      → move_slots v.size 0 (v.slots, raw (round_to_pow2 (wanted count))) ≡ ok (old, fresh)
      → reserve count v
        ≡ ok (record { slots = fresh; size = v.size; capacity = round_to_pow2 (wanted count) })
  unfolding reserve
  reserve_grown count v old fresh e moved = rw (e, moved, ◌>>=◌) refl

  -- `reserve` of up to 2^31 values ends normally, keeps the values, and leaves room for at least that
  -- many, and for one.
  pub reserve-IsVector :
      (count : ℕ) (v : Vector V) (xs : List V)
      → IsVector v xs
      → count ≤ 2 ^ 31
      → (v' : Vector V) × ((reserve count v ≡ ok v')
          × (IsVector v' xs × ((count ≤ v'.capacity) × (0 < v'.capacity))))
  reserve-IsVector count v xs h bound =
      let (above, (positive, low)) = wanted_lem count bound in
      elim (Bool-cases (leb (wanted count) v.capacity)) [
        | inl e ↦
            let room : wanted count ≤ v.capacity = ground (arith, e) in
            (
              v,
              (
                reserve_kept count v e,
                (h, (omega (arith, above, room), omega (arith, positive, room))),
              ),
            )
        | inr f ↦
            let capacity = round_to_pow2 (wanted count) in
            let (enough, small) = round_to_pow2_lem (wanted count) low in
            let room : v.capacity < wanted count = ground (arith, f) in
            let spare = capacity - length xs in
            let (old, moved) = move_slots_lem xs [] (v.capacity - length xs) spare in
            let count' : capacity ≡ length xs + spare = omega (arith, h.fits, room, enough) in
            let run : move_slots v.size 0 (v.slots, raw capacity) ≡ ok (old, buffer xs spare) =
              ap (λ n. move_slots n 0 (v.slots, raw capacity)) h.counted
              ∙ ap (λ b. move_slots (length xs) 0 (b, raw capacity)) h.held
              ∙ ap (λ k. move_slots (length xs) 0 (buffer xs (v.capacity - length xs), raw k))
                  count'
              ∙ moved in
            (
              record { slots = buffer xs spare; size = v.size; capacity = capacity },
              (
                reserve_grown count v old (buffer xs spare) f run,
                (
                  record {
                    counted = h.counted;
                    fits = omega (arith, count');
                    bounded = small;
                    held = refl;
                  },
                  (omega (arith, above, enough), omega (arith, positive, enough)),
                ),
              ),
            )
      ]
