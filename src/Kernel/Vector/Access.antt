-- ===== src/Kernel/Vector/Access.antt =====
-- `operator[]` of kernel/kstl/Vector.h, read and assigned to, against the sequence of values.
use cs16mem_model_vm.Base.{
  ℕ, zero, suc, ◌-◌, ◌<◌, ◌≡◌, ◌∙◌, ap, sym, refl, true, some, List, [], ◌∷◌, ltb, get_elem?, set,
  length, arith, lt_of_get_elem?, get_elem?_of_lt, length-set,
}
use cs16mem_model_vm.Machine.Trap.{ok, ◌>>=◌}
use cs16mem_model_vm.Kernel.Vector.{Vector, value_at, at, assign}
use cs16mem_model_vm.Kernel.Vector.Slots.{buffer, IsVector}

module _ {ℓ} {V : Type ℓ} where
  get_elem?-buffer :
      (xs : List V) (spare i : ℕ) (x : V)
      → get_elem? xs i ≡ some x
      → get_elem? (buffer xs spare) i ≡ some (some x)
  get_elem?-buffer [] spare i x e = cc
  get_elem?-buffer (y ∷ xs) spare zero x e = ap some e
  get_elem?-buffer (y ∷ xs) spare (suc i) x e = get_elem?-buffer xs spare i x e

  set-buffer_at :
      (xs : List V) (spare i : ℕ) (y : V)
      → i < length xs
      → set (buffer xs spare) i (some y) ≡ buffer (set xs i y) spare
  set-buffer_at [] spare i y h = absurd (omega arith)
  set-buffer_at (x ∷ xs) spare zero y h = refl
  set-buffer_at (x ∷ xs) spare (suc i) y h =
      ap (λ b. some x ∷ b) (set-buffer_at xs spare i y (omega arith))

  in_slot :
      (v : Vector V) (xs : List V) (i : ℕ) (x : V)
      → IsVector v xs
      → get_elem? xs i ≡ some x
      → get_elem? v.slots i ≡ some (some x)
  in_slot v xs i x h e =
      ap (λ b. get_elem? b i) h.held ∙ get_elem?-buffer xs (v.capacity - length xs) i x e

  pub at-IsVector :
      (v : Vector V) (xs : List V) (i : ℕ) (x : V)
      → IsVector v xs
      → get_elem? xs i ≡ some x
      → at v i ≡ ok x
  unfolding at
  at-IsVector v xs i x h e =
      let inside : ltb i v.size ≡ true = ground (arith, h.counted, lt_of_get_elem? xs i e) in
      rw (inside, value_at, in_slot v xs i x h e, ◌>>=◌) refl

  pub assign-IsVector :
      (v : Vector V) (xs : List V) (i : ℕ) (y : V)
      → IsVector v xs
      → i < length xs
      → (v' : Vector V) × ((assign i y v ≡ ok v') × IsVector v' (set xs i y))
  unfolding assign
  assign-IsVector v xs i y h low =
      let (x, e) = get_elem?_of_lt xs i low in
      let inside : ltb i v.size ≡ true = ground (arith, h.counted, low) in
      let same : length (set xs i y) ≡ length xs = length-set xs i y in
      (
        record v { slots = set v.slots i (some y) },
        (
          rw (inside, value_at, in_slot v xs i x h e, ◌>>=◌) refl,
          record {
            counted = h.counted ∙ sym same;
            fits = omega (arith, h.fits, same);
            bounded = h.bounded;
            held =
                ap (λ b. set b i (some y)) h.held
                ∙ set-buffer_at xs (v.capacity - length xs) i y low
                ∙ ap (λ n. buffer (set xs i y) (v.capacity - n)) (sym same);
          },
        ),
      )
