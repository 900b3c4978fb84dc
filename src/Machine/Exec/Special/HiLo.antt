-- ===== src/Machine/Exec/Special/HiLo.antt =====
-- The pair of words that `Multiply`, `MultiplyUnsigned`, `Divide` and `DivideUnsigned` leave in hi and lo.
use cs16mem_model_vm.Base.{ℕ, ◌+◌, ◌*◌, ◌/◌, ◌%◌, ◌<◌, ◌^◌, ◌≡◌, refl, false, ◌==◌, arith}
use native.Mathlib.Nat.{div-add-mod', mod-lt}
use cs16mem_model_vm.Base.Int.{◌*ℤ◌, of_signed}
use cs16mem_model_vm.Base.Words.{signed}
use cs16mem_model_vm.Machine.Trap.{ok}
use cs16mem_model_vm.Machine.Isa.Instr.{HlOp}
use cs16mem_model_vm.Machine.State.{Machine}
use cs16mem_model_vm.Machine.Exec.Special.{run_hl_op, operate}

not_zero : (n : ℕ) → 0 < n → (n == 0) ≡ false
not_zero n h = ground arith

halves : (n : ℕ) → n / 2 ^ 32 * 2 ^ 32 + n % 2 ^ 32 ≡ n
halves n = omega arith

-- hi and lo hold the 64-bit product: of the `int`s for `mult`, of the words for `multu`.
multiply_lem :
    (rs rt : ℕ) (m : Machine)
    → ((run_hl_op HlOp.multiply rs rt m).1.hi * 2 ^ 32 + (run_hl_op HlOp.multiply rs rt m).1.lo
        ≡ of_signed (2 ^ 64) (signed (m.registers rs) *ℤ signed (m.registers rt)))
      × ((run_hl_op HlOp.multiply_unsigned rs rt m).1.hi * 2 ^ 32
            + (run_hl_op HlOp.multiply_unsigned rs rt m).1.lo
          ≡ m.registers rs * m.registers rt % 2 ^ 64)
unfolding run_hl_op operate
multiply_lem rs rt m = (halves _, halves _)

-- `divu` with a divisor other than 0 does not crash; lo and hi are the quotient and the remainder.
divide_unsigned_lem :
    (rs rt : ℕ) (m : Machine)
    → 0 < m.registers rt
    → ((run_hl_op HlOp.divide_unsigned rs rt m).0 ≡ ok tt)
      × (((run_hl_op HlOp.divide_unsigned rs rt m).1.lo * m.registers rt
              + (run_hl_op HlOp.divide_unsigned rs rt m).1.hi
            ≡ m.registers rs)
          × ((run_hl_op HlOp.divide_unsigned rs rt m).1.hi < m.registers rt))
unfolding run_hl_op operate
divide_unsigned_lem rs rt m h =
    rw (not_zero (m.registers rt) h)
      (refl, (div-add-mod' (m.registers rs) (m.registers rt), mod-lt (m.registers rs) h))
