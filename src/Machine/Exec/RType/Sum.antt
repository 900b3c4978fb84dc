-- ===== src/Machine/Exec/RType/Sum.antt =====
-- `Add` and `Subtract`: where the result goes.
use cs16mem_model_vm.Base.{ℕ, ◌≡◌, ◌≢◌, refl, eqb_refl, Bool-cases, inl, inr, arith}
use cs16mem_model_vm.Base.Int.{◌+ℤ◌}
use cs16mem_model_vm.Base.Words.{signed, unsigned, fits_int}
use cs16mem_model_vm.Machine.Isa.Instr.{VariableOp}
use cs16mem_model_vm.Machine.State.{Machine}
use cs16mem_model_vm.Machine.Exec.RType.{run_variable, operate}

-- `add rd, rs, rt` with rd other than rt: the sum goes to rt, and rd keeps what it held.
add_writes_rt :
    (rd rt rs : ℕ) (m : Machine)
    → rd ≢ rt
    → ((run_variable VariableOp.add rd rt rs m).1.registers rt
        ≡ unsigned (signed (m.registers rs) +ℤ signed (m.registers rt)))
      × ((run_variable VariableOp.add rd rt rs m).1.registers rd ≡ m.registers rd)
unfolding run_variable operate
add_writes_rt rd rt rs m n =
    elim (Bool-cases (fits_int (signed (m.registers rs) +ℤ signed (m.registers rt)))) [
      | inl e ↦ rw (e, eqb_refl rt) (refl, ground arith)
      | inr e ↦ rw (e, eqb_refl rt) (refl, ground arith)
    ]
