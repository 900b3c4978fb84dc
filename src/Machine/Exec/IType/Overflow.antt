-- ===== src/Machine/Exec/IType/Overflow.antt =====
-- `AddImmediate`: the sum and its overflow.
use cs16mem_model_vm.Base.{
  ℕ, ◌≡◌, ◌≢◌, true, false, arith, ◌<◌, ◌≤◌, ◌^◌, ◌⊎◌, inl, inr, Bool-cases, update,
}
use cs16mem_model_vm.Base.Int.{ℤ, pos, negsuc, ◌+ℤ◌, to_signed, pos_part, neg_part}
use cs16mem_model_vm.Base.Words.{signed, unsigned, fits_int, extend16}
use cs16mem_model_vm.Machine.Trap.{ExceptionCode, plain, Result, ok, throw}
use cs16mem_model_vm.Machine.Isa.Instr.{GenericOp}
use cs16mem_model_vm.Machine.State.{Machine}
use cs16mem_model_vm.Machine.Exec.IType.{run_generic}

-- The immediate as a signed number of 16 bits.
abbrev pub immediate : ℕ → ℤ
immediate = to_signed (2 ^ 15)

signed-extend16 : (imm : ℕ) → imm < 2 ^ 16 → signed (extend16 imm) ≡ immediate imm
signed-extend16 imm h = ground arith

-- An integer that is an `int` is the value of its word.
signed-unsigned : (z : ℤ) → fits_int z ≡ true → signed (unsigned z) ≡ z
signed-unsigned (pos n) h = ground arith
signed-unsigned (negsuc n) h = ground arith

-- No word has an integer as its value that is not an `int`.
signed_ne : (z : ℤ) (v : ℕ) → fits_int z ≡ false → v < 2 ^ 32 → signed v ≢ z
signed_ne (pos n) v h l e = ground arith
signed_ne (negsuc n) v h l e = ground arith

signed-wrapped :
    (z : ℤ)
    → fits_int z ≡ false
    → pos_part z < 2 ^ 32
    → neg_part z ≤ 2 ^ 32
    → (signed (unsigned z) +ℤ pos (2 ^ 32) ≡ z) ⊎ (z +ℤ pos (2 ^ 32) ≡ signed (unsigned z))
signed-wrapped (pos n) h p q = inl (ground arith)
signed-wrapped (negsuc n) h p q = inr (ground arith)

unsigned-lt : (z : ℤ) → unsigned z < 2 ^ 32
unsigned-lt (pos n) = omega arith
unsigned-lt (negsuc n) = omega arith

-- What an addition with a sum does: rt gets the word whose value is the sum; or no word has that value,
-- and then it is the overflow exception, and rt gets the word that is off by 2^32. Nothing else changes.
pub data Adds (sum : ℤ) (rt : ℕ) (m : Machine) : Result (Unit {0}) × Machine → Type 0 where
  exact :
      (w : ℕ)
      → w < 2 ^ 32
      → signed w ≡ sum
      → Adds sum rt m (ok tt, record m { registers = update m.registers rt w })
  overflow :
      (w : ℕ)
      → w < 2 ^ 32
      → ((v : ℕ) → v < 2 ^ 32 → signed v ≢ sum)
      → (signed w +ℤ pos (2 ^ 32) ≡ sum) ⊎ (sum +ℤ pos (2 ^ 32) ≡ signed w)
      → Adds sum rt m
          (throw (plain ExceptionCode.overflow), record m { registers = update m.registers rt w })

sum_range :
    (a imm : ℕ)
    → a < 2 ^ 32
    → imm < 2 ^ 16
    → (pos_part (signed a +ℤ immediate imm) < 2 ^ 32)
      × (neg_part (signed a +ℤ immediate imm) ≤ 2 ^ 32)
sum_range a imm h l = (ground arith, ground arith)

-- `addi` of a register and an immediate of their widths: with the sum of their signed values in rt when
-- a word has that value, and else with the overflow exception, rt written all the same with the sum
-- that is off by 2^32; nothing else changes in the machine.
pub add_immediate-Adds :
    (rt rs imm : ℕ) (m : Machine)
    → m.registers rs < 2 ^ 32
    → imm < 2 ^ 16
    → Adds
        (signed (m.registers rs) +ℤ immediate imm)
        rt
        m
        (run_generic GenericOp.add_immediate rt rs imm m)
unfolding run_generic
add_immediate-Adds rt rs imm m word low =
    let z = signed (m.registers rs) +ℤ immediate imm in
    let ext = signed-extend16 imm low in
    elim (Bool-cases (fits_int z)) [
      | inl fits ↦ rw (ext, fits) (exact (unsigned z) (unsigned-lt z) (signed-unsigned z fits))
      | inr over ↦
          let (high, deep) = sum_range (m.registers rs) imm word low in
          rw (ext, over)
            (overflow (unsigned z) (unsigned-lt z) (λ v l. signed_ne z v over l)
              (signed-wrapped z over high deep))
    ]
