-- ===== src/Machine/Trap.antt =====
-- `Hardware::Trap` of machine/Processors.h, and the result of an operation that may throw one.
use cs16mem_model_vm.Base.{ℕ, Bool, ◌≡◌, refl, if◌then◌else◌}

-- `Trap::ExceptionCode`.
pub data ExceptionCode : Type 0 where
  interrupt tlb_mod tlb_l tlb_s addrl addrs syscall break ri : ExceptionCode
  cp_unusable overflow trap fp_exc watch : ExceptionCode

-- The enumerators' values, which `setCause` writes to the cause register.
abbrev pub code_of : ExceptionCode → ℕ
code_of ExceptionCode.interrupt = 0
code_of ExceptionCode.tlb_mod = 1
code_of ExceptionCode.tlb_l = 2
code_of ExceptionCode.tlb_s = 3
code_of ExceptionCode.addrl = 4
code_of ExceptionCode.addrs = 5
code_of ExceptionCode.syscall = 8
code_of ExceptionCode.break = 9
code_of ExceptionCode.ri = 10
code_of ExceptionCode.cp_unusable = 11
code_of ExceptionCode.overflow = 12
code_of ExceptionCode.trap = 13
code_of ExceptionCode.fp_exc = 15
code_of ExceptionCode.watch = 23

-- `struct Trap`.
pub record Trap : Type 0 where
  pub code : ExceptionCode
  pub bad_addr : ℕ

-- `Trap(code)`: the address defaults to 0.
abbrev pub plain : ExceptionCode → Trap
plain c = record { code = c; bad_addr = 0 }

-- What an operation that may throw ends in: an uncaught trap, its value, or a crash of the
-- emulator (a failed `assert`, an exception of another type, or an access for which C++ gives no
-- meaning).
pub data Result {ℓ} (Value : Type ℓ) : Type ℓ where
  throw : Trap → Result Value
  ok : Value → Result Value
  crash : Result Value

-- `assert(b)`, and a bounds check that the C++ leaves to the caller.
abbrev pub require : Bool → Result (Unit {0})
require b = if b then ok tt else crash

-- Statement after statement: the first trap or crash ends the chain.
infixl 5 ◌>>=◌ ◌>>◌
abbrev pub ◌>>=◌ {ℓ κ} :
    {Value : Type ℓ} {Next : Type κ} → Result Value → (Value → Result Next) → Result Next
throw uncaught >>= next = throw uncaught
crash >>= next = crash
ok value >>= next = next value

abbrev pub ◌>>◌ {ℓ} : {Next : Type ℓ} → Result (Unit {0}) → Result Next → Result Next
first >> next = first >>= λ _. next

-- Inversion: when a chain has a value, its first statement had one.
pub >>=-eq-ok {ℓ κ} :
    {Value : Type ℓ} {Next : Type κ} (next : Value → Result Next) (first : Result Value)
    {last : Next}
    → (first >>= next) ≡ ok last
    → (value : Value) × (next value ≡ ok last) × (first ≡ ok value)
>>=-eq-ok next (throw uncaught) has_value = cc
>>=-eq-ok next crash has_value = cc
>>=-eq-ok next (ok value) has_value = (value, has_value, refl)
