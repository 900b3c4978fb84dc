-- ===== src/Kernel/Processes/Guards.antt =====
-- Guards and `freeProcess` of kernel/SharedResources/Process.cpp: what a guard that is dropped does to its
-- process.
use cs16mem_model_vm.Base.{
  ℕ, ◌+◌, ◌-◌, ◌%◌, ◌^◌, ◌<◌, ◌≡◌, ◌≢◌, ◌⊎◌, inl, inr, refl, ap, sym, ◌∙◌, subst, true, false, ◌&&◌,
  none, some, ◌==◌, get_elem?, set, arith, Bool-cases, ℕ_discrete, get_elem?-set_self,
  get_elem?-set_ne, lt_of_get_elem?,
}
use cs16mem_model_vm.Machine.Trap.{ok, ◌>>=◌}
use cs16mem_model_vm.Kernel.Processes.{
  ProcessState, Pcb, Processes, flatten, process_at, put, is_zombie, free_process, reset,
}
use cs16mem_model_vm.Kernel.Processes.Slots.{IsTable, Slot}
use cs16mem_model_vm.Kernel.Processes.Destructor.{Holds, Returned}
use cs16mem_model_vm.Kernel.Processes.Removal.{slot_of, free_process-IsTable}

-- The process of a slot is replaced by one with the same id.
put-IsTable :
    (s : Processes) (pid : ℕ) (p q : Pcb)
    → IsTable s
    → process_at s pid ≡ some p
    → q.pid ≡ pid
    → IsTable (put pid (some q) s) × Slot s (put pid (some q) s) pid (some q)
put-IsTable s pid p q t e own =
    let held = slot_of s pid p e in
    let self = get_elem?-set_self s.processes pid (some q) (lt_of_get_elem? s.processes pid held) in
    let other : (i : ℕ)
        → i ≢ pid
        → get_elem? (set s.processes pid (some q)) i ≡ get_elem? s.processes i =
      λ i d. get_elem?-set_ne s.processes pid i (some q) (λ same. d (sym same)) in
    (
      record {
        knows = λ i r f. elim (ℕ_discrete i pid) [
          | yes same ↦
              let there : some q ≡ some r =
                sym (ap flatten self)
                ∙ subst (λ n. process_at (put pid (some q) s) n ≡ some r) same f in
              cc
          | no n ↦ t.knows i r (sym (ap flatten (other i n)) ∙ f)
        ];
        listed = λ i f. elim (ℕ_discrete i pid) [
          | yes same ↦
              let there : some (some q) ≡ some none =
                sym self
                ∙ subst (λ n. get_elem? (set s.processes pid (some q)) n ≡ some none) same f in
              cc
          | no n ↦ t.listed i (sym (other i n) ∙ f)
        ];
        vacant = λ i a. elim (ℕ_discrete i pid) [
          | yes same ↦
              let there : some none ≡ some (some p) =
                sym (subst (λ n. get_elem? s.processes n ≡ some none) same (t.vacant i a)) ∙ held in
              cc
          | no n ↦ other i n ∙ t.vacant i a
        ];
        once = t.once;
      },
      record { self = ap flatten self; other = λ i d. ap flatten (other i d) },
    )

-- One guard less; the last guard of a zombie frees the process.
abbrev pub less : Pcb → Pcb
less p = record p { refcount = p.refcount - 1 }

kept_reset :
    (pid : ℕ) (p : Pcb) (s : Processes)
    → process_at s pid ≡ some p
    → 0 < p.refcount
    → p.refcount < 2 ^ 16
    → (is_zombie p.state && (p.refcount - 1) == 0) ≡ false
    → reset pid s ≡ ok (put pid (some (less p)) s)
unfolding reset
kept_reset pid p s e some_guard bound alive =
    let count : (p.refcount + (2 ^ 16 - 1)) % 2 ^ 16 ≡ p.refcount - 1 = omega arith in
    rw (e, count, alive, ◌>>=◌) refl

last_reset :
    (pid : ℕ) (p : Pcb) (s : Processes)
    → process_at s pid ≡ some p
    → 0 < p.refcount
    → p.refcount < 2 ^ 16
    → (is_zombie p.state && (p.refcount - 1) == 0) ≡ true
    → reset pid s ≡ free_process pid (put pid (some (less p)) s)
unfolding reset
last_reset pid p s e some_guard bound dead =
    let count : (p.refcount + (2 ^ 16 - 1)) % 2 ^ 16 ≡ p.refcount - 1 = omega arith in
    rw (e, count, dead, ◌>>=◌) refl

-- What a guard that goes leaves: the process with one guard less, or, when it was the last guard of a
-- zombie, an empty slot and its frames and identifier free again.
abbrev pub Left : (pid : ℕ) (p : Pcb) (s s' : Processes) → Type 0
Left pid p s s' =
    (((p.state ≢ ProcessState.zombie) ⊎ (1 < p.refcount))
      × ((s' ≡ put pid (some (less p)) s) × Slot s s' pid (some (less p))))
    ⊎ (((p.state ≡ ProcessState.zombie) × (p.refcount ≡ 1))
        × (Slot s s' pid none × Returned p s s'))

last_of_zombie :
    (st : ProcessState) (n : ℕ)
    → 0 < n
    → (is_zombie st && (n - 1) == 0) ≡ true
    → (st ≡ ProcessState.zombie) × (n ≡ 1)
last_of_zombie ProcessState.zombie n low e = (refl, ground arith)
last_of_zombie ProcessState.ready n low e = cc
last_of_zombie ProcessState.running n low e = cc
last_of_zombie ProcessState.blocked n low e = cc

not_last :
    (st : ProcessState) (n : ℕ)
    → 0 < n
    → (is_zombie st && (n - 1) == 0) ≡ false
    → (st ≢ ProcessState.zombie) ⊎ (1 < n)
not_last ProcessState.zombie n low e = inr (ground arith)
not_last ProcessState.ready n low e = inl (λ q. cc)
not_last ProcessState.running n low e = inl (λ q. cc)
not_last ProcessState.blocked n low e = inl (λ q. cc)

-- Dropping a guard of a process that has one, with a reference count of 16 bits, never fails an
-- assertion, and the table stays one. The process has one guard less; it is freed exactly when it is a
-- zombie and this was the last guard, and then its slot is empty, its frames and its identifier are free
-- again, and nothing else is.
pub reset-Left :
    (pid : ℕ) (p : Pcb) (s : Processes)
    → IsTable s
    → process_at s pid ≡ some p
    → 0 < p.refcount
    → p.refcount < 2 ^ 16
    → Holds p s
    → (s' : Processes) × ((reset pid s ≡ ok s') × (IsTable s' × Left pid p s s'))
reset-Left pid p s t e some_guard bound h =
    let own : p.pid ≡ pid = t.knows pid p e in
    let s' = put pid (some (less p)) s in
    let (t', slot) = put-IsTable s pid p (less p) t e own in
    elim (Bool-cases (is_zombie p.state && (p.refcount - 1) == 0)) [
      | inr alive ↦ (
        s',
        (
          kept_reset pid p s e some_guard bound alive,
          (t', inl (not_last p.state p.refcount some_guard alive, (refl, slot))),
        ),
      )
      | inl dead ↦
          let (state, one) = last_of_zombie p.state p.refcount some_guard dead in
          let h' : Holds (less p) s' = record {
            memory = h.memory;
            blocks = h.blocks;
            asid = h.asid;
            frames = h.frames;
          } in
          let (s2, (freed, ((t2, slot2), r))) =
            free_process-IsTable pid (less p) s' t' slot.self (omega (arith, one)) state h' in
          let gone : Slot s s2 pid none = record {
            self = slot2.self;
            other = λ i d. slot2.other i d ∙ slot.other i d;
          } in
          (
            s2,
            (
              last_reset pid p s e some_guard bound dead ∙ freed,
              (t2, inr ((state, one), (gone, record { memory = r.memory; asids = r.asids }))),
            ),
          )
    ]
