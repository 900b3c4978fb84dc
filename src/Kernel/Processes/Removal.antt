-- ===== src/Kernel/Processes/Removal.antt =====
-- `freeProcess` of kernel/SharedResources/Process.cpp: the slot of a process that is freed.
use cs16mem_model_vm.Base.{
  ℕ, ◌+◌, ◌-◌, ◌<◌, ◌≤◌, ◌≡◌, ◌≢◌, ◌⊎◌, inl, inr, refl, ap, sym, ◌∙◌, subst, true, false, ◌&&◌,
  Option, none, some, List, [], ◌∷◌, ◌++◌, ◌==◌, if◌then◌else◌, get_elem?, length, Among, Distinct,
  arith, Bool-cases, ℕ_discrete, get_elem?-set_self, get_elem?-set_ne, get_elem?_past,
  lt_of_get_elem?,
}
use cs16mem_model_vm.Machine.Trap.{ok, ◌>>=◌}
use cs16mem_model_vm.Kernel.Processes.{
  ProcessState, Pcb, Processes, flatten, process_at, put, is_zombie, drop_last, free_process,
}
use cs16mem_model_vm.Kernel.Processes.Slots.{
  IsTable, Slot, get_elem?-drop_last, length-drop_last, Among-append, append-Among, append-Distinct,
}
use cs16mem_model_vm.Kernel.Processes.Destructor.{
  frames, pages_of, Freed, Holds, Returned, destroy-Returned,
}
use cs16mem_model_vm.Kernel.Bitset.Laws.{Written}

-- A slot that holds a process, as the vector has it.
pub slot_of :
    (s : Processes) (pid : ℕ) (p : Pcb)
    → process_at s pid ≡ some p
    → get_elem? s.processes pid ≡ some (some p)
slot_of s pid p e = by_slot (get_elem? s.processes pid) e
  where
    by_slot : (o : Option (Option Pcb)) → flatten o ≡ some p → o ≡ some (some p)
    by_slot none e = cc
    by_slot (some none) e = cc
    by_slot (some (some q)) e = ap some e

-- A table stays one when the process of a slot goes, and the id of the slot is free if the slot stays.
emptied :
    (s s' : Processes) (pid : ℕ) (p : Pcb)
    → IsTable s
    → get_elem? s.processes pid ≡ some (some p)
    → process_at s' pid ≡ none
    → ((i : ℕ) → i ≢ pid → get_elem? s'.processes i ≡ get_elem? s.processes i)
    → (get_elem? s'.processes pid ≡ some none → Among pid s'.free_pids)
    → ((i : ℕ) → Among i s.free_pids → Among i s'.free_pids)
    → ((i : ℕ)
        → Among i s'.free_pids
        → Among i s.free_pids ⊎ ((i ≡ pid) × (get_elem? s'.processes pid ≡ some none)))
    → Distinct s'.free_pids
    → IsTable s' × Slot s s' pid none
emptied s s' pid p t held gone other kept more was once = (
  record {
    knows = λ i q e. elim (ℕ_discrete i pid) [
      | yes same ↦
          let there : none ≡ some q = sym gone ∙ subst (λ n. process_at s' n ≡ some q) same e in cc
      | no n ↦ t.knows i q (sym (ap flatten (other i n)) ∙ e)
    ];
    listed = λ i e. elim (ℕ_discrete i pid) [
      | yes same ↦
          subst (λ n. Among n s'.free_pids) (sym same)
            (kept (subst (λ n. get_elem? s'.processes n ≡ some none) same e))
      | no n ↦ more i (t.listed i (sym (other i n) ∙ e))
    ];
    vacant = λ i a. elim (was i a) [
      | inl before ↦ other i (λ same. distinct i same before) ∙ t.vacant i before
      | inr (same, now) ↦ subst (λ n. get_elem? s'.processes n ≡ some none) (sym same) now
    ];
    once = once;
  },
  record { self = gone; other = λ i d. ap flatten (other i d) },
)
  where
    distinct : (i : ℕ) → i ≡ pid → Among i s.free_pids → ⊥
    distinct i same a =
        let there : some none ≡ some (some p) =
          sym (subst (λ n. get_elem? s.processes n ≡ some none) same (t.vacant i a)) ∙ held in
        cc

drop_last_past :
    (xs : List (Option Pcb)) (pid : ℕ) → pid + 1 ≡ length xs → get_elem? (drop_last xs) pid ≡ none
drop_last_past [] pid e = absurd (omega arith)
drop_last_past (x ∷ xs) pid e =
    get_elem?_past (drop_last (x ∷ xs)) pid (omega (arith, length-drop_last x xs, e))

drop_last_other :
    (xs : List (Option Pcb)) (pid i : ℕ)
    → pid + 1 ≡ length xs
    → i ≢ pid
    → get_elem? (drop_last xs) i ≡ get_elem? xs i
drop_last_other [] pid i e n = refl
drop_last_other (x ∷ xs) pid i e n = elim (ltb_cases (i + 1) (length (x ∷ xs))) [
  | inl low ↦ get_elem?-drop_last (x ∷ xs) i (omega arith)
  | inr high ↦
      get_elem?_past (drop_last (x ∷ xs)) i (omega (arith, length-drop_last x xs, n, e))
      ∙ sym (get_elem?_past (x ∷ xs) i (omega (arith, n, e)))
]
  where
    ltb_cases : (a b : ℕ) → (a < b) ⊎ (b ≤ a)
    ltb_cases a b = ground arith

-- The slot of a freed process, without what its destructor does.
abbrev removed : ℕ → Processes → Processes
removed pid s =
    if pid == length s.processes - 1
    then record s { processes = drop_last s.processes }
    else record (put pid none s) { free_pids = s.free_pids ++ pid ∷ [] }

removed-IsTable :
    (s : Processes) (pid : ℕ) (p : Pcb)
    → IsTable s
    → get_elem? s.processes pid ≡ some (some p)
    → IsTable (removed pid s) × Slot s (removed pid s) pid none
removed-IsTable s pid p t held = elim (Bool-cases (pid == length s.processes - 1)) [
  | inl e ↦
      let top : pid + 1 ≡ length s.processes = ground (arith, e, low) in
      let s' = record s { processes = drop_last s.processes } in
      subst (λ r. IsTable r × Slot s r pid none) (sym (chosen e))
        (emptied s s' pid p t held (ap flatten (drop_last_past s.processes pid top))
          (λ i n. drop_last_other s.processes pid i top n)
          (λ f. absurd (differs (drop_last_past s.processes pid top) f)) (λ i a. a) (λ i a. inl a)
          t.once)
  | inr e ↦
      let s' = record (put pid none s) { free_pids = s.free_pids ++ pid ∷ [] } in
      let now = get_elem?-set_self s.processes pid none low in
      subst (λ r. IsTable r × Slot s r pid none) (sym (chosen_not e))
        (emptied s s' pid p t held (ap flatten now)
          (λ i n. get_elem?-set_ne s.processes pid i none (λ same. n (sym same)))
          (λ f. append-Among pid pid s.free_pids (inr refl))
          (λ i a. append-Among i pid s.free_pids (inl a))
          (λ i a. elim (Among-append i pid s.free_pids a) [
            | inl b ↦ inl b
            | inr same ↦ inr (same, now)
          ])
          (append-Distinct pid s.free_pids t.once (λ a. unlisted (t.vacant pid a) held)))
]
  where
    low : pid < length s.processes
    low = lt_of_get_elem? s.processes pid held

    differs : {o : Option (Option Pcb)} → o ≡ none → o ≡ some none → ⊥
    differs e f = cc

    unlisted : {o : Option (Option Pcb)} → o ≡ some none → o ≡ some (some p) → ⊥
    unlisted e f = cc

    chosen :
        (pid == length s.processes - 1) ≡ true
        → removed pid s ≡ record s { processes = drop_last s.processes }
    chosen e = rw e refl

    chosen_not :
        (pid == length s.processes - 1) ≡ false
        → removed pid s ≡ record (put pid none s) { free_pids = s.free_pids ++ pid ∷ [] }
    chosen_not e = rw e refl

removed_rest :
    (s : Processes) (pid : ℕ)
    → ((removed pid s).memory ≡ s.memory) × ((removed pid s).reserved_asids ≡ s.reserved_asids)
removed_rest s pid = elim (Bool-cases (pid == length s.processes - 1)) [
  | inl e ↦ rw e (refl, refl)
  | inr e ↦ rw e (refl, refl)
]

-- A zombie without guards is freed: its slot is empty, the table stays one, and its frames and its
-- identifier are free again.
pub free_process-IsTable :
    (pid : ℕ) (p : Pcb) (s : Processes)
    → IsTable s
    → process_at s pid ≡ some p
    → p.refcount ≡ 0
    → p.state ≡ ProcessState.zombie
    → Holds p s
    → (s' : Processes) × ((free_process pid s ≡ ok s')
        × ((IsTable s' × Slot s s' pid none) × Returned p s s'))
unfolding free_process
free_process-IsTable pid p s t e count state h =
    let (asids, (m, (d, r))) = destroy-Returned p s h in
    let dead : (p.refcount == 0 && is_zombie p.state) ≡ true = rw (count, state) refl in
    let s' = record s { reserved_asids = asids; memory = m } in
    let t' : IsTable s' = record {
      knows = t.knows;
      listed = t.listed;
      vacant = t.vacant;
      once = t.once;
    } in
    let (table, slot) = removed-IsTable s' pid p t' (slot_of s pid p e) in
    let (same_memory, same_asids) = removed_rest s' pid in
    (
      removed pid s',
      (
        rw (e, dead, d, ◌>>=◌) refl,
        (
          (table, record { self = slot.self; other = slot.other }),
          record {
            memory =
                subst (λ n. Freed s.memory n (frames (pages_of p.page_table))) (sym same_memory)
                  r.memory;
            asids = subst (λ b. Written s.reserved_asids b p.asid false) (sym same_asids) r.asids;
          },
        ),
      ),
    )
