-- ===== src/Kernel/Processes/Slots.antt =====
-- The slots of `ProcessManager` in kernel/SharedResources/Process.cpp: which are empty, and what a new and
-- a freed process do to them.
use cs16mem_model_vm.Base.{
  ℕ, zero, suc, ◌<◌, ◌≡◌, ◌≢◌, ◌⊎◌, inl, inr, refl, ap, sym, ◌∙◌, subst, Option, none, some, List,
  [], ◌∷◌, ◌++◌, get_elem?, set, length, Among, Distinct, arith, Option-cases, ℕ_discrete,
  get_elem?-set_self, get_elem?-set_ne, get_elem?-append_self, get_elem?-append_ne, get_elem?_past,
  lt_of_get_elem?,
}
use cs16mem_model_vm.Machine.Trap.{ok}
use cs16mem_model_vm.Kernel.Processes.{Pcb, Processes, flatten, process_at, drop_last, last, place}

-- The table of processes: each process knows its slot, and the free ids are the empty slots, each once.
pub record IsTable (s : Processes) : Type 0 where
  pub knows : (i : ℕ) (p : Pcb) → process_at s i ≡ some p → p.pid ≡ i
  pub listed : (i : ℕ) → get_elem? s.processes i ≡ some none → Among i s.free_pids
  pub vacant : (i : ℕ) → Among i s.free_pids → get_elem? s.processes i ≡ some none
  pub once : Distinct s.free_pids

module _ {ℓ} {A : Type ℓ} where
  pub length-drop_last : (x : A) (xs : List A) → suc (length (drop_last (x ∷ xs))) ≡ length (x ∷ xs)
  length-drop_last x [] = refl
  length-drop_last x (y ∷ xs) = ap suc (length-drop_last y xs)

  pub get_elem?-drop_last :
      (xs : List A) (i : ℕ) → suc i < length xs → get_elem? (drop_last xs) i ≡ get_elem? xs i
  get_elem?-drop_last [] i h = refl
  get_elem?-drop_last (x ∷ []) i h = absurd (omega arith)
  get_elem?-drop_last (x ∷ y ∷ xs) zero h = refl
  get_elem?-drop_last (x ∷ y ∷ xs) (suc i) h = get_elem?-drop_last (y ∷ xs) i (omega arith)

Among-last : (x : ℕ) (xs : List ℕ) → last xs ≡ some x → Among x xs
Among-last x [] e = cc
Among-last x (y ∷ []) e = inl (ground arith)
Among-last x (y ∷ z ∷ xs) e = inr (Among-last x (z ∷ xs) e)

Among-drop_last : (i : ℕ) (xs : List ℕ) → Among i (drop_last xs) → Among i xs
Among-drop_last i [] h = h
Among-drop_last i (y ∷ []) h = absurd h
Among-drop_last i (y ∷ z ∷ xs) (inl e) = inl e
Among-drop_last i (y ∷ z ∷ xs) (inr h) = inr (Among-drop_last i (z ∷ xs) h)

drop_last-Distinct : (xs : List ℕ) → Distinct xs → Distinct (drop_last xs)
drop_last-Distinct [] d = tt
drop_last-Distinct (y ∷ []) d = tt
drop_last-Distinct (y ∷ z ∷ xs) d =
    (λ h. d.0 (Among-drop_last y (z ∷ xs) h), drop_last-Distinct (z ∷ xs) d.1)

last-not-Among : (x : ℕ) (xs : List ℕ) → last xs ≡ some x → Distinct xs → ¬ Among x (drop_last xs)
last-not-Among x [] e d h = h
last-not-Among x (y ∷ []) e d h = h
last-not-Among x (y ∷ z ∷ xs) e d (inl q) =
    d.0 (subst (λ n. Among n (z ∷ xs)) q (Among-last x (z ∷ xs) e))
last-not-Among x (y ∷ z ∷ xs) e d (inr h) = last-not-Among x (z ∷ xs) e d.1 h

Among-kept :
    (i x : ℕ) (xs : List ℕ) → last xs ≡ some x → i ≢ x → Among i xs → Among i (drop_last xs)
Among-kept i x [] e n h = h
Among-kept i x (y ∷ []) e n h = ground arith
Among-kept i x (y ∷ z ∷ xs) e n (inl q) = inl q
Among-kept i x (y ∷ z ∷ xs) e n (inr h) = inr (Among-kept i x (z ∷ xs) e n h)

pub Among-append : (i x : ℕ) (xs : List ℕ) → Among i (xs ++ x ∷ []) → Among i xs ⊎ (i ≡ x)
Among-append i x [] (inl e) = inr e
Among-append i x [] (inr h) = absurd h
Among-append i x (y ∷ xs) (inl e) = inl (inl e)
Among-append i x (y ∷ xs) (inr h) = ground (arith, Among-append i x xs h)

pub append-Among : (i x : ℕ) (xs : List ℕ) → Among i xs ⊎ (i ≡ x) → Among i (xs ++ x ∷ [])
append-Among i x [] (inl h) = absurd h
append-Among i x [] (inr e) = inl e
append-Among i x (y ∷ xs) (inl (inl e)) = inl e
append-Among i x (y ∷ xs) (inl (inr h)) = inr (append-Among i x xs (inl h))
append-Among i x (y ∷ xs) (inr e) = inr (append-Among i x xs (inr e))

pub append-Distinct : (x : ℕ) (xs : List ℕ) → Distinct xs → ¬ Among x xs → Distinct (xs ++ x ∷ [])
append-Distinct x [] d n = (λ h. h, tt)
append-Distinct x (y ∷ xs) d n = (
  λ h. elim (Among-append y x xs h) [ inl q ↦ d.0 q | inr e ↦ n (inl (sym e)) ],
  append-Distinct x xs d.1 (λ h. n (inr h)),
)

last-none : (xs : List ℕ) → last xs ≡ none → xs ≡ []
last-none [] e = refl
last-none (y ∷ []) e = cc
last-none (y ∷ z ∷ xs) e = ground (arith, last-none (z ∷ xs) e)

-- The slot of an id holds a process, or none; the other slots are as they were.
pub record Slot (s s' : Processes) (pid : ℕ) (o : Option Pcb) : Type 0 where
  pub self : process_at s' pid ≡ o
  pub other : (i : ℕ) → i ≢ pid → process_at s' i ≡ process_at s i

-- A table stays one when an empty slot, or a new one, is filled and its id is no longer free.
filled :
    (s s' : Processes) (pid : ℕ) (p : Pcb)
    → IsTable s
    → p.pid ≡ pid
    → get_elem? s'.processes pid ≡ some (some p)
    → ((i : ℕ) → i ≢ pid → get_elem? s'.processes i ≡ get_elem? s.processes i)
    → ((i : ℕ) → i ≢ pid → Among i s.free_pids → Among i s'.free_pids)
    → ((i : ℕ) → Among i s'.free_pids → (i ≢ pid) × Among i s.free_pids)
    → Distinct s'.free_pids
    → IsTable s'
filled s s' pid p t own self other kept was once = record {
  knows = λ i q e. elim (ℕ_discrete i pid) [
    | yes same ↦
        let held : some p ≡ some q =
          sym (ap flatten self) ∙ subst (λ n. process_at s' n ≡ some q) same e in
        cc
    | no n ↦ t.knows i q (sym (ap flatten (other i n)) ∙ e)
  ];
  listed = λ i e. elim (ℕ_discrete i pid) [
    | yes same ↦
        let held : some (some p) ≡ some none =
          sym self ∙ subst (λ n. get_elem? s'.processes n ≡ some none) same e in
        cc
    | no n ↦ kept i n (t.listed i (sym (other i n) ∙ e))
  ];
  vacant = λ i a. let (n, b) = was i a in other i n ∙ t.vacant i b;
  once = once;
}

-- A new process goes to an empty slot, or to a new one at the end; it knows its id, no other slot
-- changes, and the free ids stay the empty slots. The memory manager, the address space
-- identifiers and physical memory stay.
pub place-IsTable :
    (p : Pcb) (s : Processes)
    → IsTable s
    → (pid : ℕ) × ((s' : Processes) × ((place p s ≡ ok (pid, s'))
          × ((process_at s pid ≡ none)
              × ((Slot s s' pid (some (record p { pid = pid })) × IsTable s')
                  × ((s'.memory ≡ s.memory)
                      × ((s'.reserved_asids ≡ s.reserved_asids) × (s'.physical ≡ s.physical)))))))
unfolding place
place-IsTable p s t = elim (Option-cases (last s.free_pids)) [
  | inl e ↦
      let n = length s.processes in
      let q = record p { pid = n } in
      let s' = record s { processes = s.processes ++ some q ∷ [] } in
      let self = get_elem?-append_self s.processes (some q) in
      let other : (i : ℕ) → i ≢ n → get_elem? s'.processes i ≡ get_elem? s.processes i =
        get_elem?-append_ne s.processes (some q) in
      (
        n,
        (
          s',
          (
            rw (place, e) refl,
            (
              ap flatten (get_elem?_past s.processes n (omega arith)),
              (
                (
                  record { self = ap flatten self; other = λ i d. ap flatten (other i d) },
                  filled s s' n q t refl self other (λ i d a. a)
                      (λ i a. (
                        λ same. omega (arith, lt_of_get_elem? s.processes i (t.vacant i a), same),
                        a,
                      ))
                      t.once,
                ),
                (refl, (refl, refl)),
              ),
            ),
          ),
        ),
      )
  | inr (pid, e) ↦
      let empty = t.vacant pid (Among-last pid s.free_pids e) in
      let q = record p { pid = pid } in
      let s' = record s {
        processes = set s.processes pid (some q);
        free_pids = drop_last s.free_pids;
      } in
      let self =
        get_elem?-set_self s.processes pid (some q) (lt_of_get_elem? s.processes pid empty) in
      let other : (i : ℕ) → i ≢ pid → get_elem? s'.processes i ≡ get_elem? s.processes i =
        λ i d. get_elem?-set_ne s.processes pid i (some q) (λ same. d (sym same)) in
      (
        pid,
        (
          s',
          (
            rw (place, e, empty) refl,
            (
              ap flatten empty,
              (
                (
                  record { self = ap flatten self; other = λ i d. ap flatten (other i d) },
                  filled s s' pid q t refl self other (λ i d. Among-kept i pid s.free_pids e d)
                      (λ i a. (
                        λ same.
                            last-not-Among pid s.free_pids e t.once
                              (subst (λ n. Among n (drop_last s.free_pids)) same a),
                        Among-drop_last i s.free_pids a,
                      ))
                      (drop_last-Distinct s.free_pids t.once),
                ),
                (refl, (refl, refl)),
              ),
            ),
          ),
        ),
      )
]
