-- ===== src/Kernel/Scheduler/Order.antt =====
-- The order of the process ids in `MultiLevelQueue` of kernel/KernelObjects/Scheduler.cpp.
use cs16mem_model_vm.Base.{
  ℕ, zero, suc, ◌+◌, ◌-◌, ◌^◌, ◌<◌, ◌≡◌, refl, sym, ap, ◌∙◌, ◌⊎◌, inl, inr, none, some,
  some-injective, map, length-set, List, [], ◌∷◌, ◌++◌, length, length-append, get_elem?, set,
  get_elem?_of_lt, arith,
}
use mathlib.Core.List.{append_assoc, append-nil, reverse, reverse-cons}
use cs16mem_model_vm.Kernel.Scheduler.{
  num_levels, MultiLevelQueue, enqueue, take_front, dequeue, move_level, boost_levels, emptied,
  boost,
}

-- All process ids of the queue, in the order of their turns, and those of the levels before one.
abbrev pub turns : List (List ℕ) → List ℕ
turns [] = []
turns (l ∷ ls) = l ++ turns ls

abbrev pub turns_to : (priority : ℕ) → List (List ℕ) → List ℕ
turns_to priority [] = []
turns_to zero (l ∷ ls) = l
turns_to (suc p) (l ∷ ls) = l ++ turns_to p ls

abbrev pub turns_after : (priority : ℕ) → List (List ℕ) → List ℕ
turns_after priority [] = []
turns_after zero (l ∷ ls) = turns ls
turns_after (suc p) (l ∷ ls) = turns_after p ls

-- Three levels, and a size that is the number of process ids.
pub record IsValid (q : MultiLevelQueue) : Type 0 where
  pub three : length q.levels ≡ num_levels
  pub counted : q.size ≡ length (turns q.levels)

-- What the scan of the levels finds.
abbrev Front : List (List ℕ) → Type 0
Front ls =
    ((take_front ls ≡ none) × (turns ls ≡ []))
    ⊎ ((pid : ℕ) × ((ls' : List (List ℕ)) × ((take_front ls ≡ some (pid, ls'))
            × ((turns ls ≡ pid ∷ turns ls') × (length ls' ≡ length ls)))))

later : (ls : List (List ℕ)) → Front ls → Front ([] ∷ ls)
unfolding take_front
later ls (inl (e, t)) = inl (rw (take_front, e) refl, t)
later ls (inr (pid, (ls', (e, (t, n))))) =
    inr (pid, ([] ∷ ls', (rw (take_front, e) refl, (t, ap suc n))))

front : (ls : List (List ℕ)) → Front ls
unfolding take_front
front [] = inl (refl, refl)
front ([] ∷ ls) = later ls (front ls)
front ((p ∷ ps) ∷ ls) = inr (p, (ps ∷ ls, (refl, (refl, refl))))

-- `dequeue` returns the process id -1 and changes nothing when the queue is empty, and else hands out
-- the first of all turns: the front of the first level that is not empty.
pub dequeue_lem :
    (q : MultiLevelQueue)
    → IsValid q
    → ((q.size ≡ 0) × (dequeue q ≡ (2 ^ 32 - 1, q)))
      ⊎ ((pid : ℕ) × ((q' : MultiLevelQueue) × ((dequeue q ≡ (pid, q'))
              × ((turns q.levels ≡ pid ∷ turns q'.levels) × IsValid q'))))
unfolding dequeue
dequeue_lem q v = elim (front q.levels) [
  | inl (e, t) ↦ inl (v.counted ∙ ap length t, rw (dequeue, e) refl)
  | inr (pid, (ls, (e, (t, n)))) ↦ inr (
    pid,
    (
      record { levels = ls; size = q.size - 1 },
      (
        rw (dequeue, e) refl,
        (t, record { three = n ∙ v.three; counted = omega (arith, v.counted, ap length t) }),
      ),
    ),
  )
]

-- A process id at the end of the level `priority`.
turns-set :
    (ls : List (List ℕ)) (priority pid : ℕ) (level : List ℕ)
    → get_elem? ls priority ≡ some level
    → turns (set ls priority (level ++ pid ∷ []))
      ≡ turns_to priority ls ++ pid ∷ turns_after priority ls
turns-set [] priority pid level h = ground arith
turns-set (l ∷ ls) zero pid level h =
    append_assoc level (pid ∷ []) (turns ls)
    ∙ ap (λ t. t ++ pid ∷ turns ls) (sym (some-injective _ _ h))
turns-set (l ∷ ls) (suc priority) pid level h =
    ap (λ t. l ++ t) (turns-set ls priority pid level h)
    ∙ sym (append_assoc l (turns_to priority ls) (pid ∷ turns_after priority ls))

split_turns :
    (ls : List (List ℕ)) (priority : ℕ) → turns ls ≡ turns_to priority ls ++ turns_after priority ls
split_turns [] priority = refl
split_turns (l ∷ ls) zero = refl
split_turns (l ∷ ls) (suc priority) =
    ap (λ t. l ++ t) (split_turns ls priority)
    ∙ sym (append_assoc l (turns_to priority ls) (turns_after priority ls))

-- `enqueue` of a process with a priority below 3 succeeds; the process id comes after all that have
-- its priority or a better one, before all others, and nothing else moves.
pub enqueue_lem :
    (q : MultiLevelQueue) (priority pid : ℕ)
    → IsValid q
    → priority < num_levels
    → (q' : MultiLevelQueue) × ((enqueue (some (priority, pid)) q ≡ some q')
        × ((turns q.levels ≡ turns_to priority q.levels ++ turns_after priority q.levels)
            × ((turns q'.levels ≡ turns_to priority q.levels ++ pid ∷ turns_after priority q.levels)
                × IsValid q')))
unfolding enqueue
enqueue_lem q priority pid v h =
    let (level, e) = get_elem?_of_lt q.levels priority (omega (arith, v.three, h)) in
    let before = split_turns q.levels priority in
    let after = turns-set q.levels priority pid level e in
    (
      record { levels = set q.levels priority (level ++ pid ∷ []); size = q.size + 1 },
      (
        rw (enqueue, e) refl,
        (
          before,
          (
            after,
            record {
              three = length-set q.levels priority (level ++ pid ∷ []) ∙ v.three;
              counted = omega (
                arith,
                v.counted,
                ap length before,
                ap length after,
                length-append (turns_to priority q.levels) (turns_after priority q.levels),
                length-append (turns_to priority q.levels) (pid ∷ turns_after priority q.levels),
              );
            },
          ),
        ),
      ),
    )

move_level-reverse : (first level : List ℕ) → move_level first level ≡ first ++ reverse level
unfolding move_level
move_level-reverse first [] = sym (append-nil first)
move_level-reverse first (p ∷ ps) =
    ap (λ t. t ++ p ∷ []) (move_level-reverse first ps)
    ∙ append_assoc first (reverse ps) (p ∷ [])
    ∙ ap (λ t. first ++ t) (sym (reverse-cons p ps))

boost_levels-reverse :
    (first : List ℕ) (ls : List (List ℕ)) → boost_levels first ls ≡ first ++ turns (map reverse ls)
unfolding boost_levels
boost_levels-reverse first [] = sym (append-nil first)
boost_levels-reverse first (l ∷ ls) =
    boost_levels-reverse (move_level first l) ls
    ∙ ap (λ t. t ++ turns (map reverse ls)) (move_level-reverse first l)
    ∙ append_assoc first (reverse l) (turns (map reverse ls))

turns-emptied : (ls : List (List ℕ)) → turns (emptied ls) ≡ []
unfolding emptied
turns-emptied [] = refl
turns-emptied (l ∷ ls) = turns-emptied ls

length-emptied : (ls : List (List ℕ)) → length (emptied ls) ≡ length ls
unfolding emptied
length-emptied [] = refl
length-emptied (l ∷ ls) = ap suc (length-emptied ls)

length-reverse : (l : List ℕ) → length (reverse l) ≡ length l
length-reverse [] = refl
length-reverse (p ∷ ps) =
    omega
      (arith, ap length (reverse-cons p ps), length-append (reverse ps) (p ∷ []), length-reverse ps)

length-turns-reverse : (ls : List (List ℕ)) → length (turns (map reverse ls)) ≡ length (turns ls)
length-turns-reverse [] = refl
length-turns-reverse (l ∷ ls) = omega (
  arith,
  length-append (reverse l) (turns (map reverse ls)),
  length-append l (turns ls),
  length-reverse l,
  length-turns-reverse ls,
)

-- `boost` moves every process to the first level: behind those that are there, the other levels follow
-- in the order of their priorities, each of them reversed; and no process is lost.
pub boost_lem :
    (q : MultiLevelQueue) (first : List ℕ) (rest : List (List ℕ))
    → IsValid q
    → q.levels ≡ first ∷ rest
    → ((boost q).levels ≡ (first ++ turns (map reverse rest)) ∷ emptied rest)
      × ((turns (boost q).levels ≡ first ++ turns (map reverse rest)) × IsValid (boost q))
unfolding boost
boost_lem q first rest v e =
    let moved = boost_levels-reverse first rest in
    let order : boost_levels first rest ++ turns (emptied rest)
        ≡ first ++ turns (map reverse rest) =
      ap (λ t. boost_levels first rest ++ t) (turns-emptied rest)
      ∙ append-nil (boost_levels first rest)
      ∙ moved in
    rw (boost, e)
      (
        ap (λ t. t ∷ emptied rest) moved,
        (
          order,
          record {
            three = omega (arith, length-emptied rest, ap length e, v.three);
            counted = omega (
              arith,
              v.counted,
              ap length order,
              ap (λ ls. length (turns ls)) e,
              length-append first (turns rest),
              length-append first (turns (map reverse rest)),
              length-turns-reverse rest,
            );
          },
        ),
      )
