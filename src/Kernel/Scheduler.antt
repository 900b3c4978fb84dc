-- ===== src/Kernel/Scheduler.antt =====
-- `MultiLevelQueue` of kernel/KernelObjects/Scheduler.cpp. A level is the sequence of process ids of
-- its list, the front first.
pub mod Order
use cs16mem_model_vm.Base.{
  ℕ, zero, suc, ◌+◌, ◌-◌, ◌^◌, Bool, Option, none, some, List, [], ◌∷◌, ◌++◌, get_elem?, set,
  replicate, ltb, ◌==◌, if◌then◌else◌,
}

abbrev pub num_levels : ℕ
num_levels = 3

pub record MultiLevelQueue : Type 0 where
  pub levels : List (List ℕ)
  pub size : ℕ

-- `MultiLevelQueue()`
abbrev pub empty_queue : MultiLevelQueue
empty_queue = record { levels = replicate num_levels []; size = 0 }

-- `enqueue` of the guard of a process with a priority and a process id. `none` is a failed
-- assertion, or the null pointer of a guard that is not valid.
pub enqueue : Option (ℕ × ℕ) → MultiLevelQueue → Option MultiLevelQueue
enqueue none q = none
enqueue (some (priority, pid)) q = elim (get_elem? q.levels priority) [
  | none ↦ none
  | some level ↦
      some (record { levels = set q.levels priority (level ++ pid ∷ []); size = q.size + 1 })
]

-- The loop of `dequeue`: the front of the first level that is not empty.
pub take_front : List (List ℕ) → Option (ℕ × List (List ℕ))
take_front [] = none
take_front ([] ∷ ls) = elim (take_front ls) [ none ↦ none | some (pid, ls') ↦ some (pid, [] ∷ ls') ]
take_front ((pid ∷ ps) ∷ ls) = some (pid, ps ∷ ls)

-- `dequeue`, up to the guard of the process: the process id is -1 when all levels are empty.
pub dequeue : MultiLevelQueue → ℕ × MultiLevelQueue
dequeue q = elim (take_front q.levels) [
  | none ↦ (2 ^ 32 - 1, q)
  | some (pid, ls) ↦ (pid, record { levels = ls; size = q.size - 1 })
]

-- The inner loop of `boost` moves a level to the end of the first one, the back first.
pub move_level : (first level : List ℕ) → List ℕ
move_level first [] = first
move_level first (pid ∷ ps) = move_level first ps ++ pid ∷ []

pub boost_levels : (first : List ℕ) → (rest : List (List ℕ)) → List ℕ
boost_levels first [] = first
boost_levels first (l ∷ ls) = boost_levels (move_level first l) ls

pub emptied : List (List ℕ) → List (List ℕ)
emptied [] = []
emptied (l ∷ ls) = [] ∷ emptied ls

-- `boost`
pub boost : MultiLevelQueue → MultiLevelQueue
boost q = elim q.levels [ [] ↦ q | l ∷ ls ↦ record q { levels = boost_levels l ls ∷ emptied ls } ]

-- `empty()`
pub empty : MultiLevelQueue → Bool
empty q = q.size == 0
