-- ===== src/Kernel/Tests.antt =====
-- The kernel's model on small inputs.
use cs16mem_model_vm.Base.{
  ℕ, ◌+◌, ◌-◌, ◌*◌, ◌%◌, ◌^◌, ◌≡◌, refl, ◌⊎◌, inl, inr, true, false, none, some, List, [], ◌∷◌,
  ◌++◌, map, replicate, set, ℕ_discrete, arith,
}
use mathlib.Core.List.{reverse}
use cs16mem_model_vm.Machine.Trap.{ok}
use cs16mem_model_vm.Machine.Tlb
use cs16mem_model_vm.Machine.Tlb.{LookupType, store, from_words, empty_entry}
use cs16mem_model_vm.Kernel.Bitset.{test, change, set_bit, count}
use cs16mem_model_vm.Kernel.Bitset.Count.{all_ones, count_lem}
use cs16mem_model_vm.Kernel.Frames.{
  num_pages, MemoryManager, reserve_first, reserve_frame, free_frame,
}
use cs16mem_model_vm.Kernel.Frames.Laws.{AllTaken, Taken, reserve_frame_lem}
use cs16mem_model_vm.Kernel.Frames.Laws
use cs16mem_model_vm.Kernel.Frames.History.{Use, begin, reserve, free, Sound, use-Sound}
use cs16mem_model_vm.Kernel.Pages.{
  Entry, to_tlb_entry, tlb_entry, translate, map_kernel, kernel_entry,
}
use cs16mem_model_vm.Kernel.Pages.Refill.{refill_translates}
use cs16mem_model_vm.Kernel.Scheduler.{MultiLevelQueue, enqueue, dequeue, boost, emptied}
use cs16mem_model_vm.Kernel.Scheduler.Order
use cs16mem_model_vm.Kernel.Scheduler.Order.{
  turns, turns_to, turns_after, dequeue_lem, enqueue_lem, boost_lem,
}

frame_code : Unit {0}
unfolding ℕ_discrete test change set_bit reserve_first reserve_frame free_frame
frame_code = tt

page_code : Unit {0}
unfolding frame_code map_kernel translate tlb_entry to_tlb_entry
page_code = tt

count_lem_example : count (5 ∷ 2 ∷ []) ≡ some (all_ones (5 ∷ 2 ∷ []))
count_lem_example = count_lem (5 ∷ 2 ∷ []) (omega arith, (omega arith, tt))

-- A memory manager whose kernel takes two frames.
abbrev start : MemoryManager
start = record { reserved_pages = replicate 40 0; kernel_reserved_boundary = 2 }

start-IsValid : Laws.IsValid start
start-IsValid = record { blocks = refl; boundary = omega arith }

abbrev one_frame : MemoryManager
one_frame = record { reserved_pages = 4 ∷ replicate 39 0; kernel_reserved_boundary = 2 }

abbrev two_frames : MemoryManager
two_frames = record { reserved_pages = 12 ∷ replicate 39 0; kernel_reserved_boundary = 2 }

abbrev second_frame : MemoryManager
second_frame = record { reserved_pages = 8 ∷ replicate 39 0; kernel_reserved_boundary = 2 }

reserve_frame_lem_example :
    ((reserve_frame one_frame ≡ none) × AllTaken one_frame.reserved_pages 2 num_pages)
    ⊎ ((i : ℕ) × ((m' : MemoryManager) × ((reserve_frame one_frame ≡ some (i * 4096, m'))
            × ((m'.kernel_reserved_boundary ≡ 2)
                × Taken one_frame.reserved_pages m'.reserved_pages 2 num_pages i))))
reserve_frame_lem_example =
    reserve_frame_lem one_frame (record { blocks = refl; boundary = omega arith })

-- Two frames are handed out and the first is given back.
abbrev history : Use start second_frame (12288 ∷ [])
unfolding frame_code
history =
    free {owned = 12288 ∷ 8192 ∷ []} 8192 (reserve (reserve begin refl) refl) (inr (inl refl)) refl

use-Sound_example : Sound 2 second_frame (12288 ∷ [])
use-Sound_example = use-Sound start second_frame (12288 ∷ []) start-IsValid history

-- A user page on the frame 7, and its refill into the slot 1.
abbrev user_page : Entry
user_page = record { pfn = 7; global = false; writable = true; user = true; present = true }

refill_translates_example :
    Tlb.translate
      (set
        (empty_entry ∷ empty_entry ∷ [])
        1
        (from_words (to_tlb_entry user_page 0x400 3).hi (to_tlb_entry user_page 0x400 3).lo))
      0x400123
      store
      3
    ≡ ok (7 % 2 ^ 20 * 2 ^ 12 + 0x400123 % 2 ^ 12)
unfolding page_code
refill_translates_example =
    refill_translates (empty_entry ∷ empty_entry ∷ []) 1 0x400123 3 store user_page
      (to_tlb_entry user_page 0x400 3) (omega arith) (omega arith) (omega arith) (omega arith) refl
      ((λ a. ground (arith, a)), ((λ a. ground (arith, a)), tt)) refl

abbrev kernel_table : List Entry
kernel_table = kernel_entry 2 ∷ kernel_entry 3 ∷ []

abbrev queue : MultiLevelQueue
queue = record { levels = [] ∷ (4 ∷ 5 ∷ []) ∷ (6 ∷ []) ∷ []; size = 3 }

queue-IsValid : Order.IsValid queue
queue-IsValid = record { three = refl; counted = refl }

dequeue_lem_example :
    ((queue.size ≡ 0) × (dequeue queue ≡ (2 ^ 32 - 1, queue)))
    ⊎ ((pid : ℕ) × ((q' : MultiLevelQueue) × ((dequeue queue ≡ (pid, q'))
            × ((turns queue.levels ≡ pid ∷ turns q'.levels) × Order.IsValid q'))))
dequeue_lem_example = dequeue_lem queue queue-IsValid

enqueue_lem_example :
    (q' : MultiLevelQueue) × ((enqueue (some (1, 9)) queue ≡ some q')
      × ((turns queue.levels ≡ turns_to 1 queue.levels ++ turns_after 1 queue.levels)
          × ((turns q'.levels ≡ turns_to 1 queue.levels ++ 9 ∷ turns_after 1 queue.levels)
              × Order.IsValid q')))
enqueue_lem_example = enqueue_lem queue 1 9 queue-IsValid (omega arith)

boost_lem_example :
    ((boost queue).levels
      ≡ ([] ++ turns (map reverse ((4 ∷ 5 ∷ []) ∷ (6 ∷ []) ∷ [])))
        ∷ emptied ((4 ∷ 5 ∷ []) ∷ (6 ∷ []) ∷ []))
    × ((turns (boost queue).levels ≡ [] ++ turns (map reverse ((4 ∷ 5 ∷ []) ∷ (6 ∷ []) ∷ [])))
        × Order.IsValid (boost queue))
boost_lem_example = boost_lem queue [] ((4 ∷ 5 ∷ []) ∷ (6 ∷ []) ∷ []) queue-IsValid refl
