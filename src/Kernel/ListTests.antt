-- ===== src/Kernel/ListTests.antt =====
-- The model of kernel/kstl/Queue.h on a list of three nodes.
use cs16mem_model_vm.Base.{
  ℕ, ◌≡◌, refl, none, some, List, [], ◌∷◌, ◌++◌, ◌==◌, if◌then◌else◌, arith,
}
use cs16mem_model_vm.Machine.Trap.{ok, crash, ◌>>=◌}
use cs16mem_model_vm.Kernel.LinkedList.{
  null, LinkedList, front, back, emplace_back, emplace_front, pop_back, pop_front, unlink, erase,
  delete_all, clear, shrink, extend, resize,
}
use cs16mem_model_vm.Kernel.LinkedList.Links.{IsChain}
use cs16mem_model_vm.Kernel.LinkedList.Ends.{IsList, emplace_back-IsList}
use cs16mem_model_vm.Kernel.LinkedList.Erase.{erase-IsChain}
use cs16mem_model_vm.Kernel.LinkedList.Clear.{Cleared, clear-IsList}

abbrev cells : List (ℕ × ℕ)
cells = (1, 7) ∷ (2, 8) ∷ (3, 9) ∷ []

abbrev three : LinkedList ℕ
three = record {
  nodes = λ a.
      if a == 1
      then some (record { prev = null; next = 2; value = 7 })
      else if a == 2
      then some (record { prev = 1; next = 3; value = 8 })
      else if a == 3
      then some (record { prev = 2; next = null; value = 9 })
      else none;
  fresh = 4;
  head = 1;
  tail = 3;
  size = 3;
}

three-IsList : IsList three cells
three-IsList = record {
  chain = record {
    starts = refl;
    ends = refl;
    linked = (refl, (refl, (refl, tt)));
    distinct = ground arith;
    live = (
      omega arith,
      (omega arith, (omega arith, (omega arith, (omega arith, (omega arith, tt))))),
    );
    some_address = omega arith;
  };
  counted = refl;
}

list_code : Unit {0}
unfolding front back emplace_back emplace_front pop_back pop_front unlink erase delete_all clear
    shrink extend resize
list_code = tt

front_value : front three ≡ ok 7
unfolding list_code
front_value = refl

back_value : back three ≡ ok 9
unfolding list_code
back_value = refl

-- After the erasure of the node in the middle the size is still 3.
middle_erased : (erase 2 three >>= λ r. ok r.1.size) ≡ ok 3
unfolding list_code
middle_erased = refl

-- Two nodes are left, and taking two away from the back follows the null pointer.
middle_erased_pops : (erase 2 three >>= λ r. pop_back r.1 >>= λ l. pop_back l) ≡ crash
unfolding list_code
middle_erased_pops = refl

-- `resize` to one node and to five.
shrunk : (resize 8 1 0 three >>= λ l. ok (l.head ∷ l.tail ∷ l.size ∷ [])) ≡ ok (1 ∷ 1 ∷ 1 ∷ [])
unfolding list_code
shrunk = refl

extended : (resize 8 5 0 three >>= λ l. ok (l.head ∷ l.tail ∷ l.size ∷ [])) ≡ ok (1 ∷ 5 ∷ 5 ∷ [])
unfolding list_code
extended = refl

emplace_back-IsList_example :
    (l' : LinkedList ℕ) × ((emplace_back 5 three ≡ ok l') × IsList l' (cells ++ (4, 5) ∷ []))
emplace_back-IsList_example = emplace_back-IsList 5 three cells three-IsList (omega arith)

erase-IsChain_example :
    (l' : LinkedList ℕ) × ((erase 2 three ≡ ok (3, l'))
      × (IsChain l' ((1, 7) ∷ (3, 9) ∷ []) × (l'.size ≡ 3)))
erase-IsChain_example = erase-IsChain three ((1, 7) ∷ []) 2 8 ((3, 9) ∷ []) three-IsList

clear-IsList_example :
    (l' : LinkedList ℕ) × ((clear 4 three ≡ ok l') × (IsList l' [] × Cleared cells three l'))
clear-IsList_example = clear-IsList three cells three-IsList
