-- ===== src/Kernel/LinkedList.antt =====
-- `ministl::list` of kernel/kstl/Queue.h: a doubly linked list on a store of nodes. An address is a
-- number, 0 is the null pointer, and `new` hands out addresses that were not used before.
pub mod Links
pub mod Ends
pub mod Front
pub mod Back
pub mod Unlink
pub mod Erase
pub mod Clear
use cs16mem_model_vm.Base.{
  ℕ, zero, suc, ◌+◌, ◌-◌, ◌%◌, ◌^◌, Bool, true, false, Option, none, some, List, [], ◌∷◌, ltb, ◌==◌,
  if◌then◌else◌, update,
}
use cs16mem_model_vm.Machine.Trap.{Result, ok, crash, require, ◌>>=◌, ◌>>◌}

-- `Node`
pub record Node {ℓ} (V : Type ℓ) : Type ℓ where
  pub prev : ℕ
  pub next : ℕ
  pub value : V

abbrev pub null : ℕ
null = 0

-- The store with the address of the next `new`, and the fields of `list`.
pub record LinkedList {ℓ} (V : Type ℓ) : Type ℓ where
  pub nodes : ℕ → Option (Node V)
  pub fresh : ℕ
  pub head : ℕ
  pub tail : ℕ
  pub size : ℕ

module _ {ℓ} {V : Type ℓ} where
  -- An access through a pointer that is null or whose node is gone has no meaning.
  abbrev pub deref : ℕ → LinkedList V → Result (Node V)
  deref a l = elim (l.nodes a) [ none ↦ crash | some n ↦ ok n ]

  abbrev pub store : ℕ → Option (Node V) → LinkedList V → LinkedList V
  store a n l = record l { nodes = update l.nodes a n }

  abbrev pub next_of : ℕ → LinkedList V → Result ℕ
  next_of a l = do n ← deref a l; ok n.next

  abbrev pub prev_of : ℕ → LinkedList V → Result ℕ
  prev_of a l = do n ← deref a l; ok n.prev

  -- `a->next = to` and `a->prev = to`
  abbrev pub set_next : (a to : ℕ) → LinkedList V → Result (LinkedList V)
  set_next a to l = do n ← deref a l; ok (store a (some (record n { next = to })) l)

  abbrev pub set_prev : (a to : ℕ) → LinkedList V → Result (LinkedList V)
  set_prev a to l = do n ← deref a l; ok (store a (some (record n { prev = to })) l)

  -- `new Node(value)`; its address is `fresh` of the list before.
  abbrev pub new_node : V → LinkedList V → LinkedList V
  new_node v l =
      let s = store l.fresh (some (record { prev = null; next = null; value = v })) l in
      record s { fresh = l.fresh + 1 }

  -- `delete a`
  abbrev pub delete : ℕ → LinkedList V → Result (LinkedList V)
  delete a l = if a == null then ok l else (deref a l >>= λ _. ok (store a none l))

  abbrev pub more : LinkedList V → ℕ
  more l = (l.size + 1) % 2 ^ 32

  unfoldable pub front : LinkedList V → Result V
  front l = do n ← deref l.head l; ok n.value

  unfoldable pub back : LinkedList V → Result V
  back l = do n ← deref l.tail l; ok n.value

  abbrev pub first_node : V → LinkedList V → LinkedList V
  first_node v l =
      let s = new_node v l in record s { head = l.fresh; tail = l.fresh; size = more l }

  unfoldable pub emplace_back : V → LinkedList V → Result (LinkedList V)
  emplace_back v l = if l.size == 0 then ok (first_node v l) else (do
    linked ← set_next l.tail l.fresh (new_node v l)
    n ← next_of l.tail linked
    back_linked ← set_prev n l.tail linked
    ok (record back_linked { tail = n; size = more l }))

  unfoldable pub emplace_front : V → LinkedList V → Result (LinkedList V)
  emplace_front v l = if l.size == 0 then ok (first_node v l) else (do
    linked ← set_prev l.head l.fresh (new_node v l)
    n ← prev_of l.head linked
    front_linked ← set_next n l.head linked
    ok (record front_linked { head = n; size = more l }))

  -- The only node goes.
  abbrev pub pop_only : ℕ → LinkedList V → Result (LinkedList V)
  pop_only a l = do gone ← delete a l; ok (record gone { head = null; tail = null; size = 0 })

  unfoldable pub pop_back : LinkedList V → Result (LinkedList V)
  pop_back l =
      require (ltb 0 l.size)
      >> (if l.size == 1 then pop_only l.tail l else (do
        before ← prev_of l.tail l
        last ← next_of before l
        gone ← delete last l
        cut ← set_next before null gone
        ok (record cut { tail = before; size = l.size - 1 })))

  unfoldable pub pop_front : LinkedList V → Result (LinkedList V)
  pop_front l =
      require (ltb 0 l.size)
      >> (if l.size == 1 then pop_only l.head l else (do
        after ← next_of l.head l
        first ← prev_of after l
        gone ← delete first l
        cut ← set_prev after null gone
        ok (record cut { head = after; size = l.size - 1 })))

  -- The last four lines of `erase`: `_size` stays.
  unfoldable pub unlink : ℕ → LinkedList V → Result (ℕ × LinkedList V)
  unlink pos l = do
    n ← deref pos l
    forward ← set_next n.prev n.next l
    n' ← deref pos forward
    linked ← set_prev n'.next n'.prev forward
    ret ← next_of pos linked
    gone ← delete pos linked
    ok (ret, gone)

  -- `erase(pos)`: the iterator after the node, and the list.
  unfoldable pub erase : ℕ → LinkedList V → Result (ℕ × LinkedList V)
  erase pos l =
      if pos == null
      then ok (null, l)
      else if l.size == 1
      then (do gone ← delete pos (record l { head = null; tail = null; size = 0 }); ok (null, gone))
      else if pos == l.head
      then (do l' ← pop_front l; ok (l'.head, l'))
      else if pos == l.tail
      then (do l' ← pop_back l; ok (null, l'))
      else unlink pos l

  -- The loop of `clear` from `it` on. A crash when it has not ended in `fuel` rounds.
  unfoldable pub delete_all : (fuel it : ℕ) → LinkedList V → Result (LinkedList V)
  delete_all zero it l = crash
  delete_all (suc fuel) it l =
      if it == null
      then ok l
      else (next_of it l >>= λ temp. delete it l >>= λ gone. delete_all fuel temp gone)

  unfoldable pub clear : (fuel : ℕ) → LinkedList V → Result (LinkedList V)
  clear fuel l = do
    gone ← delete_all fuel l.head l
    ok (record gone { head = null; tail = null; size = 0 })

  -- The loops of `resize(count, value)`, with a bound on their rounds.
  unfoldable pub shrink : (fuel count : ℕ) → LinkedList V → Result (LinkedList V)
  shrink zero count l = if ltb count l.size then crash else ok l
  shrink (suc fuel) count l =
      if ltb count l.size then (pop_back l >>= λ l'. shrink fuel count l') else ok l

  unfoldable pub extend : (fuel count : ℕ) → V → LinkedList V → Result (LinkedList V)
  extend zero count v l = if ltb l.size count then crash else ok l
  extend (suc fuel) count v l =
      if ltb l.size count then (emplace_back v l >>= λ l'. extend fuel count v l') else ok l

  unfoldable pub resize : (fuel count : ℕ) → V → LinkedList V → Result (LinkedList V)
  resize fuel count v l = do short ← shrink fuel count l; extend fuel count v short
