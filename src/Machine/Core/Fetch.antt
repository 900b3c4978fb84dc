-- ===== src/Machine/Core/Fetch.antt =====
-- The fetch of `Core::cycle` in machine/Processors.cpp through the instruction cache.
use cs16mem_model_vm.Base.{
  ℕ, ◌≡◌, ◌≢◌, refl, sym, ap, ◌∙◌, ◌⊎◌, Option, none, some, some-injective, List, [], ◌∷◌, length,
  ◌==◌, ℕ_discrete, inl, inr, Option-cases, Bool-cases, arith,
}
use cs16mem_model_vm.Machine.Trap.{Result, ok, throw, crash}
use cs16mem_model_vm.Machine.Lru.{LruCache, Node, lookup, erase, find}
use cs16mem_model_vm.Machine.Lru.Assoc.{lookup-erase_ne}
use cs16mem_model_vm.Machine.Lru.Refine.{entries, make_room, drop_last, recent_index, IsValid}
use cs16mem_model_vm.Machine.Lru.Refine.Operations.{find_lem}
use cs16mem_model_vm.Machine.Lru.Refine.Recency.{Holds, index_lem}
use cs16mem_model_vm.Machine.Isa.Instr.{Instruction}
use cs16mem_model_vm.Machine.State.{Machine, continue, modify, pure, ◌>>◌}
use cs16mem_model_vm.Machine.Core.{
  cache_capacity, front_slot, fill_front, read_instruction, decode_front, fetch,
}

-- The cache is well formed, and each instruction in it is the one that memory has at its address.
pub record Coherent (m : Machine) : Type 0 where
  pub valid : IsValid ℕ_discrete cache_capacity m.instruction_cache
  pub decoded :
      (pc : ℕ) (i : Instruction)
      → find ℕ_discrete pc m.instruction_cache ≡ some (some i)
      → read_instruction m pc ≡ ok i

module _ {V : Type 0} where
  lookup-drop_last :
      (k : ℕ) (xs : List (ℕ × V)) (v : V)
      → lookup ℕ_discrete k (drop_last xs) ≡ some v
      → lookup ℕ_discrete k xs ≡ some v
  unfolding lookup
  lookup-drop_last k [] v h = h
  lookup-drop_last k (x ∷ []) v h = ground arith
  lookup-drop_last k ((j, w) ∷ y ∷ xs) v h = ground (arith, lookup-drop_last k (y ∷ xs) v)

  lookup-make_room :
      (capacity k : ℕ) (xs : List (ℕ × V)) (v : V)
      → lookup ℕ_discrete k (make_room capacity xs) ≡ some v
      → lookup ℕ_discrete k xs ≡ some v
  lookup-make_room capacity k xs v h = elim (Bool-cases (length xs == capacity)) [
    | inl e ↦ lookup-drop_last k xs v (rw (make_room, e) at h)
    | inr e ↦ rw (make_room, e) at h
  ]

  lookup_here :
      (j k : ℕ) (v : V) (xs : List (ℕ × V)) (w : V)
      → j ≡ k
      → lookup ℕ_discrete j ((k, v) ∷ xs) ≡ some w
      → v ≡ w
  unfolding lookup
  lookup_here j k v xs w e h = ground arith

  lookup_later :
      (j k : ℕ) (v : V) (xs : List (ℕ × V)) (w : V)
      → j ≢ k
      → lookup ℕ_discrete j ((k, v) ∷ xs) ≡ some w
      → lookup ℕ_discrete j xs ≡ some w
  unfolding lookup
  lookup_later j k v xs w n h = ground arith

  -- A use of the key `k`: the entry in front, and the entries behind it.
  record Used (k : ℕ) (d : V) (xs ys : List (ℕ × V)) : Type 0 where
    front : V
    rest : List (ℕ × V)
    shape : ys ≡ (k, front) ∷ rest
    origin : (lookup ℕ_discrete k xs ≡ some front) ⊎ (front ≡ d)
    others :
        (j : ℕ) (v : V)
        → j ≢ k
        → lookup ℕ_discrete j rest ≡ some v
        → lookup ℕ_discrete j xs ≡ some v

  recent_index-Used :
      (capacity k : ℕ) (d : V) (xs : List (ℕ × V))
      → Used k d xs (recent_index ℕ_discrete capacity k d xs)
  recent_index-Used capacity k d xs = elim (Option-cases (lookup ℕ_discrete k xs)) [
    | inl e ↦
        rw (recent_index, e)
          record {
            front = d;
            rest = make_room capacity xs;
            shape = refl;
            origin = inr refl;
            others = λ j v n h. lookup-make_room capacity j xs v h;
          }
    | inr (w, e) ↦
        rw (recent_index, e)
          record {
            front = w;
            rest = erase ℕ_discrete k xs;
            shape = refl;
            origin = inl e;
            others = λ j v n h. sym (lookup-erase_ne ℕ_discrete j k xs n) ∙ h;
          }
  ]

-- A cache whose recency list is a use of the one of a coherent machine, with the slot in front filled
-- or not, is coherent too.
module _ (m : Machine) (h : Coherent m) where
  Used-Coherent :
      (pc : ℕ) (ys : List (ℕ × Option Instruction)) (c : LruCache ℕ (Option Instruction))
      (s : Option Instruction) (u : Used pc none (entries m.instruction_cache.storage) ys)
      → Holds ℕ_discrete cache_capacity ((pc, s) ∷ u.rest) c
      → ((i : Instruction) → s ≡ some i → read_instruction m pc ≡ ok i)
      → Coherent (record m { instruction_cache = c })
  unfolding read_instruction
  Used-Coherent pc ys c s u holds filled = record {
    valid = holds.valid;
    decoded = λ j i f.
        let g : lookup ℕ_discrete j ((pc, s) ∷ u.rest) ≡ some (some i) =
          ap (lookup ℕ_discrete j) (sym holds.recent)
          ∙ sym (find_lem ℕ_discrete cache_capacity c holds.valid j)
          ∙ f in
        elim (ℕ_discrete j pc) [
          | yes e ↦ rw e (filled i (lookup_here j pc s u.rest (some i) e g))
          | no n ↦ h.decoded j i (
              find_lem ℕ_discrete cache_capacity m.instruction_cache h.valid j
              ∙ u.others j (some i) n (lookup_later j pc s u.rest (some i) n g))
        ];
  }

abbrev cache_of :
    List (Node ℕ (Option Instruction)) → List (ℕ × ℕ) → ℕ → LruCache ℕ (Option Instruction)
cache_of ns t next = record { storage = ns; tracker = t; next_node = next }

-- The slot in front is the one of the entry in front, also when it is filled.
module _ (t : List (ℕ × ℕ)) (next pc : ℕ) (s : Option Instruction)
    (xs : List (ℕ × Option Instruction)) where
  front_slot-entries :
      (ns : List (Node ℕ (Option Instruction)))
      → entries ns ≡ (pc, s) ∷ xs
      → front_slot (cache_of ns t next) ≡ s
  unfolding front_slot
  front_slot-entries [] e = ground arith
  front_slot-entries (n ∷ ns) e = ground arith

  fill_front-Holds :
      (ns : List (Node ℕ (Option Instruction))) (i : Instruction)
      → Holds ℕ_discrete cache_capacity ((pc, s) ∷ xs) (cache_of ns t next)
      → Holds ℕ_discrete cache_capacity ((pc, some i) ∷ xs) (fill_front i (cache_of ns t next))
  unfolding fill_front
  fill_front-Holds [] i h = absurd (ground (arith, h.recent))
  fill_front-Holds (n ∷ ns) i h = record {
    valid = record { tracks = h.valid.tracks; bounded = h.valid.bounded };
    recent = ground (arith, h.recent);
  }

-- The use of the slot in front, in the machine that `Used-Coherent` speaks of.
module _ (m : Machine) (h : Coherent m) (pc : ℕ) (ys : List (ℕ × Option Instruction))
    (u : Used pc none (entries m.instruction_cache.storage) ys)
    (c : LruCache ℕ (Option Instruction))
    (holds : Holds ℕ_discrete cache_capacity ((pc, u.front) ∷ u.rest) c) where
  decoded_front :
      (r : Result Instruction)
      → r ≡ read_instruction m pc
      → u.front ≡ none
      → ((continue r
            (record m { instruction_cache = c })
            (λ i.
              modify (λ n. record n { instruction_cache = fill_front i n.instruction_cache })
              >> pure i)).0
          ≡ read_instruction m pc)
        × Coherent
            (continue r
              (record m { instruction_cache = c })
              (λ i.
                modify (λ n. record n { instruction_cache = fill_front i n.instruction_cache })
                >> pure i)).1
  decoded_front (ok i) e f = (
    e,
    Used-Coherent m h pc ys (fill_front i c) (some i) u
        (fill_front-Holds c.tracker c.next_node pc u.front u.rest c.storage i holds)
        (λ j g. sym e ∙ ap ok (some-injective _ _ g)),
  )
  decoded_front (throw t) e f =
      (e, Used-Coherent m h pc ys c u.front u holds (λ j g. ground (arith, f, g)))
  decoded_front crash e f =
      (e, Used-Coherent m h pc ys c u.front u holds (λ j g. ground (arith, f, g)))

  filled : (i : Instruction) → u.front ≡ some i → read_instruction m pc ≡ ok i
  filled i e = elim u.origin [
    | inl o ↦
        h.decoded pc i
          (find_lem ℕ_discrete cache_capacity m.instruction_cache h.valid pc ∙ o ∙ ap some e)
    | inr o ↦ ground (arith, o, e)
  ]

  decode_front_lem :
      ((decode_front pc (record m { instruction_cache = c })).0 ≡ read_instruction m pc)
      × Coherent (decode_front pc (record m { instruction_cache = c })).1
  unfolding decode_front read_instruction
  decode_front_lem =
      let front =
        front_slot-entries c.tracker c.next_node pc u.front u.rest c.storage holds.recent in
      elim (Option-cases u.front) [
        | inl e ↦ rw (decode_front, front ∙ e) (decoded_front (read_instruction m pc) refl e)
        | inr (i, e) ↦
            rw (decode_front, front ∙ e)
              (sym (filled i e), Used-Coherent m h pc ys c u.front u holds filled)
      ]

-- The fetch of a coherent machine gives what memory gives: the instruction at the program counter, or
-- the trap of the translation or of the decoder; and the machine is coherent afterwards.
pub fetch_lem :
    (m : Machine)
    → Coherent m
    → ((fetch m).0 ≡ read_instruction m m.program_counter) × Coherent (fetch m).1
unfolding fetch
fetch_lem m h =
    let pc = m.program_counter in
    let xs = entries m.instruction_cache.storage in
    let (c, (e, holds)) =
      index_lem ℕ_discrete cache_capacity m.instruction_cache h.valid pc none (omega arith) in
    let u = recent_index-Used cache_capacity pc none xs in
    rw e (decode_front_lem m h pc _ u c (rw u.shape at holds))
