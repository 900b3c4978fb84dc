-- ===== src/Kernel/Frames/Laws.antt =====
-- `MemoryManager::reserveFrame` and `freeFrame` of kernel/SharedResources/VirtualMemory.cpp, by the bits
-- that they change.
use cs16mem_model_vm.Base.{
  ℕ, zero, suc, ◌+◌, ◌-◌, ◌*◌, ◌/◌, ◌%◌, ◌≤◌, ◌<◌, ◌≡◌, refl, ap, ◌∙◌, subst, ◌⊎◌, inl, inr, Bool,
  true, false, none, some, length, get_elem?_of_lt, Bool-cases, ℕ_discrete, arith,
}
use cs16mem_model_vm.Base.Words.{shl, shr, test_bit}
use cs16mem_model_vm.Kernel.Bitset.{Bitset, test}
use cs16mem_model_vm.Kernel.Bitset.Laws.{Written, set_bit_lem}
use cs16mem_model_vm.Kernel.Frames.{
  reserve_first, num_pages, MemoryManager, reserve_frame, free_frame,
}

-- The positions from `start` up to `stop` are all taken.
abbrev pub AllTaken : Bitset → (start stop : ℕ) → Type 0
AllTaken bs start stop = (j : ℕ) → start ≤ j → j < stop → test bs j ≡ some true

-- `i` was the first free position of the range, and it alone changed.
pub record Taken (bs bs' : Bitset) (start stop i : ℕ) : Type 0 where
  pub low : start ≤ i
  pub high : i < stop
  pub was_free : test bs i ≡ some false
  pub first : AllTaken bs start i
  pub written : Written bs bs' i true

test_within : (bs : Bitset) (i : ℕ) → i / 32 < length bs → (b : Bool) × (test bs i ≡ some b)
unfolding test
test_within bs i h =
    let (b, e) = get_elem?_of_lt bs (i / 32) h in (test_bit b (i % 32), rw (test, e) refl)

extend :
    (bs : Bitset) (start stop : ℕ)
    → test bs start ≡ some true
    → AllTaken bs (start + 1) stop
    → AllTaken bs start stop
extend bs start stop e t j l k = elim (ℕ_discrete j start) [
  | yes same ↦ ap (test bs) same ∙ e
  | no n ↦ t j (omega (arith, n)) k
]

abbrev Scan : (bs : Bitset) (left start : ℕ) → Type 0
Scan bs left start =
    ((reserve_first left start bs ≡ none) × AllTaken bs start (start + left))
    ⊎ ((i : ℕ) × ((bs' : Bitset) × ((reserve_first left start bs ≡ some (i, bs'))
            × Taken bs bs' start (start + left) i)))

skip :
    (left start : ℕ) (bs : Bitset)
    → test bs start ≡ some true
    → Scan bs left (start + 1)
    → Scan bs (suc left) start
unfolding reserve_first
skip left start bs e (inl (r, t)) =
    inl
      (rw (reserve_first, e) r, extend bs start (start + suc left) e (λ j l k. t j l (omega arith)))
skip left start bs e (inr (i, (bs', (r, t)))) = inr (
  i,
  (
    bs',
    (
      rw (reserve_first, e) r,
      record {
        low = omega (arith, t.low);
        high = omega (arith, t.high);
        was_free = t.was_free;
        first = extend bs start i e t.first;
        written = t.written;
      },
    ),
  ),
)

-- The scan fails when all positions of its range are taken, and else takes the first free one.
pub reserve_first_lem :
    (left start : ℕ) (bs : Bitset)
    → start + left ≤ 32 * length bs
    → ((reserve_first left start bs ≡ none) × AllTaken bs start (start + left))
      ⊎ ((i : ℕ) × ((bs' : Bitset) × ((reserve_first left start bs ≡ some (i, bs'))
              × Taken bs bs' start (start + left) i)))
unfolding reserve_first
reserve_first_lem zero start bs h = inl (refl, λ j l k. absurd (omega arith))
reserve_first_lem (suc left) start bs h =
    let (b, e) = test_within bs start (omega arith) in
    let (bs', (w, written)) = set_bit_lem bs start true (omega arith) in
    elim (Bool-cases b) [
      | inl t ↦
          skip left start bs (e ∙ ap some t) (reserve_first_lem left (start + 1) bs (omega arith))
      | inr f ↦ inr (
        start,
        (
          bs',
          (
            rw (reserve_first, e, f, w) refl,
            record {
              low = omega arith;
              high = omega arith;
              was_free = e ∙ ap some f;
              first = λ j l k. absurd (omega arith);
              written = written;
            },
          ),
        ),
      )
    ]

-- A memory manager as the constructor makes them: 40 blocks of bits for 1280 pages, some of the first
-- ones below the kernel's boundary.
pub record IsValid (m : MemoryManager) : Type 0 where
  pub blocks : length m.reserved_pages ≡ 40
  pub boundary : m.kernel_reserved_boundary ≤ num_pages

-- `reserveFrame` hands out the first free frame above the kernel's image and changes nothing else; its
-- assertion fails only when every frame there is taken.
pub reserve_frame_lem :
    (m : MemoryManager)
    → IsValid m
    → ((reserve_frame m ≡ none) × AllTaken m.reserved_pages m.kernel_reserved_boundary num_pages)
      ⊎ ((i : ℕ) × ((m' : MemoryManager) × ((reserve_frame m ≡ some (i * 4096, m'))
              × ((m'.kernel_reserved_boundary ≡ m.kernel_reserved_boundary)
                  × Taken m.reserved_pages m'.reserved_pages m.kernel_reserved_boundary num_pages
                      i))))
unfolding reserve_frame
reserve_frame_lem m v =
    let k = m.kernel_reserved_boundary in
    let range : k + (num_pages - k) ≡ num_pages = omega (arith, v.boundary) in
    elim (reserve_first_lem (num_pages - k) k m.reserved_pages
      (omega (arith, v.boundary, v.blocks))) [
        | inl (e, t) ↦ inl (rw (reserve_frame, e) refl, subst (AllTaken m.reserved_pages k) range t)
        | inr (i, (bs, (e, t))) ↦
            let m' = record m { reserved_pages = bs } in
            let addr : shl i 12 ≡ i * 4096 = omega (arith, t.high, range) in
            inr (
              i,
              (
                m',
                (
                  rw (reserve_frame, e) (ap (λ a. some (a, m')) addr),
                  (refl, subst (λ s. Taken m.reserved_pages bs k s i) range t),
                ),
              ),
            )
      ]

-- `freeFrame` of a frame's address makes that frame free again, and no other.
pub free_frame_lem :
    (m : MemoryManager) (i : ℕ)
    → IsValid m
    → i < num_pages
    → (m' : MemoryManager) × ((free_frame m (i * 4096) ≡ some m')
        × ((m'.kernel_reserved_boundary ≡ m.kernel_reserved_boundary)
            × Written m.reserved_pages m'.reserved_pages i false))
unfolding free_frame
free_frame_lem m i v h =
    let (bs, (e, w)) = set_bit_lem m.reserved_pages i false (omega (arith, v.blocks, h)) in
    let page : shr (i * 4096) 12 ≡ i = omega arith in
    (record m { reserved_pages = bs }, (rw (free_frame, page, e) refl, (refl, w)))
