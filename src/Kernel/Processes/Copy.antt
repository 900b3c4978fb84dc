-- ===== src/Kernel/Processes/Copy.antt =====
-- The constructor of `HashPageTable` from an iterator, kernel/KernelObjects/PageTables.cpp: a frame of
-- its own for each page.
pub mod Assign
pub mod Words
pub mod Bytes
pub mod Frames
pub mod Pairs
use cs16mem_model_vm.Base.{
  ℕ, zero, suc, ◌+◌, ◌-◌, ◌*◌, ◌%◌, ◌<◌, ◌≤◌, ◌≡◌, ◌≢◌, ◌∙◌, ap, sym, refl, subst, Bool, Option,
  none, some, List, [], ◌∷◌, ◌++◌, length, arith, ℕ_discrete, dec_lt, ◌==◌, if◌then◌else◌, update,
  Among, Distinct, true, false, ◌⊎◌, inl, inr,
}
use cs16mem_model_vm.Base.Words.{shl, shr}
use cs16mem_model_vm.Machine.Trap.{Result, ok, crash, ◌>>=◌}
use cs16mem_model_vm.Kernel.Bitset.{test}
use cs16mem_model_vm.Kernel.Bitset.Laws.{Written}
use cs16mem_model_vm.Kernel.Frames.{MemoryManager, num_pages, reserve_frame}
use cs16mem_model_vm.Kernel.Frames.Laws.{IsValid, AllTaken, Taken, reserve_frame_lem}
use cs16mem_model_vm.Kernel.Pages.{Entry}
use cs16mem_model_vm.Kernel.Pages.HashTable.{HashPageTable}
use cs16mem_model_vm.Kernel.UnorderedMap.{UnorderedMap, hash, find_in, index}
use cs16mem_model_vm.Kernel.UnorderedMap.Buckets.{value_or}
use cs16mem_model_vm.Kernel.UnorderedMap.Laws.{Represents}
use cs16mem_model_vm.Kernel.UnorderedMap.Insert.{index-Represents}
use cs16mem_model_vm.Kernel.Processes.{
  default_entry, assert_some, assign_at, copy_pages, copy_words, first_word, Physical,
}
use cs16mem_model_vm.Kernel.Processes.Copy.Words.{copy_words_lem}
use cs16mem_model_vm.Kernel.Processes.Copy.Bytes.{Filled, none_Filled, next_Filled, Source}
use cs16mem_model_vm.Kernel.Processes.Copy.Frames.{
  Reserved, none_Reserved, next_Reserved, clash, later,
}
use cs16mem_model_vm.Kernel.Processes.Copy.Assign.{assign_at-Represents}
use cs16mem_model_vm.Kernel.Processes.Entries.{Unique}

-- The pages after those of a list are mapped one by one, each to the next frame.
abbrev pub mapped : List (ℕ × Entry) → List ℕ → (ℕ → Option Entry) → ℕ → Option Entry
mapped [] fs pages = pages
mapped (_ ∷ _) [] pages = pages
mapped ((vpn, pte) ∷ es) (f ∷ fs) pages =
    mapped es fs (update pages vpn (some (record pte { pfn = f })))

-- One page: the reference that `operator[]` returns is assigned the new entry.
overwrite :
    (vpn : ℕ) (e v : Entry) (t : HashPageTable) (pages : ℕ → Option Entry)
    → Represents hash t (update pages vpn (some v))
    → Represents hash (assign_at vpn e t) (update pages vpn (some e))
overwrite vpn e v t pages r =
    let r' = assign_at-Represents vpn e v t (update pages vpn (some v)) r (ground arith) in
    record { valid = r'.valid; answers = λ j. r'.answers j ∙ ground arith }

-- A copy that runs past the end of memory: fewer than four pages are left from a page's frame on, or
-- from a frame that was free.
abbrev pub Overrun : List (ℕ × Entry) → MemoryManager → Type 0
Overrun es m =
    (g : ℕ) × ((Source es g
        ⊎ ((test m.reserved_pages g ≡ some false) × (m.kernel_reserved_boundary ≤ g)))
      × (num_pages < g + 4))

-- How a copy ends: with a frame for every page; with the assertion, and then every frame above the
-- kernel is taken, some of them by fewer pages than there are; or past the end of memory.
abbrev Copies :
    (es : List (ℕ × Entry))
    → HashPageTable
    → (m : MemoryManager) → (p : Physical) → (pages : ℕ → Option Entry) → Type 0
Copies es t m p pages =
    ((t' : HashPageTable) × ((m' : MemoryManager) × ((p' : Physical) × ((fs : List ℕ) × ((copy_pages
                  es (t, (m, p))
                ≡ ok (t', (m', p')))
              × ((length fs ≡ length es)
                  × ((Reserved m m' fs × Filled es fs p p')
                      × Represents hash t' (mapped es fs pages))))))))
    ⊎ ((copy_pages es (t, (m, p)) ≡ crash)
        × (((m' : MemoryManager) × ((fs : List ℕ) × ((length fs < length es)
                  × (Reserved m m' fs
                      × AllTaken m'.reserved_pages m.kernel_reserved_boundary num_pages))))
            ⊎ Overrun es m))

next_Overrun :
    (vpn : ℕ) (pte : Entry) (es : List (ℕ × Entry)) (m n : MemoryManager) (f : ℕ)
    → n.kernel_reserved_boundary ≡ m.kernel_reserved_boundary
    → Taken m.reserved_pages n.reserved_pages m.kernel_reserved_boundary num_pages f
    → Overrun es n
    → Overrun ((vpn, pte) ∷ es) m
next_Overrun vpn pte es m n f b t (g, (inl source, past)) = (g, (inl (inr source), past))
next_Overrun vpn pte es m n f b t (g, (inr (free, low), past)) = elim (ℕ_discrete g f) [
  | yes same ↦ absurd (clash (ap (test n.reserved_pages) same ∙ t.written.here) free)
  | no other ↦ (g, (inr (sym (t.written.elsewhere g other) ∙ free, omega (arith, b, low)), past))
]

pub copy_pages-Copies :
    (es : List (ℕ × Entry)) (t : HashPageTable) (m : MemoryManager) (p : Physical)
    (pages : ℕ → Option Entry)
    → IsValid m
    → Represents hash t pages
    → Copies es t m p pages
unfolding copy_pages
copy_pages-Copies [] t m p pages v r =
    inl (t, (m, (p, ([], (refl, (refl, ((none_Reserved m v, none_Filled p), r)))))))
copy_pages-Copies ((vpn, pte) ∷ es) t m p pages v r =
    let (placed, e, r1) = index-Represents hash default_entry vpn t pages r in
    elim (reserve_frame_lem m v) [
      | inl (full, all) ↦
          inr (rw (e, full, ◌>>=◌) refl, inl (m, ([], (omega arith, (none_Reserved m v, all)))))
      | inr (f, (n, (got, (b, taken)))) ↦
          let pte' = record pte { pfn = f } in
          let r2 = overwrite vpn pte' _ placed pages r1 in
          let vn : IsValid n = record {
            blocks = taken.written.same_length ∙ v.blocks;
            boundary = subst (λ k. k ≤ num_pages) (sym b) v.boundary;
          } in
          let frame : shr (f * 4096) 12 ≡ f = omega arith in
          elim (copy_words_lem 4096 (first_word pte.pfn) (first_word f) p) [
            | inr (failed, inl past) ↦ inr (
              rw (e, got, frame, failed, ◌>>=◌) refl,
              inr (pte.pfn, (inl (inl refl), omega (arith, past))),
            )
            | inr (failed, inr past) ↦ inr (
              rw (e, got, frame, failed, ◌>>=◌) refl,
              inr (f, (inr (taken.was_free, taken.low), omega (arith, past))),
            )
            | inl (q, (filled, c)) ↦
                elim (copy_pages-Copies es (assign_at vpn pte' placed) n q
                  (update pages vpn (some pte')) vn r2) [
                    | inl (t', (m', (p', (fs, (done, (count, ((all, bytes), r3))))))) ↦ inl (
                      t',
                      (
                        m',
                        (
                          p',
                          (
                            f ∷ fs,
                            (
                              rw (e, got, frame, filled, ◌>>=◌) done,
                              (
                                ap suc count,
                                (
                                  (
                                    next_Reserved m n m' f fs b taken all,
                                    next_Filled vpn pte es f fs p q p' c
                                        (later m n m' f fs b taken all) bytes,
                                  ),
                                  r3,
                                ),
                              ),
                            ),
                          ),
                        ),
                      ),
                    )
                    | inr (failed, inl (m', (fs, (count, (all, full))))) ↦ inr (
                      rw (e, got, frame, filled, ◌>>=◌) failed,
                      inl (
                        m',
                        (
                          f ∷ fs,
                          (
                            omega (arith, count),
                            (
                              next_Reserved m n m' f fs b taken all,
                              subst (λ k. AllTaken m'.reserved_pages k num_pages) b full,
                            ),
                          ),
                        ),
                      ),
                    )
                    | inr (failed, inr past) ↦ inr (
                      rw (e, got, frame, filled, ◌>>=◌) failed,
                      inr (next_Overrun vpn pte es m n f b taken past),
                    )
                  ]
          ]
    ]
