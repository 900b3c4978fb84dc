-- ===== src/Kernel/Processes/Destructor.antt =====
-- The destructors that run when a process of kernel/SharedResources/Process.cpp is freed: that of its
-- `AddressSpace` and that of its `HashPageTable`.
use cs16mem_model_vm.Base.{
  ℕ, ◌*◌, ◌<◌, ◌≤◌, ◌≡◌, inl, inr, refl, sym, ◌∙◌, subst, false, Option, none, some, List, [], ◌∷◌,
  length, Among, Among-cases, arith,
}
use cs16mem_model_vm.Base.Words.{shl}
use cs16mem_model_vm.Machine.Trap.{ok, ◌>>=◌}
use cs16mem_model_vm.Kernel.Bitset.{Bitset, test}
use cs16mem_model_vm.Kernel.Bitset.Laws.{Written, set_bit_lem}
use cs16mem_model_vm.Kernel.Frames.{MemoryManager, num_pages, free_asid, num_asids}
use cs16mem_model_vm.Kernel.Frames.Laws.{IsValid, free_frame_lem}
use cs16mem_model_vm.Kernel.Pages.{Entry}
use cs16mem_model_vm.Kernel.Pages.HashTable.{HashPageTable}
use cs16mem_model_vm.Kernel.Processes.{Pcb, Processes, free_pages, entries, free_table, destroy}

-- The frames that the pages of a table stand for.
abbrev pub frames : List (ℕ × Entry) → List ℕ
frames [] = []
frames ((vpn, pte) ∷ rest) = pte.pfn ∷ frames rest

abbrev pub pages_of : Option HashPageTable → List (ℕ × Entry)
pages_of none = []
pages_of (some table) = entries table.buckets

abbrev AreFrames : List ℕ → Type 0
AreFrames [] = Unit {0}
AreFrames (f ∷ fs) = (f < num_pages) × AreFrames fs

-- The frames of a list are free, and nothing else changed.
pub record Freed (m m' : MemoryManager) (fs : List ℕ) : Type 0 where
  pub valid : IsValid m'
  pub boundary : m'.kernel_reserved_boundary ≡ m.kernel_reserved_boundary
  pub inside : (i : ℕ) → Among i fs → test m'.reserved_pages i ≡ some false
  pub outside : (i : ℕ) → ¬ Among i fs → test m'.reserved_pages i ≡ test m.reserved_pages i

one_more :
    (m n l : MemoryManager) (f : ℕ) (fs : List ℕ)
    → n.kernel_reserved_boundary ≡ m.kernel_reserved_boundary
    → Written m.reserved_pages n.reserved_pages f false
    → Freed n l fs
    → Freed m l (f ∷ fs)
one_more m n l f fs b w r = record {
  valid = r.valid;
  boundary = r.boundary ∙ b;
  inside = λ i a. elim (Among-cases i fs) [
    | inl in_rest ↦ r.inside i in_rest
    | inr not ↦ r.outside i not ∙ now i a not
  ];
  outside = λ i a. r.outside i (λ in_rest. a (inr in_rest)) ∙ w.elsewhere i (λ same. a (inl same));
}
  where
    now : (i : ℕ) → Among i (f ∷ fs) → ¬ Among i fs → test n.reserved_pages i ≡ some false
    now i (inl same) not = subst (λ j. test n.reserved_pages j ≡ some false) (sym same) w.here
    now i (inr in_rest) not = absurd (not in_rest)

-- The destructor of a page table ends normally.
free_pages-Freed :
    (es : List (ℕ × Entry)) (m : MemoryManager)
    → IsValid m
    → AreFrames (frames es)
    → (m' : MemoryManager) × ((free_pages es m ≡ ok m') × Freed m m' (frames es))
unfolding free_pages
free_pages-Freed [] m v h = (
  m,
  (refl, record { valid = v; boundary = refl; inside = λ i a. absurd a; outside = λ i a. refl }),
)
free_pages-Freed ((vpn, pte) ∷ rest) m v (low, h) =
    let (n, (e, (b, w))) = free_frame_lem m pte.pfn v low in
    let addr : shl pte.pfn 12 ≡ pte.pfn * 4096 = omega (arith, low) in
    let vn : IsValid n = record {
      blocks = w.same_length ∙ v.blocks;
      boundary = subst (λ k. k ≤ num_pages) (sym b) v.boundary;
    } in
    let (l, (el, r)) = free_pages-Freed rest n vn h in
    (l, (rw (addr, e, el, ◌>>=◌) refl, one_more m n l pte.pfn (frames rest) b w r))

-- What a process holds is within the bounds of the machine: its frames and its identifier, and the bit
-- sets have the sizes that they start with.
pub record Holds (p : Pcb) (s : Processes) : Type 0 where
  pub memory : IsValid s.memory
  pub blocks : length s.reserved_asids ≡ 8
  pub asid : p.asid < num_asids
  pub frames : AreFrames (frames (pages_of p.page_table))

-- The frames of a process and its identifier are free again, and no others.
pub record Returned (p : Pcb) (s s' : Processes) : Type 0 where
  pub memory : Freed s.memory s'.memory (frames (pages_of p.page_table))
  pub asids : Written s.reserved_asids s'.reserved_asids p.asid false

free_table_lem :
    (o : Option HashPageTable) (m : MemoryManager) → free_table o m ≡ free_pages (pages_of o) m
unfolding free_pages
free_table_lem none m = refl
free_table_lem (some table) m = refl

-- The destructor of a process ends normally.
pub destroy-Returned :
    (p : Pcb) (s : Processes)
    → Holds p s
    → (asids : Bitset) × ((m : MemoryManager) × ((destroy p s
            ≡ ok (record s { reserved_asids = asids; memory = m }))
          × Returned p s (record s { reserved_asids = asids; memory = m })))
unfolding destroy free_asid
destroy-Returned p s h =
    let (asids, (e, w)) =
      set_bit_lem s.reserved_asids p.asid false (omega (arith, h.asid, h.blocks)) in
    let (m, (em, r)) = free_pages-Freed (pages_of p.page_table) s.memory h.memory h.frames in
    (
      asids,
      (
        m,
        (
          rw (e, free_table_lem p.page_table s.memory, em, ◌>>=◌) refl,
          record { memory = r; asids = w },
        ),
      ),
    )
