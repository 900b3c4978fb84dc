-- ===== src/Kernel/Frames/History.antt =====
-- Sequences of calls of the `MemoryManager` of kernel/SharedResources/VirtualMemory.cpp, and the frames
-- that are in use after them.
use cs16mem_model_vm.Base.{
  ℕ, ◌*◌, ◌≤◌, ◌<◌, ◌≡◌, ◌≢◌, refl, sym, ap, ◌∙◌, subst, inl, inr, Bool, true, false, some, List,
  [], ◌∷◌, Among, Distinct, ℕ_discrete, some-injective, arith,
}
use cs16mem_model_vm.Kernel.Bitset.{test}
use cs16mem_model_vm.Kernel.Bitset.Laws.{Written}
use cs16mem_model_vm.Kernel.Frames.{num_pages, MemoryManager, reserve_frame, free_frame}
use cs16mem_model_vm.Kernel.Frames.Laws.{IsValid, Taken, reserve_frame_lem, free_frame_lem}

abbrev pub remove : ℕ → List ℕ → List ℕ
remove a [] = []
remove a (x ∷ xs) = elim (ℕ_discrete x a) [ yes _ ↦ xs | no _ ↦ x ∷ remove a xs ]

-- The kernel's use of the memory manager `start`: `owned` are the frames that were handed out and not
-- given back since. Only a frame that is in use is given back.
pub data Use (start : MemoryManager) : MemoryManager → List ℕ → Type 0 where
  begin : Use start start []
  reserve :
      {m m' : MemoryManager} {owned : List ℕ} {addr : ℕ}
      → Use start m owned
      → reserve_frame m ≡ some (addr, m')
      → Use start m' (addr ∷ owned)
  free :
      {m m' : MemoryManager} {owned : List ℕ} (addr : ℕ)
      → Use start m owned
      → Among addr owned
      → free_frame m addr ≡ some m'
      → Use start m' (remove addr owned)

-- The address of a reserved frame above the kernel's image.
pub record Reserved (m : MemoryManager) (k addr : ℕ) : Type 0 where
  pub frame : ℕ
  pub address : addr ≡ frame * 4096
  pub low : k ≤ frame
  pub high : frame < num_pages
  pub taken : test m.reserved_pages frame ≡ some true

-- The frames in use are distinct, and each is reserved.
pub record Sound (k : ℕ) (m : MemoryManager) (owned : List ℕ) : Type 0 where
  pub valid : IsValid m
  pub boundary : m.kernel_reserved_boundary ≡ k
  pub distinct : Distinct owned
  pub reserved : (addr : ℕ) → Among addr owned → Reserved m k addr

Among-remove : (a v : ℕ) (xs : List ℕ) → Among v (remove a xs) → Among v xs
Among-remove a v [] h = h
Among-remove a v (x ∷ xs) h = ground (arith, Among-remove a v xs)

remove-Distinct : (a : ℕ) (xs : List ℕ) → Distinct xs → Distinct (remove a xs)
remove-Distinct a [] d = tt
remove-Distinct a (x ∷ xs) d = ground (arith, Among-remove a x xs, remove-Distinct a xs d.1)

not-Among-remove : (a : ℕ) (xs : List ℕ) → Distinct xs → ¬ Among a (remove a xs)
not-Among-remove a [] d h = h
not-Among-remove a (x ∷ xs) d h = ground (arith, not-Among-remove a xs d.1)

kept :
    (m m' : MemoryManager) (k addr i : ℕ) (v : Bool)
    → Written m.reserved_pages m'.reserved_pages i v
    → addr ≢ i * 4096
    → Reserved m k addr
    → Reserved m' k addr
kept m m' k addr i v w n r = record {
  frame = r.frame;
  address = r.address;
  low = r.low;
  high = r.high;
  taken = w.elsewhere r.frame (λ e. n (r.address ∙ ap (λ (f : ℕ). f * 4096) e)) ∙ r.taken;
}

-- A frame that was free is not in use.
fresh_frame :
    (k : ℕ) (m : MemoryManager) (owned : List ℕ) (i : ℕ)
    → Sound k m owned
    → test m.reserved_pages i ≡ some false
    → ¬ Among (i * 4096) owned
fresh_frame k m owned i s f a =
    let r = s.reserved (i * 4096) a in
    let same : r.frame ≡ i = omega (arith, r.address) in
    ground (arith, f, ap (test m.reserved_pages) same, r.taken)

reserved_frame :
    (k : ℕ) (m m' : MemoryManager) (owned : List ℕ) (i : ℕ)
    → Sound k m owned
    → m'.kernel_reserved_boundary ≡ m.kernel_reserved_boundary
    → Taken m.reserved_pages m'.reserved_pages m.kernel_reserved_boundary num_pages i
    → Sound k m' (i * 4096 ∷ owned)
reserved_frame k m m' owned i s b t =
    let new = fresh_frame k m owned i s t.was_free in
    record {
      valid = record {
        blocks = t.written.same_length ∙ s.valid.blocks;
        boundary = omega (arith, b, s.valid.boundary);
      };
      boundary = b ∙ s.boundary;
      distinct = (new, s.distinct);
      reserved = λ a h. elim h [
        | inl e ↦ record {
          frame = i;
          address = e;
          low = omega (arith, t.low, s.boundary);
          high = t.high;
          taken = t.written.here;
        }
        | inr g ↦
            kept m m' k a i true t.written (λ e. new (subst (λ v. Among v owned) e g))
              (s.reserved a g)
      ];
    }

reserve-Sound :
    (k : ℕ) (m m' : MemoryManager) (owned : List ℕ) (addr : ℕ)
    → Sound k m owned
    → reserve_frame m ≡ some (addr, m')
    → Sound k m' (addr ∷ owned)
reserve-Sound k m m' owned addr s e = elim (reserve_frame_lem m s.valid) [
  | inl (f, t) ↦ ground (arith, f, e)
  | inr (i, (n, (f, (b, t)))) ↦
      let same : (i * 4096, n) ≡ (addr, m') = some-injective _ _ (sym f ∙ e) in
      subst (λ p. Sound k p.1 (p.0 ∷ owned)) same (reserved_frame k m n owned i s b t)
]

free-Sound :
    (k : ℕ) (m m' : MemoryManager) (owned : List ℕ) (addr : ℕ)
    → Sound k m owned
    → Among addr owned
    → free_frame m addr ≡ some m'
    → Sound k m' (remove addr owned)
free-Sound k m m' owned addr s h e =
    let r = s.reserved addr h in
    let (n, (f, (b, w))) = free_frame_lem m r.frame s.valid r.high in
    let same : n ≡ m' = some-injective _ _ (sym f ∙ ap (free_frame m) (sym r.address) ∙ e) in
    subst (λ p. Sound k p (remove addr owned)) same
      record {
        valid = record {
          blocks = w.same_length ∙ s.valid.blocks;
          boundary = omega (arith, b, s.valid.boundary);
        };
        boundary = b ∙ s.boundary;
        distinct = remove-Distinct addr owned s.distinct;
        reserved = λ a g.
            kept m n k a r.frame false w
              (λ q.
                not-Among-remove addr owned s.distinct
                  (subst (λ v. Among v (remove addr owned)) (q ∙ sym r.address) g))
              (s.reserved a (Among-remove addr a owned g));
      }

-- After any sequence of reservations and releases that starts from a memory manager of the constructor's
-- form, the frames in use are distinct, each is the address of a reserved frame above the kernel's
-- image and below the end of memory: no frame is handed out while it is in use.
pub use-Sound :
    (start m : MemoryManager) (owned : List ℕ)
    → IsValid start
    → Use start m owned
    → Sound start.kernel_reserved_boundary m owned
use-Sound start m owned v begin = record {
  valid = v;
  boundary = refl;
  distinct = tt;
  reserved = λ a h. absurd h;
}
use-Sound start m owned v (reserve u e) =
    reserve-Sound start.kernel_reserved_boundary _ m _ _ (use-Sound start _ _ v u) e
use-Sound start m owned v (free addr u h e) =
    free-Sound start.kernel_reserved_boundary _ m _ addr (use-Sound start _ _ v u) h e
