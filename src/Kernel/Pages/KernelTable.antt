-- ===== src/Kernel/Pages/KernelTable.antt =====
-- `KernelPageTable::mapPTE` and `walkTable` of kernel/SharedResources/VirtualMemory.cpp.
use cs16mem_model_vm.Base.{
  ℕ, ◌-◌, ◌/◌, ◌<◌, ◌≤◌, ◌≡◌, sym, ap, inl, inr, true, some, some-injective, ℕ_discrete, List,
  get_elem?, set, get_elem?-set_self, get_elem?-set_ne, lt_of_get_elem?, Option-cases, Bool-cases,
  ltb, ◌==◌, if◌then◌else◌, arith,
}
use cs16mem_model_vm.Base.Words.{shl, shr}
use cs16mem_model_vm.Kernel.Frames.{MemoryManager, free_frame}
use cs16mem_model_vm.Kernel.Pages.{Entry, walk_kernel, map_kernel, kheap_boundary}

-- What a mapping that succeeds did: the page was one of the kernel heap's, and its slot was set.
record Mapped (pte : Entry) (vpn : ℕ) (pt pt' : List Entry) : Type 0 where
  low : 0xC0000 ≤ vpn
  high : vpn - 0xC0000 < 64
  old : Entry
  before : get_elem? pt (vpn - 0xC0000) ≡ some old
  after : pt' ≡ set pt (vpn - 0xC0000) (record pte { global = true })

map_kernel-Mapped :
    (pte : Entry) (vpn : ℕ) (pt pt' : List Entry) (m m' : MemoryManager)
    → map_kernel pte vpn pt m ≡ some (pt', m')
    → Mapped pte vpn pt pt'
unfolding map_kernel
map_kernel-Mapped pte vpn pt pt' m m' h = elim (Bool-cases (ltb vpn 0xC0000)) [
  | inl l ↦ absurd (ground (arith, rw l at h))
  | inr l ↦ elim (Bool-cases (ltb (vpn - 0xC0000) 64)) [
    | inr k ↦ absurd (ground (arith, l, k, h))
    | inl k ↦ elim (Option-cases (get_elem? pt (vpn - 0xC0000))) [
      | inl g ↦ absurd (ground (arith, l, k, g, h))
      | inr (old, g) ↦ elim (Option-cases (free_frame m (shl old.pfn 12))) [
        | inl f ↦ absurd (ground (arith, l, k, g, f, h))
        | inr (n, f) ↦ record {
          low = ground (arith, l);
          high = ground (arith, k);
          old = old;
          before = g;
          after = sym (
              ap (λ (p : List Entry × MemoryManager). p.0)
                (some-injective _ _ (rw (map_kernel, l, k, g, f) at h)));
        }
      ]
    ]
  ]
]

page : (i vpn : ℕ) → i ≡ vpn - 0xC0000 → vpn - 0xC0000 ≡ i
page i vpn e = sym e

-- After a page was mapped, a walk of one of its addresses finds the new entry, marked global, and a
-- walk of any other page finds what it found before.
walk-map_kernel :
    (pte : Entry) (vpn : ℕ) (pt pt' : List Entry) (m m' : MemoryManager) (vaddr : ℕ)
    → map_kernel pte vpn pt m ≡ some (pt', m')
    → walk_kernel pt' vaddr
      ≡ (if shr vaddr 12 == vpn then some (record pte { global = true }) else walk_kernel pt vaddr)
unfolding walk_kernel
walk-map_kernel pte vpn pt pt' m m' vaddr h =
    let d = map_kernel-Mapped pte vpn pt pt' m m' h in
    let i = (vaddr - kheap_boundary) / 4096 in
    let new = record pte { global = true } in
    rw d.after (elim (ℕ_discrete (vaddr / 4096) vpn) [
      | yes e ↦ ground (
        arith,
        e,
        d.low,
        d.high,
        ap (λ j. get_elem? (set pt j new) i) (page i vpn (omega (arith, e, d.low))),
        get_elem?-set_self pt i new
            (omega (arith, e, d.low, lt_of_get_elem? pt (vpn - 0xC0000) d.before)),
      )
      | no n ↦ ground (arith, n, d.low, get_elem?-set_ne pt (vpn - 0xC0000) i new)
    ])
