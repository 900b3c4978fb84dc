-- ===== src/Kernel/LinkedList/Clear.antt =====
-- `clear` and `resize` of kernel/kstl/Queue.h, against the sequence of cells.
use cs16mem_model_vm.Base.{
  ℕ, suc, ◌<◌, ◌≡◌, ◌∙◌, ap, sym, refl, subst, false, none, some, List, [], ◌∷◌, ◌==◌, update,
  Among, Among-cases, Distinct, arith, inl, inr, length,
}
use cs16mem_model_vm.Machine.Trap.{ok, ◌>>=◌}
use cs16mem_model_vm.Kernel.LinkedList.{Node, null, LinkedList, store, delete_all, clear}
use cs16mem_model_vm.Kernel.LinkedList.Links.{
  addresses, first, Linked, Live, update_ne, Linked-frame,
}
use cs16mem_model_vm.Kernel.LinkedList.Ends.{IsList}

module _ {ℓ} {V : Type ℓ} where
  -- The nodes of the cells are gone, and the others are as they were.
  pub record Cleared (cells : List (ℕ × V)) (l l' : LinkedList V) : Type ℓ where
    pub gone : (x : ℕ) → Among x (addresses cells) → l'.nodes x ≡ none
    pub kept : (x : ℕ) → ¬ Among x (addresses cells) → l'.nodes x ≡ l.nodes x
    pub fresh : l'.fresh ≡ l.fresh

  delete_all_run :
      (fuel a : ℕ) (l : LinkedList V) (node : Node V)
      → (a == null) ≡ false
      → l.nodes a ≡ some node
      → delete_all (suc fuel) a l ≡ delete_all fuel node.next (store a none l)
  unfolding delete_all
  delete_all_run fuel a l node real e = rw (real, e, ◌>>=◌) refl

  delete_all_end : (fuel : ℕ) (l : LinkedList V) → delete_all (suc fuel) null l ≡ ok l
  unfolding delete_all
  delete_all_end fuel l = refl

  delete_all-Cleared :
      (p : ℕ) (cells : List (ℕ × V)) (l : LinkedList V)
      → Linked l.nodes p cells null
      → Distinct (addresses cells)
      → Live l.fresh cells
      → (l' : LinkedList V) × ((delete_all (suc (length cells)) (first cells null) l ≡ ok l')
          × Cleared cells l l')
  delete_all-Cleared p [] l h d live =
      (l, (delete_all_end 0 l, record { gone = λ x k. absurd k; kept = λ x k. refl; fresh = refl }))
  delete_all-Cleared p ((a, v) ∷ cs) l h d live =
      let real : (a == null) ≡ false = ground (arith, live.0) in
      let (l', (e, r)) =
        delete_all-Cleared a cs (store a none l) (Linked-frame l.nodes a none a cs null d.0 h.1) d.1
          live.1.1 in
      (
        l',
        (
          delete_all_run (suc (length cs)) a l _ real h.0 ∙ e,
          record {
            gone = λ x k. elim (Among-cases x (addresses cs)) [
              | inl later ↦ r.gone x later
              | inr not ↦ r.kept x not ∙ now x k not
            ];
            kept = λ x k.
                r.kept x (λ later. k (inr later))
                ∙ update_ne l.nodes a x none (λ q. k (inl (sym q)));
            fresh = r.fresh;
          },
        ),
      )
    where
      now :
          (x : ℕ)
          → Among x (addresses ((a, v) ∷ cs))
          → ¬ Among x (addresses cs)
          → update l.nodes a none x ≡ none
      now x (inl e) not = subst (λ y. update l.nodes a none y ≡ none) (sym e) (ground arith)
      now x (inr k) not = absurd (not k)

  -- With one round more than there are cells `clear` ends normally, and never reads a node that it has
  -- deleted: the list is empty, the nodes of its cells are gone, and no other node changed.
  pub clear-IsList :
      (l : LinkedList V) (cells : List (ℕ × V))
      → IsList l cells
      → (l' : LinkedList V) × ((clear (suc (length cells)) l ≡ ok l')
          × (IsList l' [] × Cleared cells l l'))
  unfolding clear
  clear-IsList l cells h =
      let c = h.chain in
      let (l', (e, r)) = delete_all-Cleared null cells l c.linked c.distinct c.live in
      (
        record l' { head = null; tail = null; size = 0 },
        (
          rw (ap (λ x. delete_all (suc (length cells)) x l) c.starts ∙ e, ◌>>=◌) refl,
          (
            record {
              chain = record {
                starts = refl;
                ends = refl;
                linked = tt;
                distinct = tt;
                live = tt;
                some_address = subst (λ f. 0 < f) (sym r.fresh) c.some_address;
              };
              counted = refl;
            },
            record { gone = r.gone; kept = r.kept; fresh = r.fresh },
          ),
        ),
      )
