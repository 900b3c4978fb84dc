-- ===== src/Machine/Memory/RoundTrip.antt =====
-- Loads after stores, through the TLB.
use cs16mem_model_vm.Base.{
  ℕ, ◌+◌, ◌%◌, ◌^◌, ◌<◌, ◌≡◌, ◌≢◌, ◌==◌, inl, inr, Bool-cases, eqb→eq, arith,
}
use native.Mathlib.Nat.{add-zero}
use cs16mem_model_vm.Machine.Trap.{ok, ◌>>=◌, ◌>>◌, >>=-eq-ok}
use cs16mem_model_vm.Machine.Tlb.{Tlb, load, store, translate}
use cs16mem_model_vm.Machine.Tlb.Lookup.{translate-load_store}
use cs16mem_model_vm.Machine.Memory.{
  Memory, accessible, get_half_word, get_word, set_half_word, set_word, put_half_word, put_word,
}
use cs16mem_model_vm.Machine.Memory.Bytes.{
  load_big_endian_split, half_split, put_word_at, put_word_frame, put_half_word_at,
}

module _ {S : Type 0} (tlb : Tlb) (asid addr size : ℕ) where
  -- A store that succeeds: the address that loads translate to as well, and the write there.
  store-eq-ok :
      (put : ℕ → S) {m' : S}
      → (do p ← translate tlb addr store asid; accessible size p; ok (put p)) ≡ ok m'
      → (p : ℕ) × (translate tlb addr load asid ≡ ok p) × (accessible size p ≡ ok tt) × (m' ≡ put p)
  store-eq-ok put h =
      let (p, h1, tr) = >>=-eq-ok _ (translate tlb addr store asid) h in
      let (u, h2, acc) = >>=-eq-ok _ (accessible size p) h1 in
      (p, translate-load_store tlb addr asid tr, acc, cc)

accessible-aligned : (size p : ℕ) → accessible size p ≡ ok tt → p % size ≡ 0
accessible-aligned size p h = ground arith

-- Two aligned words that do not start together share no byte.
put_word_apart :
    (m : Memory) (p w q : ℕ)
    → p % 4 ≡ 0
    → q % 4 ≡ 0
    → q ≢ p
    → (i : ℕ) → i < 4
    → put_word m p w (q + i) ≡ m (q + i)
put_word_apart m p w q hp hq ne i hi =
    put_word_frame m p w (q + i) (λ e. ne (omega arith)) (λ e. ne (omega arith))
      (λ e. ne (omega arith)) (λ e. ne (omega arith))

module _ (m : Memory) (tlb : Tlb) (asid addr w : ℕ) {m' : Memory} where
  -- A word stored at an address, when the store succeeds, is what a load of a word returns there.
  pub get_word-set_word :
      w < 2 ^ 32 → set_word m tlb asid addr w ≡ ok m' → get_word m' tlb asid addr ≡ ok w
  unfolding set_word get_word
  get_word-set_word fits h =
      let (p, tr, acc, e) = store-eq-ok tlb asid addr 4 (λ p. put_word m p w) h in
      let at = put_word_at m p w in
      rw (tr, acc, e, at.0, at.1, at.2, at.3, load_big_endian_split w fits)

  -- A half word stored at an address, when the store succeeds, is what a load of a half word
  -- returns there.
  get_half_word-set_half_word :
      w < 2 ^ 16 → set_half_word m tlb asid addr w ≡ ok m' → get_half_word m' tlb asid addr ≡ ok w
  unfolding set_half_word get_half_word
  get_half_word-set_half_word fits h =
      let (p, tr, acc, e) = store-eq-ok tlb asid addr 2 (λ p. put_half_word m p w) h in
      let at = put_half_word_at m p w in rw (tr, acc, e, at.0, at.1, half_split w fits)

  -- A stored word leaves alone what a load of a word returns at any other physical address,
  -- whichever virtual addresses the two go through.
  pub get_word-set_word_ne :
      (other : ℕ) {p q : ℕ}
      → set_word m tlb asid addr w ≡ ok m'
      → translate tlb addr store asid ≡ ok p
      → translate tlb other load asid ≡ ok q
      → p ≢ q
      → get_word m' tlb asid other ≡ get_word m tlb asid other
  unfolding set_word get_word
  get_word-set_word_ne other {p} {q} h tp tq ne =
      let (p', tr, acc, e) = store-eq-ok tlb asid addr 4 (λ p. put_word m p w) h in
      let same : p' ≡ p = cc (translate-load_store tlb addr asid tp) in
      let at : p' % 4 ≡ 0 = accessible-aligned 4 p' acc in
      elim (Bool-cases (q % 4 == 0)) [
        | inl aligned ↦
            let keeps = put_word_apart m p' w q at (eqb→eq _ _ aligned) (λ e. ne (cc)) in
            rw (tq, e, ← add-zero q, keeps 0 (omega arith), add-zero q)
              (rw (keeps 1 (omega arith), keeps 2 (omega arith), keeps 3 (omega arith)))
        | inr askew ↦ rw (tq, askew)
      ]
