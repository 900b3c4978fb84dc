-- ===== src/Kernel/Bitset/Laws.antt =====
-- The writes of single bits of kernel/kstl/Bitset.h.
use cs16mem_model_vm.Base.{
  ℕ, ◌/◌, ◌%◌, ◌^◌, ◌<◌, ◌≡◌, ◌≢◌, refl, sym, ap, ◌∙◌, Bool, true, false, ◌&&◌, ◌||◌, some, length,
  get_elem?, set, bit_and, bit_or, ◌==◌, eqb_refl, if◌then◌else◌, get_elem?-set_self,
  get_elem?-set_ne, get_elem?_of_lt, length-set, ℕ_discrete, lt_of_get_elem?, arith,
}
use cs16mem_model_vm.Base.Words.{test_bit}
use cs16mem_model_vm.Base.BitTests.{
  bit, bit-bit_or, bit-bit_and, bit-complement, bit-pow_self, bit-pow_ne, test_bit-bit, pow-lt_pow,
}
use cs16mem_model_vm.Kernel.Bitset.{Bitset, complement, bit_at, test, change, set_bit}

-- The bit of a position, in its block.
small_shift : (k : ℕ) → k < 32 → bit_at k ≡ 2 ^ k
small_shift k h = omega (arith, pow-lt_pow k 32 h)

set_value : (b k j : ℕ) → Bool → Bool
set_value b k j v = if j == k then v else test_bit b j

test_bit-set : (b k j : ℕ) → k < 32 → test_bit (bit_or b (bit_at k)) j ≡ set_value b k j true
unfolding set_value
test_bit-set b k j h =
    test_bit-bit j (bit_or b (bit_at k))
    ∙ bit-bit_or j b (bit_at k)
    ∙ ap (λ t. bit b j || bit t j) (small_shift k h)
    ∙ elim (ℕ_discrete j k) [
      | yes e ↦ ground (arith, bit-pow_self k, e)
      | no n ↦ ground (arith, bit-pow_ne k j (λ e. n (sym e)), test_bit-bit j b, n)
    ]

test_bit-clear :
    (b k j : ℕ)
    → k < 32
    → j < 32
    → test_bit (bit_and b (complement (bit_at k))) j ≡ set_value b k j false
unfolding set_value
test_bit-clear b k j h l =
    test_bit-bit j (bit_and b (complement (bit_at k)))
    ∙ bit-bit_and j b (complement (bit_at k))
    ∙ ap (λ t. bit b j && bit (complement t) j) (small_shift k h)
    ∙ ap (λ t. bit b j && t) (bit-complement 32 j (2 ^ k) l (pow-lt_pow k 32 h))
    ∙ elim (ℕ_discrete j k) [
      | yes e ↦ ground (arith, bit-pow_self k, e)
      | no n ↦ ground (arith, bit-pow_ne k j (λ e. n (sym e)), test_bit-bit j b, n)
    ]

-- A change of a block, at the position's own block and elsewhere.
change_self :
    (f : ℕ → ℕ) (bs : Bitset) (pos b : ℕ)
    → get_elem? bs (pos / 32) ≡ some b
    → (bs' : Bitset) × ((change f bs pos ≡ some bs')
        × ((get_elem? bs' (pos / 32) ≡ some (f b))
            × (((i : ℕ) → pos / 32 ≢ i → get_elem? bs' i ≡ get_elem? bs i)
                × (length bs' ≡ length bs))))
unfolding change
change_self f bs pos b h =
    rw (change, h)
      (
        set bs (pos / 32) (f b),
        (
          refl,
          (
            get_elem?-set_self bs (pos / 32) (f b) (lt_of_get_elem? bs (pos / 32) h),
            (λ i n. get_elem?-set_ne bs (pos / 32) i (f b) n, length-set bs (pos / 32) (f b)),
          ),
        ),
      )

-- What a write of the bit `pos` leaves: that bit, and every other bit of every block as it was.
pub record Written (bs bs' : Bitset) (pos : ℕ) (v : Bool) : Type 0 where
  pub here : test bs' pos ≡ some v
  pub elsewhere : (q : ℕ) → q ≢ pos → test bs' q ≡ test bs q
  pub same_length : length bs' ≡ length bs

written :
    (bs bs' : Bitset) (pos b c : ℕ) (v : Bool)
    → get_elem? bs (pos / 32) ≡ some b
    → get_elem? bs' (pos / 32) ≡ some c
    → ((i : ℕ) → pos / 32 ≢ i → get_elem? bs' i ≡ get_elem? bs i)
    → ((j : ℕ) → j < 32 → test_bit c j ≡ set_value b (pos % 32) j v)
    → length bs' ≡ length bs
    → Written bs bs' pos v
unfolding test set_value
written bs bs' pos b c v e e' other bits len = record {
  same_length = len;
  here = rw (test, e') (ap some (bits (pos % 32) (omega arith) ∙ rw (eqb_refl (pos % 32)) refl));
  elsewhere = λ q n. elim (ℕ_discrete (pos / 32) (q / 32)) [
    | yes same ↦
        rw (test, sym same, e, e') (ap some (bits (q % 32) (omega arith) ∙ ground (arith, same, n)))
    | no m ↦ rw (test, other (q / 32) m) refl
  ];
}

-- `set(pos, value)` within the array: it changes the bit `pos` and no other.
pub set_bit_lem :
    (bs : Bitset) (pos : ℕ) (v : Bool)
    → pos / 32 < length bs
    → (bs' : Bitset) × ((set_bit bs pos v ≡ some bs') × Written bs bs' pos v)
unfolding set_bit
set_bit_lem bs pos true h =
    let (b, e) = get_elem?_of_lt bs (pos / 32) h in
    let (bs', (r, (c, (o, len)))) = change_self (λ b. bit_or b (bit_at (pos % 32))) bs pos b e in
    (
      bs',
      (r, written bs bs' pos b _ true e c o (λ j l. test_bit-set b (pos % 32) j (omega arith)) len),
    )
set_bit_lem bs pos false h =
    let (b, e) = get_elem?_of_lt bs (pos / 32) h in
    let (bs', (r, (c, (o, len)))) =
      change_self (λ b. bit_and b (complement (bit_at (pos % 32)))) bs pos b e in
    (
      bs',
      (
        r,
        written bs bs' pos b _ false e c o (λ j l. test_bit-clear b (pos % 32) j (omega arith) l)
            len,
      ),
    )
