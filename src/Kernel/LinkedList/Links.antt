-- ===== src/Kernel/LinkedList/Links.antt =====
-- What the nodes of `ministl::list` (kernel/kstl/Queue.h) say of a sequence of cells, and how a store
-- keeps or changes it.
use cs16mem_model_vm.Base.{
  ℕ, ◌+◌, ◌<◌, ◌≡◌, ◌≢◌, refl, subst, Option, some, List, [], ◌∷◌, ◌++◌, update, Among, Distinct,
  arith, ◌⊎◌, inl, inr,
}
use cs16mem_model_vm.Kernel.LinkedList.{Node, null, LinkedList}

module _ {ℓ} {V : Type ℓ} where
  -- A cell is the address of a node and its value.
  abbrev pub addresses : List (ℕ × V) → List ℕ
  addresses [] = []
  addresses ((a, v) ∷ cs) = a ∷ addresses cs

  abbrev pub values : List (ℕ × V) → List V
  values [] = []
  values ((a, v) ∷ cs) = v ∷ values cs

  abbrev pub first : List (ℕ × V) → ℕ → ℕ
  first [] other = other
  first ((a, v) ∷ cs) other = a

  abbrev pub last : List (ℕ × V) → ℕ → ℕ
  last [] other = other
  last ((a, v) ∷ cs) other = last cs a

  -- The nodes of the cells follow each other, between the addresses `p` and `n`.
  abbrev pub Linked : (ℕ → Option (Node V)) → (p : ℕ) → List (ℕ × V) → (n : ℕ) → Type ℓ
  Linked nodes p [] n = Unit
  Linked nodes p ((a, v) ∷ cs) n =
      (nodes a ≡ some (record { prev = p; next = first cs n; value = v })) × Linked nodes a cs n

  -- The addresses of the cells are those of live nodes, each once.
  abbrev pub Live : ℕ → List (ℕ × V) → Type 0
  Live fresh [] = Unit
  Live fresh ((a, v) ∷ cs) = (0 < a) × ((a < fresh) × Live fresh cs)

  -- The list has the cells, whatever its size says.
  pub record IsChain (l : LinkedList V) (cells : List (ℕ × V)) : Type ℓ where
    pub starts : l.head ≡ first cells null
    pub ends : l.tail ≡ last cells null
    pub linked : Linked l.nodes null cells null
    pub distinct : Distinct (addresses cells)
    pub live : Live l.fresh cells
    pub some_address : 0 < l.fresh

  pub update_ne :
      (nodes : ℕ → Option (Node V)) (a b : ℕ) (o : Option (Node V))
      → a ≢ b
      → update nodes a o b ≡ nodes b
  update_ne nodes a b o n = ground (arith, n)

  pub Linked-frame :
      (nodes : ℕ → Option (Node V)) (a : ℕ) (o : Option (Node V)) (p : ℕ) (cs : List (ℕ × V))
      (n : ℕ)
      → ¬ Among a (addresses cs)
      → Linked nodes p cs n
      → Linked (update nodes a o) p cs n
  Linked-frame nodes a o p [] n not h = tt
  Linked-frame nodes a o p ((b, v) ∷ cs) n not h =
      let differs : a ≢ b = λ e. not (inl e) in
      (ground (arith, h.0, differs), Linked-frame nodes a o b cs n (λ k. not (inr k)) h.1)

  pub Linked-++ :
      (nodes : ℕ → Option (Node V)) (p : ℕ) (xs ys : List (ℕ × V)) (n : ℕ)
      → Linked nodes p xs (first ys n)
      → Linked nodes (last xs p) ys n
      → Linked nodes p (xs ++ ys) n
  Linked-++ nodes p [] ys n h k = k
  Linked-++ nodes p ((a, v) ∷ []) ys n h k = (h.0, k)
  Linked-++ nodes p ((a, v) ∷ (b, w) ∷ xs) ys n h k =
      (h.0, Linked-++ nodes a ((b, w) ∷ xs) ys n h.1 k)

  pub ++-Linked :
      (nodes : ℕ → Option (Node V)) (p : ℕ) (xs ys : List (ℕ × V)) (n : ℕ)
      → Linked nodes p (xs ++ ys) n
      → Linked nodes p xs (first ys n) × Linked nodes (last xs p) ys n
  ++-Linked nodes p [] ys n h = (tt, h)
  ++-Linked nodes p ((a, v) ∷ []) ys n h = ((h.0, tt), h.1)
  ++-Linked nodes p ((a, v) ∷ (b, w) ∷ xs) ys n h =
      let (front, back) = ++-Linked nodes a ((b, w) ∷ xs) ys n h.1 in ((h.0, front), back)

  pub fresh-Among : (f : ℕ) (cs : List (ℕ × V)) → Live f cs → ¬ Among f (addresses cs)
  fresh-Among f [] h k = k
  fresh-Among f ((a, v) ∷ cs) h (inl e) = absurd (omega (arith, h.1.0, e))
  fresh-Among f ((a, v) ∷ cs) h (inr k) = fresh-Among f cs h.1.1 k

  pub Live-suc : (f : ℕ) (cs : List (ℕ × V)) → Live f cs → Live (f + 1) cs
  Live-suc f [] h = tt
  Live-suc f ((a, v) ∷ cs) h = (h.0, (omega (arith, h.1.0), Live-suc f cs h.1.1))

  pub Live-++ : (f : ℕ) (xs ys : List (ℕ × V)) → Live f xs → Live f ys → Live f (xs ++ ys)
  Live-++ f [] ys h k = k
  Live-++ f ((a, v) ∷ xs) ys h k = (h.0, (h.1.0, Live-++ f xs ys h.1.1 k))

  pub ++-Live : (f : ℕ) (xs ys : List (ℕ × V)) → Live f (xs ++ ys) → Live f xs × Live f ys
  ++-Live f [] ys h = (tt, h)
  ++-Live f ((a, v) ∷ xs) ys h = let (x, y) = ++-Live f xs ys h.1.1 in ((h.0, (h.1.0, x)), y)

  pub Among-++ :
      (x : ℕ) (xs ys : List (ℕ × V))
      → Among x (addresses (xs ++ ys))
      → Among x (addresses xs) ⊎ Among x (addresses ys)
  Among-++ x [] ys h = inr h
  Among-++ x ((a, v) ∷ xs) ys (inl e) = inl (inl e)
  Among-++ x ((a, v) ∷ xs) ys (inr h) = elim (Among-++ x xs ys h) [
    | inl k ↦ inl (inr k)
    | inr k ↦ inr k
  ]

  pub ++-Among :
      (x : ℕ) (xs ys : List (ℕ × V))
      → Among x (addresses xs) ⊎ Among x (addresses ys)
      → Among x (addresses (xs ++ ys))
  ++-Among x [] ys (inl h) = absurd h
  ++-Among x [] ys (inr h) = h
  ++-Among x ((a, v) ∷ xs) ys (inl (inl e)) = inl e
  ++-Among x ((a, v) ∷ xs) ys (inl (inr h)) = inr (++-Among x xs ys (inl h))
  ++-Among x ((a, v) ∷ xs) ys (inr h) = inr (++-Among x xs ys (inr h))

  pub ++-Distinct :
      (xs ys : List (ℕ × V))
      → Distinct (addresses (xs ++ ys))
      → Distinct (addresses xs)
        × (Distinct (addresses ys) × ((x : ℕ) → Among x (addresses xs) → ¬ Among x (addresses ys)))
  ++-Distinct [] ys d = (tt, (d, λ x h. absurd h))
  ++-Distinct ((a, v) ∷ xs) ys d =
      let (dx, (dy, apart)) = ++-Distinct xs ys d.1 in
      ((λ h. d.0 (++-Among a xs ys (inl h)), dx), (dy, λ x h k. by_place x h k apart))
    where
      by_place :
          (x : ℕ)
          → Among x (addresses ((a, v) ∷ xs))
          → Among x (addresses ys)
          → ((y : ℕ) → Among y (addresses xs) → ¬ Among y (addresses ys))
          → ⊥
      by_place x (inl e) k apart =
          d.0 (++-Among a xs ys (inr (subst (λ y. Among y (addresses ys)) e k)))
      by_place x (inr h) k apart = apart x h k

  -- The last node of a chain is given another successor.
  pub relink_last :
      (nodes : ℕ → Option (Node V)) (p a : ℕ) (v : V) (cs : List (ℕ × V)) (n to : ℕ)
      → Distinct (addresses ((a, v) ∷ cs))
      → Linked nodes p ((a, v) ∷ cs) n
      → (node : Node V) × (((nodes (last cs a) ≡ some node) × (node.next ≡ n))
          × Linked (update nodes (last cs a) (some (record node { next = to }))) p ((a, v) ∷ cs) to)
  relink_last nodes p a v [] n to d h =
      (record { prev = p; next = n; value = v }, ((h.0, refl), (ground arith, tt)))
  relink_last nodes p a v ((b, w) ∷ cs) n to d h =
      let (node, (e, linked)) = relink_last nodes a b w cs n to d.1 h.1 in
      let other : last cs b ≢ a =
        λ q. d.0 (subst (λ x. Among x (addresses ((b, w) ∷ cs))) q (last-Among b w cs)) in
      (node, (e, (ground (arith, h.0, other), linked)))
    where
      last-Among : (c : ℕ) (u : V) (ds : List (ℕ × V)) → Among (last ds c) (addresses ((c, u) ∷ ds))
      last-Among c u [] = inl refl
      last-Among c u ((d, x) ∷ ds) = inr (last-Among d x ds)

  -- The first node of a chain is given another predecessor.
  pub relink_first :
      (nodes : ℕ → Option (Node V)) (p a : ℕ) (v : V) (cs : List (ℕ × V)) (n to : ℕ)
      → Distinct (addresses ((a, v) ∷ cs))
      → Linked nodes p ((a, v) ∷ cs) n
      → Linked
          (update nodes a (some (record { prev = to; next = first cs n; value = v })))
          to
          ((a, v) ∷ cs)
          n
  relink_first nodes p a v cs n to d h = (
    ground arith,
    Linked-frame nodes a (some (record { prev = to; next = first cs n; value = v })) a cs n d.0 h.1,
  )

  pub last-Among : (c : ℕ) (u : V) (ds : List (ℕ × V)) → Among (last ds c) (addresses ((c, u) ∷ ds))
  last-Among c u [] = inl refl
  last-Among c u ((d, x) ∷ ds) = inr (last-Among d x ds)

  pub last-++ :
      (xs : List (ℕ × V)) (y : ℕ) (w : V) (ys : List (ℕ × V)) (p : ℕ)
      → last (xs ++ (y, w) ∷ ys) p ≡ last ys y
  last-++ [] y w ys p = refl
  last-++ ((a, v) ∷ xs) y w ys p = last-++ xs y w ys a
