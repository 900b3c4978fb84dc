-- ===== src/Machine/Files/Slots.antt =====
-- The slots of the file table of machine/FileSystem.cpp, which `freeVFDs` lists when they are empty.
use cs16mem_model_vm.Base.{
  ℕ, ◌≡◌, ◌≢◌, ◌∙◌, sym, ap, refl, inl, inr, Option, none, some, List, [], ◌∷◌, ◌++◌, length,
  get_elem?, set, get_elem?-append_self, get_elem?-append_ne, get_elem?-set_self, get_elem?-set_ne,
  get_elem?_past, ℕ_discrete, lt_of_get_elem?, Among, Distinct, arith,
}
use cs16mem_model_vm.Machine.Trap.{ok}
use cs16mem_model_vm.Machine.Host.{open_file, close_file, Host, ask, next_reply}
use cs16mem_model_vm.Machine.Files.{
  OpenFile, FileSystem, no_files, word_minus_one, open_host, reuse, open_vfd, append_file,
  close_vfd,
}

pub record IsValid (fs : FileSystem) : Type 0 where
  pub free_is_empty : (v : ℕ) → Among v fs.free_vfds → get_elem? fs.files v ≡ some none
  pub empty_is_free : (v : ℕ) → get_elem? fs.files v ≡ some none → Among v fs.free_vfds
  pub distinct : Distinct fs.free_vfds

pub no_files-IsValid : IsValid no_files
no_files-IsValid = record {
  free_is_empty = λ v h. absurd h;
  empty_is_free = λ v h. cc;
  distinct = tt;
}

-- The table after slot `vfd` got the contents `slot`, and no other slot changed.
pub record Changed (fs fs' : FileSystem) (vfd : ℕ) (slot : Option OpenFile) : Type 0 where
  pub here : get_elem? fs'.files vfd ≡ some slot
  pub elsewhere : (v : ℕ) → v ≢ vfd → get_elem? fs'.files v ≡ get_elem? fs.files v
  pub valid : IsValid fs'

abbrev pub opened_file : Host → OpenFile
opened_file h = record { fd = (next_reply h.replies).value; err = 0; offset = 0 }

Among-tail : (v x : ℕ) (xs : List ℕ) → Among v (x ∷ xs) → v ≢ x → Among v xs
Among-tail v x xs (inl e) n = absurd (n e)
Among-tail v x xs (inr m) n = m

-- A call of `open` that succeeds on an unoccupied slot.
abbrev pub Opens : List ℕ → ℕ → Host → FileSystem → Type 0
Opens path flags host fs =
    (vfd : ℕ) × (fs' : FileSystem) × (open_vfd fs path flags host
      ≡ ok (vfd, fs', (ask (open_file path flags) host).1))
    × ((f : OpenFile) → get_elem? fs.files vfd ≢ some (some f))
    × Changed fs fs' vfd (some (opened_file host))

module _ (path : List ℕ) (flags : ℕ) (host : Host) (fs : FileSystem) (valid : IsValid fs)
    (granted : (next_reply host.replies).value ≢ word_minus_one)
    (room : length fs.files ≢ fs.capacity) where
  open_host-ok :
      open_host path flags host ≡ ok (opened_file host, (ask (open_file path flags) host).1)
  unfolding open_host
  open_host-ok = ground arith

  -- The empty slot that `open` fills is the back of `freeVFDs`.
  filled-Changed :
      (vfd : ℕ) (rest : List ℕ)
      → fs.free_vfds ≡ vfd ∷ rest
      → Changed fs
          (record fs { files = set fs.files vfd (some (opened_file host)); free_vfds = rest })
          vfd
          (some (opened_file host))
  filled-Changed vfd rest e = record {
    here = set_here;
    elsewhere = λ v n. get_elem?-set_ne fs.files vfd v _ (λ p. n (sym p));
    valid = record {
      free_is_empty = λ v m.
          get_elem?-set_ne fs.files vfd v _ (λ p. fresh.0 (rw p m))
          ∙ valid.free_is_empty v (rw e (inr m));
      empty_is_free = λ v h. elim (ℕ_discrete v vfd) [
        | yes p ↦ cc (set_here, ap (get_elem? (set fs.files vfd (some (opened_file host)))) p, h)
        | no n ↦
            let old = sym (get_elem?-set_ne fs.files vfd v _ (λ p. n (sym p))) ∙ h in
            Among-tail v vfd rest (rw e at (valid.empty_is_free v old)) n
      ];
      distinct = fresh.1;
    };
  }
    where
      slot : get_elem? fs.files vfd ≡ some none
      slot = valid.free_is_empty vfd (rw e (inl refl))

      fresh : Distinct (vfd ∷ rest)
      fresh = rw e at valid.distinct

      set_here :
          get_elem? (set fs.files vfd (some (opened_file host))) vfd
          ≡ some (some (opened_file host))
      set_here = get_elem?-set_self fs.files vfd _ (lt_of_get_elem? fs.files vfd slot)

  appended-Changed :
      fs.free_vfds ≡ []
      → Changed fs
          (record fs { files = fs.files ++ (some (opened_file host) ∷ []) })
          (length fs.files)
          (some (opened_file host))
  appended-Changed e = record {
    here = get_elem?-append_self fs.files _;
    elsewhere = λ v n. get_elem?-append_ne fs.files _ v n;
    valid = record {
      free_is_empty = λ v m. absurd (rw e at m);
      empty_is_free = λ v h. elim (ℕ_discrete v (length fs.files)) [
        | yes p ↦ cc (get_elem?-append_self fs.files (some (opened_file host)), p, h)
        | no n ↦ valid.empty_is_free v (sym (get_elem?-append_ne fs.files _ v n) ∙ h)
      ];
      distinct = valid.distinct;
    };
  }

  Opens-by : (l : List ℕ) → fs.free_vfds ≡ l → Opens path flags host fs
  unfolding open_vfd reuse append_file
  Opens-by [] e = (
    length fs.files,
    record fs { files = fs.files ++ (some (opened_file host) ∷ []) },
    ground (arith, open_host-ok),
    λ f p. cc (get_elem?_past fs.files (length fs.files) (omega arith), p),
    appended-Changed e,
  )
  Opens-by (vfd ∷ rest) e =
      let slot = valid.free_is_empty vfd (rw e (inl refl)) in
      (
        vfd,
        record fs { files = set fs.files vfd (some (opened_file host)); free_vfds = rest },
        rw (e, open_vfd, slot, reuse, open_host-ok),
        λ f p. cc (slot, p),
        filled-Changed vfd rest e,
      )

  -- On a valid table with room for one more, `open`, if the host opens the file, never fails: it returns a slot that held
  -- no file, puts the new file there, leaves every other slot, and keeps the table valid.
  open_vfd-Opens : Opens path flags host fs
  open_vfd-Opens = Opens-by fs.free_vfds refl

-- On a valid table `close` of a slot that holds a file, if the host closes it, returns 0, empties
-- the slot, leaves every other, and keeps the table valid.
close_vfd-Changed :
    (vfd : ℕ) (host : Host) (fs : FileSystem) (f : OpenFile)
    → IsValid fs
    → get_elem? fs.files vfd ≡ some (some f)
    → (next_reply host.replies).value ≡ 0
    → (fs' : FileSystem) × (close_vfd fs vfd host ≡ ok (0, fs', (ask (close_file f.fd) host).1))
      × Changed fs fs' vfd none
unfolding close_vfd
close_vfd-Changed vfd host fs f valid opened done = (
  record fs { files = set fs.files vfd none; free_vfds = vfd ∷ fs.free_vfds },
  rw (opened, close_vfd, done),
  record {
    here = set_here;
    elsewhere = λ v n. get_elem?-set_ne fs.files vfd v _ (λ p. n (sym p));
    valid = record {
      free_is_empty = λ v m. elim (ℕ_discrete v vfd) [
        | yes p ↦ rw p set_here
        | no n ↦
            get_elem?-set_ne fs.files vfd v _ (λ p. n (sym p))
            ∙ valid.free_is_empty v (Among-tail v vfd fs.free_vfds m n)
      ];
      empty_is_free = λ v h. elim (ℕ_discrete v vfd) [
        | yes p ↦ inl p
        | no n ↦
            inr
              (valid.empty_is_free v (sym (get_elem?-set_ne fs.files vfd v _ (λ p. n (sym p))) ∙ h))
      ];
      distinct = (λ m. cc (valid.free_is_empty vfd m, opened), valid.distinct);
    };
  },
)
  where
    set_here : get_elem? (set fs.files vfd none) vfd ≡ some none
    set_here = get_elem?-set_self fs.files vfd none (lt_of_get_elem? fs.files vfd opened)
