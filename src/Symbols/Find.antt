-- ===== src/Symbols/Find.antt =====
-- symbols.c: a symbol is found with its address, and it ends where the next one begins.
use github_upload.Base.{
  ℕ, zero, suc, List, [], Bool-cases, inl, inr, ◌∷◌, ◌++◌, true, false, some, pos, All, ◌≡◌, refl,
  ap, sym as sym', append-nil, ◌∙◌,
}
use github_upload.Text.{same_string_refl}
use github_upload.Symbols.{
  Symbol, KernSym, EachSymbol, is_named, find_symbol_callback, find_symbol_address, bytes_between,
  efault, measured,
}

-- A walk goes on from a callback that returned 0.
abbrev go_on : ℕ × KernSym → (KernSym → ℕ × KernSym) → ℕ × KernSym
go_on (zero, sym) rest = rest sym
go_on (suc n, sym) rest = (suc n, sym)

-- What the kernel documents of `kallsyms_on_each_symbol`: the callback gets the symbols of the table
-- in their order until it returns another number than 0, and that is the result.
abbrev pub walk : List Symbol → EachSymbol
walk [] callback sym = (0, sym)
walk (s ∷ table) callback sym = go_on (callback sym s) (walk table callback)

abbrev pub Walks : EachSymbol → List Symbol → Type 0
Walks each table =
    (callback : KernSym → Symbol → ℕ × KernSym) (sym : KernSym)
    → each callback sym ≡ walk table callback sym

-- Symbols with other names.
abbrev Others : List ℕ → List Symbol → Type 0
Others name = All (λ s. is_named name s.name ≡ false)

callback-other :
    (sym : KernSym) (s : Symbol)
    → sym.found ≡ false
    → is_named sym.name s.name ≡ false
    → find_symbol_callback sym s ≡ (0, sym)
unfolding find_symbol_callback
callback-other sym s f h = rw (h, f) refl

callback-found :
    (sym : KernSym) (s : Symbol)
    → sym.found ≡ true
    → find_symbol_callback sym s ≡ (1, record sym { end_addr = s.addr })
unfolding find_symbol_callback
callback-found sym s f = rw f refl

callback-named :
    (sym : KernSym) (s : Symbol)
    → sym.found ≡ false
    → is_named sym.name s.name ≡ true
    → find_symbol_callback sym s ≡ (0, record sym { addr = s.addr; found = true })
unfolding find_symbol_callback
callback-named sym s f h = rw (h, f) refl

module _ (sym : KernSym) (not_found : sym.found ≡ false) where
  walk-Others :
      (before rest : List Symbol)
      → Others sym.name before
      → walk (before ++ rest) find_symbol_callback sym ≡ walk rest find_symbol_callback sym
  walk-Others [] rest h = refl
  walk-Others (s ∷ before) rest h =
      ap (λ p. go_on p (walk (before ++ rest) find_symbol_callback))
        (callback-other sym s not_found h.0)
      ∙ walk-Others before rest h.1

  -- The walk from the symbol itself on: what comes behind it gives its end.
  walk-named :
      (s : Symbol) (rest : List Symbol)
      → is_named sym.name s.name ≡ true
      → walk (s ∷ rest) find_symbol_callback sym ≡ (elim rest [
        | [] ↦ (0, record sym { addr = s.addr; found = true })
        | next ∷ others ↦ (1, record sym { addr = s.addr; found = true; end_addr = next.addr })
      ])
  walk-named s [] h =
      ap (λ p. go_on p (walk [] find_symbol_callback)) (callback-named sym s not_found h)
  walk-named s (next ∷ others) h =
      ap (λ p. go_on p (walk (next ∷ others) find_symbol_callback))
        (callback-named sym s not_found h)
      ∙ ap (λ p. go_on p (walk others find_symbol_callback))
          (callback-found (record sym { addr = s.addr; found = true }) next refl)

module _ (each : EachSymbol) (name : List ℕ) (before : List Symbol) (sym : KernSym) where
  abbrev start : KernSym
  start = record sym { name = name; found = false }

  -- The first symbol of a name is found, with its address, and with the next symbol's as its end.
  pub find_symbol_address-finds :
      (a : ℕ) (next : Symbol) (rest : List Symbol)
      → Walks each (before ++ (record { name = some name; addr = a } ∷ next ∷ rest))
      → Others name before
      → find_symbol_address each name sym ≡ (
        pos 0,
        record sym {
          name = name;
          addr = a;
          end_addr = next.addr;
          size = bytes_between a next.addr;
          new_size = bytes_between a next.addr;
          run = a;
          found = true;
        },
      )
  unfolding find_symbol_address
  find_symbol_address-finds a next rest w o =
      let s : Symbol = record { name = some name; addr = a } in
      let walked =
        w find_symbol_callback start
        ∙ walk-Others start refl before (s ∷ next ∷ rest) o
        ∙ walk-named start refl s (next ∷ rest) (same_string_refl name) in
      ap measured walked

  -- A symbol that is the last of the table counts as not found, and so does one that is not there.
  find_symbol_address-last :
      (a : ℕ)
      → Walks each (before ++ (record { name = some name; addr = a } ∷ []))
      → Others name before
      → (find_symbol_address each name sym).0 ≡ efault
  unfolding find_symbol_address
  find_symbol_address-last a w o =
      let s : Symbol = record { name = some name; addr = a } in
      let walked =
        w find_symbol_callback start
        ∙ walk-Others start refl before (s ∷ []) o
        ∙ walk-named start refl s [] (same_string_refl name) in
      ap (λ p. (measured p).0) walked

  find_symbol_address-absent :
      Walks each before → Others name before → (find_symbol_address each name sym).0 ≡ efault
  unfolding find_symbol_address
  find_symbol_address-absent w o =
      let walked =
        w find_symbol_callback start
        ∙ ap (λ t. walk t find_symbol_callback start) (sym' (append-nil before))
        ∙ walk-Others start refl before [] o in
      ap (λ p. (measured p).0) walked

find_symbol_callback-hijacked :
    (sym : KernSym) (s : Symbol) → (find_symbol_callback sym s).1.hijacked ≡ sym.hijacked
unfolding find_symbol_callback
find_symbol_callback-hijacked sym s = elim (Bool-cases sym.found) [
  | inl found ↦ rw (find_symbol_callback, found) refl
  | inr more ↦ elim (Bool-cases (is_named sym.name s.name)) [
    | inl named ↦ rw (find_symbol_callback, more, named) refl
    | inr other ↦ rw (find_symbol_callback, more, other) refl
  ]
]

go_on-hijacked :
    (p : ℕ × KernSym) (rest : KernSym → ℕ × KernSym)
    → ((sym : KernSym) → (rest sym).1.hijacked ≡ sym.hijacked)
    → (go_on p rest).1.hijacked ≡ p.1.hijacked
go_on-hijacked (zero, sym) rest h = h sym
go_on-hijacked (suc n, sym) rest h = refl

walk-hijacked :
    (table : List Symbol) (sym : KernSym)
    → (walk table find_symbol_callback sym).1.hijacked ≡ sym.hijacked
walk-hijacked [] sym = refl
walk-hijacked (s ∷ table) sym =
    go_on-hijacked (find_symbol_callback sym s) (walk table find_symbol_callback)
      (walk-hijacked table)
    ∙ find_symbol_callback-hijacked sym s

measured-hijacked : (p : ℕ × KernSym) → (measured p).1.hijacked ≡ p.1.hijacked
measured-hijacked (zero, s) = refl
measured-hijacked (suc n, s) = refl

-- The search leaves open whether the symbol is hijacked.
pub find_symbol_address-hijacked :
    (each : EachSymbol) (table : List Symbol) (name : List ℕ) (sym : KernSym)
    → Walks each table
    → (find_symbol_address each name sym).1.hijacked ≡ sym.hijacked
unfolding find_symbol_address
find_symbol_address-hijacked each table name sym walks =
    let start : KernSym = record sym { name = name; found = false } in
    measured-hijacked (each find_symbol_callback start)
    ∙ ap (λ p. p.1.hijacked) (walks find_symbol_callback start)
    ∙ walk-hijacked table start
