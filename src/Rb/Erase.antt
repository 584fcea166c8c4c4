-- ===== src/Rb/Erase.antt =====
-- The loop that erases while it walks: it ends, it never touches an entry that fails the test, and the
-- count goes down with each entry that it erases, wherever the freed nodes lead it.
use github_upload.Base.{
  ℕ, zero, suc, ◌+◌, ◌*◌, ◌-◌, ◌≤◌, ◌<◌, Option, none, some, ◌≡◌, ◌≢◌, List, [], ◌∷◌, refl, arith,
  All, inl, inr, ap, sym, ◌∙◌, Bool, true, false, not, ok, wild, unfinished, keep, length, ◌==◌,
  if◌then◌else◌, All-imp, subst, ok-injective, Option-cases, Bool-cases,
}
use github_upload.Rb.{Tree, to_list, RbOps, entry_at, next_after, rb_next, erase_where}

module _ {A : Type 0} (addr : A → ℕ) where
  -- No two entries stand at one address.
  abbrev pub Distinct : List A → Type 0
  Distinct [] = Unit
  Distinct (x ∷ xs) = All (λ y. addr y ≢ addr x) xs × Distinct xs

  abbrev pub others : ℕ → List A → List A
  others p = keep (λ a. not (addr a == p))

  pub others_absent : (p : ℕ) (xs : List A) → All (λ y. addr y ≢ p) xs → others p xs ≡ xs
  others_absent p [] h = refl
  others_absent p (x ∷ xs) h = ground (arith, others_absent p xs h.1)

  length-others : (p : ℕ) (xs : List A) → length (others p xs) ≤ length xs
  length-others p [] = omega arith
  length-others p (x ∷ xs) = ground (arith, length-others p xs)

  length-others_lt :
      (p : ℕ) (xs : List A) (a : A) → entry_at addr p xs ≡ some a → length (others p xs) < length xs
  unfolding entry_at
  length-others_lt p [] a h = cc
  length-others_lt p (x ∷ xs) a h = ground (arith, length-others_lt p xs a, length-others p xs)

  pub All-others {κ} : (P : A → Type κ) (p : ℕ) (xs : List A) → All P xs → All P (others p xs)
  All-others P p [] h = tt
  All-others P p (x ∷ xs) h = ground (arith, All-others P p xs h.1)

  pub Distinct-others : (p : ℕ) (xs : List A) → Distinct xs → Distinct (others p xs)
  Distinct-others p [] d = tt
  Distinct-others p (x ∷ xs) d =
      ground (arith, All-others (λ y. addr y ≢ addr x) p xs d.0, Distinct-others p xs d.1)

  -- Erasing an entry that passes the test leaves those that fail it.
  others-kept :
      (test : A → Bool) (p : ℕ) (a : A) (xs : List A)
      → Distinct xs
      → entry_at addr p xs ≡ some a
      → test a ≡ true
      → keep (λ x. not (test x)) (others p xs) ≡ keep (λ x. not (test x)) xs
  unfolding entry_at
  others-kept test p a [] d h e = refl
  others-kept test p a (x ∷ xs) d h e = elim (Bool-cases (addr x == p)) [
    | inl same ↦
        let q : others p xs ≡ xs = others_absent p xs (All-imp _ _ xs (λ y n. ground arith) d.0) in
        ground (arith, q)
    | inr other ↦ ground (arith, others-kept test p a xs d.1)
  ]

  length-others_one :
      (p : ℕ) (a : A) (xs : List A)
      → Distinct xs
      → entry_at addr p xs ≡ some a
      → length (others p xs) + 1 ≡ length xs
  unfolding entry_at
  length-others_one p a [] d h = cc
  length-others_one p a (x ∷ xs) d h = elim (Bool-cases (addr x == p)) [
    | inl same ↦
        let q : others p xs ≡ xs = others_absent p xs (All-imp _ _ xs (λ y n. ground arith) d.0) in
        rw (same, q) (omega arith)
    | inr other ↦ ground (arith, length-others_one p a xs d.1)
  ]

  -- How many entries the list has from address `p` on.
  pub from_addr : ℕ → List A → ℕ
  from_addr p [] = 0
  from_addr p (x ∷ xs) = if addr x == p then suc (length xs) else from_addr p xs

  abbrev pub from_cursor : Option ℕ → List A → ℕ
  from_cursor none xs = 0
  from_cursor (some p) xs = from_addr p xs

  from_addr-le : (p : ℕ) (xs : List A) → from_addr p xs ≤ length xs
  unfolding from_addr
  from_addr-le p [] = omega arith
  from_addr-le p (x ∷ xs) = ground (arith, from_addr-le p xs)

  pub from_cursor-le : (c : Option ℕ) (xs : List A) → from_cursor c xs ≤ length xs
  from_cursor-le none xs = omega arith
  from_cursor-le (some p) xs = from_addr-le p xs

  next_after-ne :
      (p q r : ℕ) (xs : List A) → All (λ y. addr y ≢ r) xs → next_after addr p xs ≡ some q → r ≢ q
  unfolding next_after
  next_after-ne p q r [] h e = cc
  next_after-ne p q r (x ∷ []) h e = ground arith
  next_after-ne p q r (x ∷ y ∷ xs) h e = ground (arith, next_after-ne p q r (y ∷ xs) h.1)

  -- The walk makes way with each step to a successor.
  from_cursor-next :
      (p : ℕ) (a : A) (xs : List A)
      → Distinct xs
      → entry_at addr p xs ≡ some a
      → from_cursor (next_after addr p xs) xs < from_addr p xs
  unfolding entry_at next_after from_addr
  from_cursor-next p a [] d h = cc
  from_cursor-next p a (x ∷ []) d h = ground arith
  from_cursor-next p a (x ∷ y ∷ xs) d h = elim (Option-cases (next_after addr p (y ∷ xs))) [
    | inl e ↦ ground (arith, from_cursor-next p a (y ∷ xs) d.1)
    | inr (q, e) ↦
        ground (arith, next_after-ne p q (addr x) (y ∷ xs) d.0 e, from_cursor-next p a (y ∷ xs) d.1)
  ]

module _ {A : Type 0} {addr : A → ℕ} (rb : RbOps addr) (test : A → Bool) where
  length-erased :
      (p : ℕ) (t : Tree A) (a : A)
      → entry_at addr p (to_list t) ≡ some a
      → length (to_list (rb.rb_erase p t)) < length (to_list t)
  length-erased p t a h = rw (rb.to_list-rb_erase p t) (length-others_lt addr p (to_list t) a h)

  pub Distinct-erased :
      (p : ℕ) (t : Tree A) → Distinct addr (to_list t) → Distinct addr (to_list (rb.rb_erase p t))
  Distinct-erased p t d = rw (rb.to_list-rb_erase p t) (Distinct-others addr p (to_list t) d)

  square_room : (n m r s f : ℕ) → m < n → r ≤ m → n * (n + 1) + s < suc f → m * (m + 1) + r < f
  square_room n m r s f h k l = grind arith

  -- One round of the loop, by what stands at the cursor.
  pub round_out : (c : Option ℕ) (t : Tree A) (n : ℕ) → erase_where rb test zero c t n ≡ unfinished
  unfolding erase_where
  round_out c t n = refl

  pub round_end : (f : ℕ) (t : Tree A) (n : ℕ) → erase_where rb test (suc f) none t n ≡ ok (t, n)
  unfolding erase_where
  round_end f t n = refl

  pub round_wild :
      (f p : ℕ) (t : Tree A) (n : ℕ)
      → entry_at addr p (to_list t) ≡ none
      → erase_where rb test (suc f) (some p) t n ≡ wild
  unfolding erase_where
  round_wild f p t n e = rw (e, erase_where)

  pub round_erase :
      (f p : ℕ) (t : Tree A) (n : ℕ) (a : A)
      → entry_at addr p (to_list t) ≡ some a
      → test a ≡ true
      → let t' = rb.rb_erase p t in
        erase_where rb test (suc f) (some p) t n
        ≡ erase_where rb test f (rb.next_erased p t') t' (n - 1)
  unfolding erase_where
  round_erase f p t n a e h = rw (e, erase_where) (rw (h, erase_where))

  pub round_keep :
      (f p : ℕ) (t : Tree A) (n : ℕ) (a : A)
      → entry_at addr p (to_list t) ≡ some a
      → test a ≡ false
      → erase_where rb test (suc f) (some p) t n ≡ erase_where rb test f (rb_next addr p t) t n
  unfolding erase_where
  round_keep f p t n a e h = rw (e, erase_where) (rw (h, erase_where))

  -- The loop ends, wherever the freed nodes lead it.
  pub erase_where-ends :
      (f : ℕ) (c : Option ℕ) (t : Tree A) (n : ℕ)
      → Distinct addr (to_list t)
      → length (to_list t) * (length (to_list t) + 1) + from_cursor addr c (to_list t) < f
      → erase_where rb test f c t n ≢ unfinished
  unfolding rb_next
  erase_where-ends zero c t n d h e = elim h [ ]
  erase_where-ends (suc f) none t n d h e = cc (round_end f t n, e)
  erase_where-ends (suc f) (some p) t n d h e = elim (Option-cases (entry_at addr p (to_list t))) [
    | inl out ↦ cc (round_wild f p t n out, e)
    | inr (a, found) ↦ elim (Bool-cases (test a)) [
      | inl hit ↦
          let u = rb.rb_erase p t in
          erase_where-ends f (rb.next_erased p u) u (n - 1) (Distinct-erased p t d)
            (square_room (length (to_list t)) (length (to_list u)) _ _ f (length-erased p t a found)
              (from_cursor-le addr _ (to_list u)) h)
            (sym (round_erase f p t n a found hit) ∙ e)
      | inr miss ↦
          erase_where-ends f (rb_next addr p t) t n d
            (omega (arith, from_cursor-next addr p a (to_list t) d found))
            (sym (round_keep f p t n a found miss) ∙ e)
    ]
  ]

  -- What it leaves holds every entry that fails the test, in the same order.
  pub erase_where-kept :
      (f : ℕ) (c : Option ℕ) (t : Tree A) (n : ℕ) (t' : Tree A) (n' : ℕ)
      → Distinct addr (to_list t)
      → erase_where rb test f c t n ≡ ok (t', n')
      → keep (λ a. not (test a)) (to_list t') ≡ keep (λ a. not (test a)) (to_list t)
  erase_where-kept zero c t n t' n' d e = cc (round_out c t n, e)
  erase_where-kept (suc f) none t n t' n' d e = ground (arith, sym (round_end f t n) ∙ e)
  erase_where-kept (suc f) (some p) t n t' n' d e =
      elim (Option-cases (entry_at addr p (to_list t))) [
        | inl out ↦ cc (round_wild f p t n out, e)
        | inr (a, found) ↦ elim (Bool-cases (test a)) [
          | inl hit ↦
              erase_where-kept f _ (rb.rb_erase p t) (n - 1) t' n' (Distinct-erased p t d)
                (sym (round_erase f p t n a found hit) ∙ e)
              ∙ ap (keep (λ x. not (test x))) (rb.to_list-rb_erase p t)
              ∙ others-kept addr test p a (to_list t) d found hit
          | inr miss ↦ erase_where-kept f _ t n t' n' d (sym (round_keep f p t n a found miss) ∙ e)
        ]
      ]

  -- The count goes down, as far as 0, by the number of entries that have gone.
  pub erase_where-counts :
      (f : ℕ) (c : Option ℕ) (t : Tree A) (n : ℕ) (t' : Tree A) (n' : ℕ)
      → Distinct addr (to_list t)
      → erase_where rb test f c t n ≡ ok (t', n')
      → (length (to_list t') ≤ length (to_list t))
        × (n' ≡ n - (length (to_list t) - length (to_list t')))
  erase_where-counts zero c t n t' n' d e = cc (round_out c t n, e)
  erase_where-counts (suc f) none t n t' n' d e =
      subst
        (λ r.
          (length (to_list r.0) ≤ length (to_list t))
          × (r.1 ≡ n - (length (to_list t) - length (to_list r.0))))
        (ok-injective _ _ (sym (round_end f t n) ∙ e)) (omega arith, omega arith)
  erase_where-counts (suc f) (some p) t n t' n' d e =
      elim (Option-cases (entry_at addr p (to_list t))) [
        | inl out ↦ cc (round_wild f p t n out, e)
        | inr (a, found) ↦ elim (Bool-cases (test a)) [
          | inl hit ↦
              let u : Tree A = rb.rb_erase p t in
              let (le, less) =
                erase_where-counts f (rb.next_erased p u) u (n - 1) t' n' (Distinct-erased p t d)
                  (sym (round_erase f p t n a found hit) ∙ e) in
              let one : length (to_list u) + 1 ≡ length (to_list t) =
                ap (λ z. length z + 1) (rb.to_list-rb_erase p t)
                ∙ length-others_one addr p a (to_list t) d found in
              (omega arith, omega arith)
          | inr miss ↦
              erase_where-counts f (rb_next addr p t) t n t' n' d
                (sym (round_keep f p t n a found miss) ∙ e)
        ]
      ]
