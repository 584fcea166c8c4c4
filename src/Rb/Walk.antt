-- ===== src/Rb/Walk.antt =====
-- The erasing loop as a walk along the sorted entries, what it does when nothing matches, and the loop
-- over a whole tree.
use github_upload.Base.{
  ◌≤◌, ℕ, zero, suc, ◌-◌, ◌<◌, some, ◌≡◌, ◌≢◌, List, [], ◌∷◌, ◌++◌, refl, arith, All, ap, sym, ◌∙◌,
  subst, Bool, false, not, ok, unfinished, keep, length, append_assoc,
}
use github_upload.Rb.{
  Tree, to_list, RbOps, first_addr, entry_at, next_after, rb_next, rb_first, erase_where,
  erase_fuel, erase_all_where,
}
use github_upload.Rb.Erase.{
  Distinct, others, others_absent, round_end, round_keep, from_cursor-le, erase_where-ends,
  erase_where-kept, erase_where-counts,
}

module _ {A : Type 0} (addr : A → ℕ) where
  apart :
      (x : A) (xs : List A) (y : A) (ys : List A)
      → All (λ z. addr z ≢ addr x) (xs ++ (y ∷ ys))
      → addr x ≢ addr y
  apart x [] y ys h = ground arith
  apart x (z ∷ xs) y ys h = apart x xs y ys h.1

  entry_at-middle :
      (xs : List A) (y : A) (ys : List A)
      → Distinct addr (xs ++ (y ∷ ys))
      → entry_at addr (addr y) (xs ++ (y ∷ ys)) ≡ some y
  unfolding entry_at
  entry_at-middle [] y ys d = ground arith
  entry_at-middle (x ∷ xs) y ys d = ground (arith, apart x xs y ys d.0, entry_at-middle xs y ys d.1)

  next_after-middle :
      (xs : List A) (y : A) (ys : List A)
      → Distinct addr (xs ++ (y ∷ ys))
      → next_after addr (addr y) (xs ++ (y ∷ ys)) ≡ first_addr addr ys
  unfolding next_after
  next_after-middle [] y ys d = ground arith
  next_after-middle (x ∷ xs) y ys d =
      ground (arith, apart x xs y ys d.0, next_after-middle xs y ys d.1)

  others-middle :
      (xs : List A) (y : A) (ys : List A)
      → Distinct addr (xs ++ (y ∷ ys))
      → others addr (addr y) (xs ++ (y ∷ ys)) ≡ xs ++ ys
  others-middle [] y ys d = ground (arith, others_absent addr (addr y) ys d.0)
  others-middle (x ∷ xs) y ys d = ground (arith, apart x xs y ys d.0, others-middle xs y ys d.1)

module _ {A : Type 0} {addr : A → ℕ} (rb : RbOps addr) (test : A → Bool) where
  -- The walk that finds nothing to erase leaves tree and count as they are.
  walk_misses :
      (xs ys : List A) (f : ℕ) (t : Tree A) (n : ℕ)
      → to_list t ≡ xs ++ ys
      → Distinct addr (to_list t)
      → All (λ y. test y ≡ false) ys
      → length ys < f
      → erase_where rb test f (first_addr addr ys) t n ≡ ok (t, n)
  unfolding rb_next
  walk_misses xs ys zero t n e d m h = elim h [ ]
  walk_misses xs [] (suc f) t n e d m h = round_end rb test f t n
  walk_misses xs (y ∷ ys) (suc f) t n e d m h =
      let d' : Distinct addr (xs ++ (y ∷ ys)) = subst (Distinct addr) e d in
      round_keep rb test f (addr y) t n y
        (ap (entry_at addr (addr y)) e ∙ entry_at-middle addr xs y ys d') m.0
      ∙ ap (λ c. erase_where rb test f c t n)
          (ap (next_after addr (addr y)) e ∙ next_after-middle addr xs y ys d')
      ∙ walk_misses (xs ++ (y ∷ [])) ys f t n (e ∙ sym (append_assoc xs (y ∷ []) ys)) d m.1
          (omega arith)

  -- The loop over a whole tree ends.
  pub erase_all_where-ends :
      (t : Tree A) (n : ℕ) → Distinct addr (to_list t) → erase_all_where rb test t n ≢ unfinished
  unfolding erase_all_where rb_first
  erase_all_where-ends t n d =
      erase_where-ends rb test (erase_fuel (length (to_list t))) _ t n d
        (omega (arith, from_cursor-le addr (first_addr addr (to_list t)) (to_list t)))

  pub erase_all_where-kept :
      (t : Tree A) (n : ℕ) (t' : Tree A) (n' : ℕ)
      → Distinct addr (to_list t)
      → erase_all_where rb test t n ≡ ok (t', n')
      → keep (λ a. not (test a)) (to_list t') ≡ keep (λ a. not (test a)) (to_list t)
  unfolding erase_all_where
  erase_all_where-kept t n t' n' d e = erase_where-kept rb test _ _ t n t' n' d e

  pub erase_all_where-misses :
      (t : Tree A) (n : ℕ)
      → Distinct addr (to_list t)
      → All (λ y. test y ≡ false) (to_list t)
      → erase_all_where rb test t n ≡ ok (t, n)
  unfolding erase_all_where rb_first
  erase_all_where-misses t n d m =
      walk_misses [] (to_list t) (erase_fuel (length (to_list t))) t n refl d m (omega arith)

  pub erase_all_where-counts :
      (t : Tree A) (n : ℕ) (t' : Tree A) (n' : ℕ)
      → Distinct addr (to_list t)
      → erase_all_where rb test t n ≡ ok (t', n')
      → (length (to_list t') ≤ length (to_list t))
        × (n' ≡ n - (length (to_list t) - length (to_list t')))
  unfolding erase_all_where
  erase_all_where-counts t n t' n' d e = erase_where-counts rb test _ _ t n t' n' d e
