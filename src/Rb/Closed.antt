-- ===== src/Rb/Closed.antt =====
-- What the loop that erases, an insertion and a write through a pointer leave of a predicate on lists.
use github_upload.Base.{
  ℕ, zero, suc, ◌-◌, ◌<◌, Option, none, some, ◌≡◌, ◌≢◌, List, [], ◌∷◌, ◌++◌, arith, All, All-left,
  All-right, All-imp, inl, inr, sym, ◌∙◌, subst, Bool, ok, Option-cases, Bool-cases,
}
use github_upload.Rb.{Tree, to_list, RbOps, entry_at, erase_where, erase_all_where}
use github_upload.Rb.Split.{IsSorted}
use github_upload.Rb.Attach.{Placed, Placed-IsSorted}
use github_upload.Rb.Erase.{
  Distinct, others, All-others, round_out, round_end, round_wild, round_erase, round_keep,
}

module _ {A : Type 0} {addr : A → ℕ} (rb : RbOps addr) (test : A → Bool) (P : List A → Type 0)
    (closed : (p : ℕ) (xs : List A) → P xs → P (others addr p xs)) where
  pub erase-closed : (p : ℕ) (t : Tree A) → P (to_list t) → P (to_list (rb.rb_erase p t))
  erase-closed p t h = subst P (sym (rb.to_list-rb_erase p t)) (closed p (to_list t) h)

  -- What erasing one entry keeps, the loop keeps.
  erase_where-closed :
      (f : ℕ) (c : Option ℕ) (t : Tree A) (n : ℕ) (t' : Tree A) (n' : ℕ)
      → P (to_list t)
      → erase_where rb test f c t n ≡ ok (t', n')
      → P (to_list t')
  erase_where-closed zero c t n t' n' h e = cc (round_out rb test c t n, e)
  erase_where-closed (suc f) none t n t' n' h e =
      let q : t' ≡ t = ground (arith, sym (round_end rb test f t n) ∙ e) in rw q h
  erase_where-closed (suc f) (some p) t n t' n' h e =
      elim (Option-cases (entry_at addr p (to_list t))) [
        | inl out ↦ cc (round_wild rb test f p t n out, e)
        | inr (a, found) ↦ elim (Bool-cases (test a)) [
          | inl hit ↦
              erase_where-closed f _ (rb.rb_erase p t) (n - 1) t' n' (erase-closed p t h)
                (sym (round_erase rb test f p t n a found hit) ∙ e)
          | inr miss ↦
              erase_where-closed f _ t n t' n' h (sym (round_keep rb test f p t n a found miss) ∙ e)
        ]
      ]

  pub erase_all_where-closed :
      (t : Tree A) (n : ℕ) (t' : Tree A) (n' : ℕ)
      → P (to_list t)
      → erase_all_where rb test t n ≡ ok (t', n')
      → P (to_list t')
  unfolding erase_all_where
  erase_all_where-closed t n t' n' h e = erase_where-closed _ _ t n t' n' h e

module _ {A : Type 0} (addr : A → ℕ) where
  pub IsSorted-others :
      (Before : A → A → Type 0) (p : ℕ) (xs : List A)
      → IsSorted Before xs
      → IsSorted Before (others addr p xs)
  IsSorted-others Before p [] s = tt
  IsSorted-others Before p (x ∷ xs) s =
      ground (arith, All-others addr (Before x) p xs s.0, IsSorted-others Before p xs s.1)

  -- An entry at the next address to be handed out is put in beside entries at other addresses.
  pub Placed-Distinct :
      (x : A) (xs ys : List A)
      → Placed (λ a b. Unit {0}) x xs ys
      → All (λ a. addr a < addr x) xs
      → Distinct addr xs
      → Distinct addr ys
  Placed-Distinct x xs ys p h d =
      Placed-IsSorted (λ a b. addr b ≢ addr a) x xs ys
        (record {
          before = p.before;
          behind = p.behind;
          split = p.split;
          result = p.result;
          low = All-imp _ _ p.before (λ a k. omega arith) (All-left _ p.before p.behind h');
          high = All-imp _ _ p.behind (λ a k. omega arith) (All-right _ p.before p.behind h');
        })
        d
    where
      h' : All (λ a. addr a < addr x) (p.before ++ p.behind)
      h' = subst (All (λ a. addr a < addr x)) p.split h
