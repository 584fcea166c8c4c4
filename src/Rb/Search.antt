-- ===== src/Rb/Search.antt =====
-- What the search walk finds: only an entry that compares equal, and, in a sorted tree, the entry
-- that the key belongs to.
use github_upload.Base.{
  ◌∷◌, Ordering, some, ◌≡◌, arith, Has, Has-left, Has-right, Has-append, All, All-Has, inl, inr,
  Ordering-cases,
}
use github_upload.Rb.{Tree, leaf, node, to_list, search}
use github_upload.Rb.Split.{
  IsSorted, IsSorted-left, IsSorted-right, IsSorted-across, AllBefore-head,
}

module _ {A : Type 0} (cmp : A → Ordering) where
  pub search-eq : (t : Tree A) (a : A) → search cmp t ≡ some a → cmp a ≡ Ordering.eq
  unfolding search
  search-eq leaf a h = ground arith
  search-eq (node l b r) a h = ground (arith, search-eq l a, search-eq r a)

  pub search-Has : (t : Tree A) (a : A) → search cmp t ≡ some a → Has a (to_list t)
  unfolding search to_list
  search-Has leaf a h = cc
  search-Has (node l b r) a h = elim (Ordering-cases (cmp b)) [
    | inl e ↦ Has-left a (to_list l) (b ∷ to_list r) (search-Has l a (ground arith))
    | inr (inl e) ↦ Has-right a (to_list l) (b ∷ to_list r) (inl (ground arith))
    | inr (inr e) ↦ Has-right a (to_list l) (b ∷ to_list r) (inr (search-Has r a (ground arith)))
  ]

  -- `m` compares equal, and the key lies on the same side of every other entry as `m` does.
  pub search_finds :
      (Before : A → A → Type 0) (m : A)
      → ((a : A) → Before m a → cmp a ≡ Ordering.lt)
      → ((a : A) → Before a m → cmp a ≡ Ordering.gt)
      → cmp m ≡ Ordering.eq
      → (t : Tree A) → IsSorted Before (to_list t)
      → Has m (to_list t)
      → search cmp t ≡ some m
  unfolding search to_list
  search_finds Before m lo hi eq leaf s h = absurd h
  search_finds Before m lo hi eq (node l b r) s h =
      elim (Has-append m (to_list l) (b ∷ to_list r) h) [
        | inl in_left ↦
            rw (lo b (All-Has _ m (to_list l) before in_left), search)
              (search_finds Before m lo hi eq l (IsSorted-left Before _ _ s) in_left)
        | inr (inl here) ↦ ground arith
        | inr (inr in_right) ↦
            rw (hi b (All-Has _ m (to_list r) after.0 in_right), search)
              (search_finds Before m lo hi eq r after.1 in_right)
      ]
    where
      before : All (λ x. Before x b) (to_list l)
      before = AllBefore-head Before (to_list l) b (to_list r) (IsSorted-across Before _ _ s)

      after : All (Before b) (to_list r) × IsSorted Before (to_list r)
      after = IsSorted-right Before (to_list l) (b ∷ to_list r) s
