-- ===== src/Rb/Attach.antt =====
-- Where the insertion walk puts an entry: at the place that keeps the tree sorted.
use mathlib.Core.Option
use github_upload.Base.{
  Has, Has-right, List, [], ◌∷◌, ◌++◌, Ordering, Option, none, some, ◌≡◌, refl, sym, ap, ◌∙◌, arith,
  All, All-append, All-left, All-right, All-imp, inl, inr, ◌⊎◌, append_assoc, subst, Ordering-cases,
  Option-cases,
}
use github_upload.Rb.{Tree, leaf, node, to_list, attach, search}
use github_upload.Rb.Split.{
  IsSorted, IsSorted-left, IsSorted-right, IsSorted-across, IsSorted-append, AllBefore-head,
  AllBefore-cons,
}

module _ {A : Type 0} (Before : A → A → Type 0) where
  -- `ys` is `xs` with `x` put in between what comes before it and what comes after it.
  pub record Placed (x : A) (xs ys : List A) : Type 0 where
    pub before : List A
    pub behind : List A
    pub split : xs ≡ before ++ behind
    pub result : ys ≡ before ++ (x ∷ behind)
    pub low : All (λ a. Before a x) before
    pub high : All (Before x) behind

  -- The comparison with `a` puts `x` on the side of `a` where it belongs.
  abbrev pub Side : A → (A → Ordering) → A → Type 0
  Side x cmp a = ((cmp a ≡ Ordering.lt) × Before x a) ⊎ ((cmp a ≡ Ordering.gt) × Before a x)

  pub Placed-IsSorted :
      (x : A) (xs ys : List A) → Placed x xs ys → IsSorted Before xs → IsSorted Before ys
  Placed-IsSorted x xs ys p s = subst (IsSorted Before) (sym p.result) (
      IsSorted-append Before p.before (x ∷ p.behind) (IsSorted-left Before p.before p.behind split)
        (p.high, IsSorted-right Before p.before p.behind split)
        (AllBefore-cons Before p.before x p.behind p.low
          (IsSorted-across Before p.before p.behind split)))
    where
      split : IsSorted Before (p.before ++ p.behind)
      split = subst (IsSorted Before) p.split s

module _ {A : Type 0} (Before : A → A → Type 0)
    (trans : (a b c : A) → Before a b → Before b c → Before a c) (x : A) where
  Placed-left :
      (l l' : List A) (a : A) (r : List A)
      → Placed Before x l l'
      → Before x a
      → All (Before a) r
      → Placed Before x (l ++ (a ∷ r)) (l' ++ (a ∷ r))
  Placed-left l l' a r p f h = record {
    before = p.before;
    behind = p.behind ++ (a ∷ r);
    split = ap (λ u. u ++ (a ∷ r)) p.split ∙ append_assoc p.before p.behind _;
    result = ap (λ u. u ++ (a ∷ r)) p.result ∙ append_assoc p.before (x ∷ p.behind) _;
    low = p.low;
    high =
        All-append (Before x) p.behind (a ∷ r) p.high (f, All-imp _ _ r (λ b g. trans x a b f g) h);
  }

  Placed-right :
      (l : List A) (a : A) (r r' : List A)
      → Placed Before x r r'
      → Before a x
      → All (λ b. Before b a) l
      → Placed Before x (l ++ (a ∷ r)) (l ++ (a ∷ r'))
  Placed-right l a r r' p f h = record {
    before = l ++ (a ∷ p.before);
    behind = p.behind;
    split = ap (λ u. l ++ (a ∷ u)) p.split ∙ sym (append_assoc l (a ∷ p.before) _);
    result = ap (λ u. l ++ (a ∷ u)) p.result ∙ sym (append_assoc l (a ∷ p.before) _);
    low =
        All-append (λ b. Before b x) l (a ∷ p.before) (All-imp _ _ l (λ b g. trans b a x g f) h)
          (f, p.low);
    high = p.high;
  }

  pub attach-Placed :
      (cmp : A → Ordering) (t : Tree A)
      → IsSorted Before (to_list t)
      → All (Side Before x cmp) (to_list t)
      → (t' : Tree A) × (attach cmp x t ≡ some t') × Placed Before x (to_list t) (to_list t')
  unfolding attach to_list
  attach-Placed cmp leaf s h = (
    node leaf x leaf,
    refl,
    record { before = []; behind = []; split = refl; result = refl; low = tt; high = tt },
  )
  attach-Placed cmp (node l a r) s h =
      let ls = IsSorted-left Before (to_list l) (a ∷ to_list r) s in
      let rs = IsSorted-right Before (to_list l) (a ∷ to_list r) s in
      let lh = All-left (Side Before x cmp) (to_list l) (a ∷ to_list r) h in
      let rh = All-right (Side Before x cmp) (to_list l) (a ∷ to_list r) h in
      let across = AllBefore-head Before (to_list l) a (to_list r) (IsSorted-across Before _ _ s) in
      elim rh.0 [
        | inl (e, f) ↦
            let (t, eq, p) = attach-Placed cmp l ls lh in
            (
              node t a r,
              rw (e, attach) (ap (Option.map (λ u. node u a r)) eq),
              Placed-left (to_list l) (to_list t) a (to_list r) p f rs.0,
            )
        | inr (e, f) ↦
            let (t, eq, p) = attach-Placed cmp r rs.1 rh.1 in
            (
              node l a t,
              rw (e, attach) (ap (Option.map (λ u. node l a u)) eq),
              Placed-right (to_list l) a (to_list r) (to_list t) p f across,
            )
      ]

-- The walk is turned away exactly by an entry that compares equal, whatever the tree.
pub attach-none_eq :
    {A : Type 0} (cmp : A → Ordering) (x : A) (t : Tree A)
    → attach cmp x t ≡ none
    → (a : A) × (search cmp t ≡ some a) × (cmp a ≡ Ordering.eq)
unfolding attach search
attach-none_eq cmp x leaf h = cc
attach-none_eq cmp x (node l a r) h = elim (Ordering-cases (cmp a)) [
  | inl e ↦ rw (e, search) (attach-none_eq cmp x l (ground (arith, Option-cases (attach cmp x l))))
  | inr (inl e) ↦ (a, ground arith, e)
  | inr (inr e) ↦
      rw (e, search) (attach-none_eq cmp x r (ground (arith, Option-cases (attach cmp x r))))
]

pub attach-none_of_search :
    {A : Type 0} (cmp : A → Ordering) (x : A) (t : Tree A) (a : A)
    → search cmp t ≡ some a
    → attach cmp x t ≡ none
unfolding attach search
attach-none_of_search cmp x leaf a h = cc
attach-none_of_search cmp x (node l b r) a h =
    ground (arith, attach-none_of_search cmp x l a, attach-none_of_search cmp x r a)

All-unit : {A : Type 0} (xs : List A) → All (λ a. Unit {0}) xs
All-unit [] = tt
All-unit (x ∷ xs) = (tt, All-unit xs)

-- Whatever the tree, the walk only puts the entry in between two parts of the list.
pub attach_inserts :
    {A : Type 0} (cmp : A → Ordering) (x : A) (t t' : Tree A)
    → attach cmp x t ≡ some t'
    → Placed (λ a b. Unit {0}) x (to_list t) (to_list t')
unfolding attach to_list
attach_inserts {A} cmp x leaf t' h =
    subst
      (λ (o : Option (Tree A)). elim o [
        | none ↦ Unit {0}
        | some u ↦ Placed (λ a b. Unit {0}) x [] (to_list u)
      ])
      h (record { before = []; behind = []; split = refl; result = refl; low = tt; high = tt })
attach_inserts {A} cmp x (node l a r) t' h = elim (Ordering-cases (cmp a)) [
  | inl e ↦ elim (Option-cases (attach cmp x l)) [
    | inl n ↦ absurd (ground arith)
    | inr (u, m) ↦
        let result : t' ≡ node u a r = ground arith in
        rw result (
          Placed-left (λ a b. Unit {0}) (λ a b c f g. tt) x (to_list l) (to_list u) a (to_list r)
            (attach_inserts cmp x l u m) tt (All-unit (to_list r)))
  ]
  | inr (inl e) ↦ absurd (ground arith)
  | inr (inr e) ↦ elim (Option-cases (attach cmp x r)) [
    | inl n ↦ absurd (ground arith)
    | inr (u, m) ↦
        let result : t' ≡ node l a u = ground arith in
        rw result (
          Placed-right (λ a b. Unit {0}) (λ a b c f g. tt) x (to_list l) a (to_list r) (to_list u)
            (attach_inserts cmp x r u m) tt (All-unit (to_list l)))
  ]
]

module _ {A : Type 0} {x : A} {xs ys : List A} (p : Placed (λ a b. Unit {0}) x xs ys) where
  pub Placed-Has : Has x ys
  Placed-Has = subst (Has x) (sym p.result) (Has-right x p.before (x ∷ p.behind) (inl refl))

  pub Placed-All : (P : A → Type 0) → P x → All P xs → All P ys
  Placed-All P h a =
      let a' : All P (p.before ++ p.behind) = subst (All P) p.split a in
      subst (All P) (sym p.result) (
        All-append P p.before (x ∷ p.behind) (All-left P p.before p.behind a')
          (h, All-right P p.before p.behind a'))
