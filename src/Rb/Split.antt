-- ===== src/Rb/Split.antt =====
-- Lists that a relation orders pairwise, and how they fall into two parts.
use github_upload.Base.{List, [], ◌∷◌, ◌++◌, All, All-append, All-left, All-right, All-imp}

module _ {A : Type 0} (Before : A → A → Type 0) where
  -- Each entry comes before all that follow it.
  abbrev pub IsSorted : List A → Type 0
  IsSorted [] = Unit
  IsSorted (x ∷ xs) = All (Before x) xs × IsSorted xs

  abbrev pub AllBefore : List A → List A → Type 0
  AllBefore xs ys = All (λ x. All (Before x) ys) xs

  pub IsSorted-left : (xs ys : List A) → IsSorted (xs ++ ys) → IsSorted xs
  IsSorted-left [] ys s = tt
  IsSorted-left (x ∷ xs) ys s = (All-left (Before x) xs ys s.0, IsSorted-left xs ys s.1)

  pub IsSorted-right : (xs ys : List A) → IsSorted (xs ++ ys) → IsSorted ys
  IsSorted-right [] ys s = s
  IsSorted-right (x ∷ xs) ys s = IsSorted-right xs ys s.1

  pub IsSorted-across : (xs ys : List A) → IsSorted (xs ++ ys) → AllBefore xs ys
  IsSorted-across [] ys s = tt
  IsSorted-across (x ∷ xs) ys s = (All-right (Before x) xs ys s.0, IsSorted-across xs ys s.1)

  pub IsSorted-append :
      (xs ys : List A) → IsSorted xs → IsSorted ys → AllBefore xs ys → IsSorted (xs ++ ys)
  IsSorted-append [] ys s t a = t
  IsSorted-append (x ∷ xs) ys s t a =
      (All-append (Before x) xs ys s.0 a.0, IsSorted-append xs ys s.1 t a.1)

  -- What comes before the head of a list comes before the parts that the split names.
  pub AllBefore-head :
      (xs : List A) (y : A) (ys : List A) → AllBefore xs (y ∷ ys) → All (λ x. Before x y) xs
  AllBefore-head xs y ys = All-imp _ _ xs (λ x h. h.0)

  pub AllBefore-tail : (xs : List A) (y : A) (ys : List A) → AllBefore xs (y ∷ ys) → AllBefore xs ys
  AllBefore-tail xs y ys = All-imp _ _ xs (λ x h. h.1)

  pub AllBefore-cons :
      (xs : List A) (y : A) (ys : List A)
      → All (λ x. Before x y) xs
      → AllBefore xs ys
      → AllBefore xs (y ∷ ys)
  AllBefore-cons [] y ys a b = tt
  AllBefore-cons (x ∷ xs) y ys a b = ((a.0, b.0), AllBefore-cons xs y ys a.1 b.1)
