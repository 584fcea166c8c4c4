-- ===== src/Text.antt =====
-- C strings and the `strncmp` that rb.c and getpath.c call. A string is the list of its bytes
-- before the terminating NUL, so its bytes are not 0; bytes compare as unsigned.
pub mod Order
use github_upload.Base.{
  ℕ, zero, suc, List, [], ◌∷◌, compare, Ordering, Bool, true, false, ◌==◌, if◌then◌else◌, ◌≡◌, refl,
  arith,
}

-- `strncmp(s, t, n)`: the sign of the first difference among the first `n` bytes.
unfoldable pub strncmp : ℕ → List ℕ → List ℕ → Ordering
strncmp zero s t = Ordering.eq
strncmp (suc n) [] [] = Ordering.eq
strncmp (suc n) [] (y ∷ t) = Ordering.lt
strncmp (suc n) (x ∷ s) [] = Ordering.gt
strncmp (suc n) (x ∷ s) (y ∷ t) = elim (compare x y) [
  | Ordering.lt ↦ Ordering.lt
  | Ordering.gt ↦ Ordering.gt
  | Ordering.eq ↦ strncmp n s t
]

-- Is `m` a prefix of `p`?
unfoldable pub is_prefix : List ℕ → List ℕ → Bool
is_prefix [] p = true
is_prefix (y ∷ m) [] = false
is_prefix (y ∷ m) (x ∷ p) = elim (compare x y) [ Ordering.eq ↦ is_prefix m p | _ ↦ false ]

-- `!strcmp(s, t)`.
abbrev pub same_string : List ℕ → List ℕ → Bool
same_string [] [] = true
same_string [] (c ∷ t) = false
same_string (c ∷ s) [] = false
same_string (c ∷ s) (e ∷ t) = if c == e then same_string s t else false

pub same_string_refl : (s : List ℕ) → same_string s s ≡ true
same_string_refl [] = refl
same_string_refl (c ∷ s) = ground (arith, same_string_refl s)

pub same_string-eq : (s t : List ℕ) → same_string s t ≡ true → s ≡ t
same_string-eq [] [] h = refl
same_string-eq [] (c ∷ t) h = absurd cc
same_string-eq (c ∷ s) [] h = absurd cc
same_string-eq (c ∷ s) (e ∷ t) h = ground (arith, same_string-eq s t)
