-- ===== src/Text/Order.antt =====
-- The comparison `strncmp(p, m, strlen(m))` as an order on strings of which none is a prefix of
-- another.
use github_upload.Base.{ℕ, List, [], ◌∷◌, Ordering, true, false, length, ◌≡◌, arith, ◌↔◌}
use github_upload.Text.{strncmp, is_prefix}

-- `p` against the whole of `m`.
abbrev pub against : List ℕ → List ℕ → Ordering
against p m = strncmp (length m) p m

-- `a` comes before `b` by a byte that both have.
abbrev pub ◌≺◌ : List ℕ → List ℕ → Type 0
◌≺◌ a b = (against a b ≡ Ordering.lt) × (against b a ≡ Ordering.gt)

pub against-eq_prefix : (p m : List ℕ) → (against p m ≡ Ordering.eq) ↔ (is_prefix m p ≡ true)
unfolding strncmp is_prefix
against-eq_prefix p [] = ground arith
against-eq_prefix [] (y ∷ m) = ground arith
against-eq_prefix (x ∷ p) (y ∷ m) = ground (arith, against-eq_prefix p m)

-- What extends `a` compares with `b` as `a` does.
pub against_extension_lt :
    (a b p : List ℕ) → ◌≺◌ a b → against p a ≡ Ordering.eq → against p b ≡ Ordering.lt
unfolding strncmp
against_extension_lt [] [] p h e = ground arith
against_extension_lt [] (y ∷ b) p h e = ground arith
against_extension_lt (x ∷ a) [] p h e = ground arith
against_extension_lt (x ∷ a) (y ∷ b) [] h e = ground arith
against_extension_lt (x ∷ a) (y ∷ b) (z ∷ p) h e = ground (arith, against_extension_lt a b p)

pub against_extension_gt :
    (a b p : List ℕ) → ◌≺◌ a b → against p b ≡ Ordering.eq → against p a ≡ Ordering.gt
unfolding strncmp
against_extension_gt [] [] p h e = ground arith
against_extension_gt [] (y ∷ b) p h e = ground arith
against_extension_gt (x ∷ a) [] p h e = ground arith
against_extension_gt (x ∷ a) (y ∷ b) [] h e = ground arith
against_extension_gt (x ∷ a) (y ∷ b) (z ∷ p) h e = ground (arith, against_extension_gt a b p)

pub ≺_trans : (a b c : List ℕ) → ◌≺◌ a b → ◌≺◌ b c → ◌≺◌ a c
unfolding strncmp
≺_trans [] [] c h k = ground arith
≺_trans [] (y ∷ b) c h k = ground arith
≺_trans (x ∷ a) [] c h k = ground arith
≺_trans (x ∷ a) (y ∷ b) [] h k = ground arith
≺_trans (x ∷ a) (y ∷ b) (z ∷ c) h k = ground (arith, ≺_trans a b c)

-- Two strings of which none is a prefix of the other compare the same both ways round.
pub against_lt_swap : (a b : List ℕ) → against a b ≡ Ordering.lt → is_prefix a b ≡ false → ◌≺◌ a b
unfolding strncmp is_prefix
against_lt_swap a [] h n = ground arith
against_lt_swap [] (y ∷ b) h n = ground arith
against_lt_swap (x ∷ a) (y ∷ b) h n = ground (arith, against_lt_swap a b)

pub against_gt_swap : (a b : List ℕ) → against a b ≡ Ordering.gt → is_prefix a b ≡ false → ◌≺◌ b a
unfolding strncmp is_prefix
against_gt_swap a [] h n = ground arith
against_gt_swap [] (y ∷ b) h n = ground arith
against_gt_swap (x ∷ a) (y ∷ b) h n = ground (arith, against_gt_swap a b)
