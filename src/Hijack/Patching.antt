-- ===== src/Hijack/Patching.antt =====
-- hijacks.c: bytes written to the memory, and bytes written back.
use github_upload.Base.{
  ℕ, zero, suc, ◌+◌, ◌<◌, ◌≤◌, List, [], ◌∷◌, true, false, ◌==◌, if◌then◌else◌, length, ◌≡◌, ◌⊎◌,
  inl, inr, refl, arith, ap, sym, ◌∙◌, Bool-cases,
}
use github_upload.Hijack.{Memory, put, get}

pub put-outside :
    (m : Memory) (a p : ℕ) (bs : List ℕ) → (p < a) ⊎ (a + length bs ≤ p) → put m a bs p ≡ m p
unfolding put
put-outside m a p [] h = refl
put-outside m a p (b ∷ bs) (inl h) =
    put-outside (λ q. if q == a then b else m q) (a + 1) p bs (inl (omega arith)) ∙ ground arith
put-outside m a p (b ∷ bs) (inr h) =
    put-outside (λ q. if q == a then b else m q) (a + 1) p bs (inr (omega arith)) ∙ ground arith

pub length-get : (m : Memory) (a n : ℕ) → length (get m a n) ≡ n
unfolding get
length-get m a zero = refl
length-get m a (suc n) = omega (arith, length-get m (a + 1) n)

==-eq : (p q : ℕ) → (p == q) ≡ true → p ≡ q
==-eq p q h = ground arith

below_or_not : (p a : ℕ) → (p < a) ⊎ (a + 0 ≤ p)
below_or_not p a = ground arith

narrowed :
    (q a n : ℕ) → (q == a) ≡ false → (q < a + 1) ⊎ (a + 1 + n ≤ q) → (q < a) ⊎ (a + suc n ≤ q)
narrowed q a n h (inl o) = inl (ground arith)
narrowed q a n h (inr o) = inr (omega arith)

-- A byte that has changed only within some bytes is as it was once these are written back.
pub put-get :
    (n a p : ℕ) (m u : Memory) → ((p < a) ⊎ (a + n ≤ p) → u p ≡ m p) → put u a (get m a n) p ≡ m p
unfolding put get
put-get zero a p m u h = h (below_or_not p a)
put-get (suc n) a p m u h =
    put-get n (a + 1) p m (λ q. if q == a then m a else u q)
      λ o. elim (Bool-cases (p == a)) [
        | inl same ↦ rw same (ap m (sym (==-eq p a same)))
        | inr other ↦ rw other (h (narrowed p a n other o))
      ]
