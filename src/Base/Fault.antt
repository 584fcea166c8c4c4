-- ===== src/Base/Fault.antt =====
-- What a piece of C code can come to: a value, a read or write through a pointer that leads
-- nowhere valid, or a loop that its fuel did not see the end of.

use mathlib.Core.Path.{◌≡◌, refl, ap}

pub data Outcome {ℓ} (A : Type ℓ) : Type ℓ where
  ok : A → Outcome A
  wild : Outcome A
  unfinished : Outcome A

abbrev result {ℓ} : {A : Type ℓ} → A → Outcome A → A
result a (ok b) = b
result a wild = a
result a unfinished = a

pub ok-injective {ℓ} : {A : Type ℓ} (a b : A) → ok a ≡ ok b → a ≡ b
ok-injective a b e = ap (result a) e

-- The second is run on the value of the first.
infixl 5 ◌>>=◌
abbrev pub ◌>>=◌ : {A B : Type 0} → Outcome A → (A → Outcome B) → Outcome B
ok a >>= f = f a
wild >>= f = wild
unfinished >>= f = unfinished

pub bind-ok_right : {A : Type 0} (m : Outcome A) → (m >>= ok) ≡ m
bind-ok_right (ok a) = refl
bind-ok_right wild = refl
bind-ok_right unfinished = refl
