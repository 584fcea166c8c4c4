-- ===== src/IoLog/Digits.antt =====
-- `"%lld"`: a 64-bit number in decimal, as createiolog.c names the log files.
use github_upload.Base.{
  ℕ, zero, suc, ◌+◌, ◌-◌, ◌*◌, ◌/◌, ◌%◌, ◌^◌, ◌<◌, List, [], ◌∷◌, ◌++◌, ltb, if◌then◌else◌, ◌≡◌,
  refl, arith, ap, sym, ◌∙◌, Bool-cases, inl, inr, lt→ltb,
}
use native.Mathlib.Nat.{pow-suc}

-- The decimal digits of a number, with fuel for each of them.
unfoldable pub digits : ℕ → ℕ → List ℕ
digits zero n = []
digits (suc f) n =
    let rest = digits f (n / 10) in (if ltb n 10 then [] else rest) ++ ((b'0' + n % 10) ∷ [])

-- A 64-bit number has at most 20 digits. The conversion takes the number as signed.
unfoldable pub decimal : ℕ → List ℕ
unfolding digits
decimal n = if ltb n (2 ^ 63) then digits 20 n else b'-' ∷ digits 20 (2 ^ 64 - n)

-- `"%d"` of an `int`, given by its 32 bits: the number prints as it does with 64 bits.
unfoldable pub int_decimal : ℕ → List ℕ
unfolding decimal
int_decimal n = decimal (if ltb n (2 ^ 31) then n else n + 2 ^ 64 - 2 ^ 32)

-- A number that is not negative as an `int` prints alike with 32 and with 64 bits.
pub int_decimal-small : (n : ℕ) → n < 2 ^ 31 → int_decimal n ≡ decimal n
unfolding int_decimal
int_decimal-small n h = rw (int_decimal, lt→ltb n (2 ^ 31) h) refl

-- The number that a row of digits stands for.
abbrev value_from : ℕ → List ℕ → ℕ
value_from acc [] = acc
value_from acc (c ∷ cs) = value_from (acc * 10 + (c - b'0')) cs

value-append :
    (acc c : ℕ) (cs : List ℕ)
    → value_from acc (cs ++ (c ∷ [])) ≡ value_from acc cs * 10 + (c - b'0')
value-append acc c [] = refl
value-append acc c (x ∷ cs) = value-append (acc * 10 + (x - b'0')) c cs

-- Reading the digits gives the number back, if the fuel was enough.
value-digits : (f n : ℕ) → n < 10 ^ f → value_from 0 (digits f n) ≡ n
unfolding digits
value-digits zero n h = omega arith
value-digits (suc f) n h = elim (Bool-cases (ltb n 10)) [
  | inl small ↦ rw small (ground arith)
  | inr big ↦ rw big (
      value-append 0 (b'0' + n % 10) (digits f (n / 10))
      ∙ omega (arith, value-digits f (n / 10) (omega (arith, pow-suc 10 f))))
]

value-decimal : (n : ℕ) → n < 2 ^ 63 → value_from 0 (decimal n) ≡ n
unfolding decimal
value-decimal n h = rw (lt→ltb n (2 ^ 63) h) (value-digits 20 n (omega arith))

-- Two numbers below 2 ^ 63 that print alike are one number.
pub decimal-injective : (m n : ℕ) → m < 2 ^ 63 → n < 2 ^ 63 → decimal m ≡ decimal n → m ≡ n
decimal-injective m n h k e = sym (value-decimal m h) ∙ ap (value_from 0) e ∙ value-decimal n k
