-- ===== src/IoLog/Names.antt =====
-- createiolog.c: logs with different global numbers go to different files.
use github_upload.Base.{
  ℕ, zero, suc, ◌+◌, ◌/◌, ◌%◌, ◌^◌, ◌<◌, ◌≤◌, List, [], ◌∷◌, ◌++◌, ◌≡◌, ◌≢◌, arith, length,
  take_all, length-append, ltb, Bool-cases, inl, inr, ap, sym, ◌∙◌, lt→ltb, drop, drop-append,
}
use github_upload.IoLog.{log_path}
use github_upload.IoLog.Digits.{digits, decimal, decimal-injective}

length-digits : (f n : ℕ) → length (digits f n) ≤ f
unfolding digits
length-digits zero n = omega arith
length-digits (suc f) n = elim (Bool-cases (ltb n 10)) [
  | inl small ↦ rw small (omega arith)
  | inr big ↦ rw big (
      omega
        (arith, length-digits f (n / 10), length-append (digits f (n / 10)) ((b'0' + n % 10) ∷ [])))
]

pub length-decimal : (n : ℕ) → n < 2 ^ 63 → length (decimal n) ≤ 20
unfolding decimal
length-decimal n h = rw (lt→ltb n (2 ^ 63) h) (length-digits 20 n)

-- A log directory of at most 234 bytes leaves room for any number.
pub log_path-whole :
    (dir : List ℕ) (n : ℕ) → length dir ≤ 234 → n < 2 ^ 63 → log_path dir n ≡ dir ++ decimal n
unfolding log_path
log_path-whole dir n l h =
    take_all 254 (dir ++ decimal n)
      (omega (arith, length-append dir (decimal n), length-decimal n h))

-- In one log directory, of at most 234 bytes, and below 2 ^ 63, different global numbers give different
-- paths: no log is written over another.
pub log_path-differs :
    (dir : List ℕ) (m n : ℕ)
    → length dir ≤ 234
    → m < 2 ^ 63
    → n < 2 ^ 63
    → m ≢ n
    → log_path dir m ≢ log_path dir n
log_path-differs dir m n l h k d e = d (
    decimal-injective m n h k (
      sym (drop-append dir (decimal m))
      ∙ ap (drop (length dir)) (sym (log_path-whole dir m l h) ∙ e ∙ log_path-whole dir n l k)
      ∙ drop-append dir (decimal n)))
