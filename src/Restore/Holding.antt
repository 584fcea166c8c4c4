-- ===== src/Restore/Holding.antt =====
-- The paths of the log tools (test/RestoreIolog.c and test/AnalysisIolog.c), and a directory that holds
-- some logs under them.
use github_upload.Base.{
  ℕ, ◌+◌, ◌%◌, ◌^◌, ◌<◌, ◌≤◌, List, [], ◌∷◌, ◌++◌, true, some, ok, length, ltb, ◌≡◌, refl, arith,
  length-append,
}
use github_upload.LogFile.{LogFile}
use github_upload.IoLog.Digits.{decimal, int_decimal, int_decimal-small}
use github_upload.IoLog.Names.{length-decimal}
use github_upload.Restore.{StoredLog, is_whole, LogDir, in_buffer, buffer_size}

module _ (iologsdir : List ℕ) where
  -- The directory has these logs under the numbers from `n` on, each of them whole.
  abbrev pub Holds : LogDir → ℕ → List LogFile → Type 0
  Holds dir n [] = Unit
  Holds dir n (l ∷ ls) =
      ((f : StoredLog) × (dir (iologsdir ++ decimal n) ≡ some f)
        × (f.log ≡ l)
        × (is_whole f ≡ true))
      × Holds dir (n + 1) ls

  -- The path of a number that is not negative as an `int`.
  pub in_buffer-path :
      (n : ℕ)
      → length iologsdir ≤ 1000
      → n < 2 ^ 31
      → in_buffer (iologsdir ++ int_decimal n) ≡ ok (iologsdir ++ decimal n)
  in_buffer-path n l h =
      let fits : ltb (length (iologsdir ++ decimal n)) buffer_size ≡ true =
        ground (arith, length-append iologsdir (decimal n), length-decimal n (omega arith)) in
      rw (int_decimal-small n h, fits) refl

-- The number behind one that is below the largest `int`.
pub next_number : (n : ℕ) → n + 1 < 2 ^ 31 → (n + 1) % 2 ^ 32 ≡ n + 1
next_number n h = omega arith
