-- ===== src/Analysis/Emptied.antt =====
-- test/AnalysisIolog.c: what -loopdel leaves of the log directory.
use github_upload.Base.{
  ℕ, zero, suc, ◌+◌, ◌^◌, ◌<◌, ◌≤◌, List, [], ◌∷◌, ◌++◌, true, false, none, length, drop,
  drop-append, ◌==◌, ◌≡◌, ◌≢◌, refl, arith, ap, sym, ◌∙◌, inl, inr, Bool-cases,
}
use github_upload.Text.{same_string, same_string_refl, same_string-eq}
use github_upload.LogFile.{LogFile}
use github_upload.IoLog.Digits.{decimal, decimal-injective}
use github_upload.Restore.{LogDir}
use github_upload.Restore.Holding.{Holds}
use github_upload.Analysis.{unlinked}

same_number : (n m : ℕ) → (n == m) ≡ true → n ≡ m
same_number n m e = ground arith

module _ (iologsdir : List ℕ) where
  -- The directory without the logs of so many numbers from `n` on.
  abbrev pub emptied : ℕ → ℕ → LogDir → LogDir
  emptied n zero dir = dir
  emptied n (suc k) dir = emptied (n + 1) k (unlinked (iologsdir ++ decimal n) dir)

  paths_differ :
      (m n : ℕ)
      → m < 2 ^ 63
      → n < 2 ^ 63
      → m ≢ n
      → same_string (iologsdir ++ decimal m) (iologsdir ++ decimal n) ≡ false
  paths_differ m n a b d =
      elim (Bool-cases (same_string (iologsdir ++ decimal m) (iologsdir ++ decimal n))) [
        | inr e ↦ e
        | inl e ↦ absurd (
            d (
              decimal-injective m n a b (
                sym (drop-append iologsdir (decimal m))
                ∙ ap (drop (length iologsdir)) (same_string-eq _ _ e)
                ∙ drop-append iologsdir (decimal n))))
      ]

  pub unlinked-other :
      (m n : ℕ) (dir : LogDir)
      → m < 2 ^ 63
      → n < 2 ^ 63
      → m ≢ n
      → unlinked (iologsdir ++ decimal n) dir (iologsdir ++ decimal m)
        ≡ dir (iologsdir ++ decimal m)
  unlinked-other m n dir a b d = rw (paths_differ m n a b d) refl

  -- The logs behind one that is removed stay.
  pub unlinked-Holds :
      (logs : List LogFile) (n m : ℕ) (dir : LogDir)
      → n < m
      → m + length logs < 2 ^ 63
      → Holds iologsdir dir m logs
      → Holds iologsdir (unlinked (iologsdir ++ decimal n) dir) m logs
  unlinked-Holds [] n m dir l b h = tt
  unlinked-Holds (log ∷ logs) n m dir l b ((f, found, same, whole), h) = (
    (f, unlinked-other m n dir (omega arith) (omega arith) (λ e. omega arith) ∙ found, same, whole),
    unlinked-Holds logs n (m + 1) dir (omega arith) (omega arith) h,
  )

  pub emptied-other :
      (k n : ℕ) (dir : LogDir) (p : List ℕ)
      → ((m : ℕ) → n ≤ m → m < n + k → p ≢ iologsdir ++ decimal m)
      → emptied n k dir p ≡ dir p
  emptied-other zero n dir p other = refl
  emptied-other (suc k) n dir p other =
      let path : List ℕ = iologsdir ++ decimal n in
      let here : same_string p path ≡ false = elim (Bool-cases (same_string p path)) [
        | inr e ↦ e
        | inl e ↦ absurd (other n (omega arith) (omega arith) (same_string-eq p path e))
      ] in
      emptied-other k (n + 1) (unlinked path dir) p (λ m l h. other m (omega arith) (omega arith))
      ∙ rw here refl

  emptied-none :
      (k n m : ℕ) (dir : LogDir)
      → dir (iologsdir ++ decimal m) ≡ none
      → emptied n k dir (iologsdir ++ decimal m) ≡ none
  emptied-none zero n m dir h = h
  emptied-none (suc k) n m dir h =
      emptied-none k (n + 1) m (unlinked (iologsdir ++ decimal n) dir)
        (elim (Bool-cases (same_string (iologsdir ++ decimal m) (iologsdir ++ decimal n))) [
          | inl e ↦ rw e refl
          | inr e ↦ rw e h
        ])

  pub emptied-gone :
      (k n m : ℕ) (dir : LogDir)
      → n ≤ m
      → m < n + k
      → emptied n k dir (iologsdir ++ decimal m) ≡ none
  emptied-gone zero n m dir l h = absurd (omega arith)
  emptied-gone (suc k) n m dir l h = elim (Bool-cases (n == m)) [
    | inl e ↦
        let same : same_string (iologsdir ++ decimal m) (iologsdir ++ decimal n) ≡ true =
          ap (λ z. same_string (iologsdir ++ decimal m) (iologsdir ++ decimal z))
            (same_number n m e)
          ∙ same_string_refl (iologsdir ++ decimal m) in
        emptied-none k (n + 1) m (unlinked (iologsdir ++ decimal n) dir) (rw same refl)
    | inr e ↦
        emptied-gone k (n + 1) m (unlinked (iologsdir ++ decimal n) dir) (ground arith)
          (omega arith)
  ]
