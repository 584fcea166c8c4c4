-- ===== src/Restore/Overrun.antt =====
-- createiolog.c and test/RestoreIolog.c: the second path of a log has no NUL behind it.
use github_upload.Base.{
  ◌>>=◌, ℕ, zero, suc, List, [], ◌∷◌, ◌++◌, ok, wild, length, take, All, ltb, ◌≡◌, refl, arith, ap,
  ◌⊎◌, inl, inr, Bool-cases,
}
use github_upload.LogFile.{renamefile_type, hardlink_type, softlink_type}
use github_upload.MonitorSet.Sequence.{Stamp}
use github_upload.IoLog.{two_path_log}
use github_upload.Bridge.Message.{IsChar}
use github_upload.Restore.{
  FileSystem, string_in, with_old_path, restore_at, restore, max_path, buffer_size,
}

string_in-wild : (s : List ℕ) → All IsChar s → string_in s ≡ wild
unfolding string_in
string_in-wild [] h = refl
string_in-wild (zero ∷ s) h = absurd (omega (arith, h.0))
string_in-wild (suc c ∷ s) h = ap (λ o. o >>= λ t. ok (suc c ∷ t)) (string_in-wild s h.1)

All-take : (n : ℕ) (s : List ℕ) → All IsChar s → All IsChar (take n s)
All-take zero s h = tt
All-take (suc n) [] h = tt
All-take (suc n) (c ∷ s) h = (h.0, All-take n s h.1)

with_old_path-wild :
    (fs : FileSystem) (s : Stamp) (type : ℕ) (file_path second target : List ℕ)
    (run : List ℕ → fs.Files)
    → All IsChar second
    → with_old_path fs (two_path_log s type file_path second) target run ≡ wild
unfolding with_old_path
with_old_path-wild fs s type file_path second target run h =
    rw (string_in-wild (take max_path second) (All-take max_path second h)) refl

restore_at-wild :
    (fs : FileSystem) (s : Stamp) (type : ℕ) (file_path second target path : List ℕ)
    (files : fs.Files)
    → (type ≡ renamefile_type) ⊎ (type ≡ hardlink_type) ⊎ (type ≡ softlink_type)
    → All IsChar second
    → restore_at fs (two_path_log s type file_path second) target path files ≡ wild
unfolding restore_at
restore_at-wild fs s type file_path second target path files (inl t) h =
    rw t (with_old_path-wild fs s renamefile_type file_path second target _ h)
restore_at-wild fs s type file_path second target path files (inr (inl t)) h =
    rw t (with_old_path-wild fs s hardlink_type file_path second target _ h)
restore_at-wild fs s type file_path second target path files (inr (inr t)) h =
    rw t (with_old_path-wild fs s softlink_type file_path second target _ h)

-- The log of a rename, a link or a symbolic link, whatever the paths, makes the tool read behind the
-- log that it has in memory: the second path is all of `Data`, with no NUL.
pub restore-two_path_log :
    (fs : FileSystem) (s : Stamp) (type : ℕ) (file_path second target : List ℕ) (files : fs.Files)
    → (type ≡ renamefile_type) ⊎ (type ≡ hardlink_type) ⊎ (type ≡ softlink_type)
    → All IsChar second
    → restore fs (two_path_log s type file_path second) target files ≡ wild
unfolding restore
restore-two_path_log fs s type file_path second target files t h =
    elim (Bool-cases (ltb (length (take max_path file_path)) max_path)) [
      | inr long ↦ rw long refl
      | inl short ↦
          let path : List ℕ = target ++ take max_path file_path in
          elim (Bool-cases (ltb (length path) buffer_size)) [
            | inr long ↦ rw (short, long) refl
            | inl fits ↦
                rw (short, fits) (restore_at-wild fs s type file_path second target path files t h)
          ]
    ]
