-- ===== src/Hooks/Sizes.antt =====
-- createiolog.c: the sizes in the logs that the hooks queue.
use github_upload.Base.{ℕ, zero, suc, ◌+◌, ◌≤◌, List, [], ◌∷◌, ◌≡◌, refl, arith, length, take}
use github_upload.LogFile.{LogFile, log_file_size}
use github_upload.MonitorSet.Sequence.{Stamp}
use github_upload.IoLog.{log_file, two_path_log}
use github_upload.Hooks.Calls.{
  Call, renaming, unlinking, removing, creating, symlinking, linking, making, change_log, error_log,
}
use github_upload.Hooks.Writing.{write_log}

-- The log's size is that of the header, as padded, with its data; the path fits its 260 bytes.
pub record IsSized (l : LogFile) : Type 0 where
  pub whole : l.log_size ≡ 1024 + length l.payload
  pub path_fits : length l.file_path ≤ 260

length-take_le : {A : Type 0} (n : ℕ) (xs : List A) → length (take n xs) ≤ n
length-take_le zero xs = omega arith
length-take_le (suc n) [] = omega arith
length-take_le (suc n) (x ∷ xs) = omega (arith, length-take_le n xs)

length-take_all : (n : ℕ) (xs : List ℕ) → n ≤ length xs → length (take n xs) ≡ n
length-take_all zero xs h = refl
length-take_all (suc n) [] h = absurd (omega arith)
length-take_all (suc n) (x ∷ xs) h = omega (arith, length-take_all n xs (omega arith))

one_path :
    (s : Stamp) (type dir : ℕ) (path data4 : List ℕ)
    → length data4 ≡ 4
    → IsSized (log_file s type dir log_file_size path data4)
one_path s type dir path data4 h = record {
  whole = omega arith;
  path_fits = length-take_le 260 path;
}

two_paths :
    (s : Stamp) (type : ℕ) (path second : List ℕ) → IsSized (two_path_log s type path second)
two_paths s type path second = record { whole = omega arith; path_fits = length-take_le 260 path }

-- In the log that a call leaves, of a change or of an error, the size is 1024 bytes and its data, and the
-- path takes at most 260 bytes; and so in the log of a write of as many bytes as its buffer holds.
pub logs-IsSized :
    (c : Call) (s : Stamp) (path buf : List ℕ) (count position : ℕ)
    → count ≤ length buf
    → IsSized (change_log c s)
      × IsSized (error_log c s)
      × IsSized (write_log path buf count position s)
logs-IsSized c s path buf count position h = (change c, one_path s _ _ _ _ refl, written)
  where
    change : (c : Call) → IsSized (change_log c s)
    change (renaming old new) = two_paths s _ _ _
    change (unlinking dentry) = one_path s _ _ _ _ refl
    change (removing dentry) = one_path s _ _ _ _ refl
    change (creating dir name) = one_path s _ _ _ _ refl
    change (symlinking dentry oldname target) = two_paths s _ _ _
    change (linking old new) = two_paths s _ _ _
    change (making dentry) = one_path s _ _ _ _ refl

    written : IsSized (write_log path buf count position s)
    written = record {
      whole = omega (arith, length-take_all count buf h);
      path_fits = length-take_le 260 path;
    }
