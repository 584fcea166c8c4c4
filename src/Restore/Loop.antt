-- ===== src/Restore/Loop.antt =====
-- test/RestoreIolog.c: the loop of `main` does all logs from the first number on, in their order; and
-- the log behind one that is not yet whole is passed over.
use github_upload.Base.{
  ◌>>=◌, bind-ok_right, ℕ, suc, ◌+◌, ◌%◌, ◌^◌, ◌<◌, ◌≤◌, List, [], ◌∷◌, ◌++◌, true, false, none,
  some, Outcome, ok, wild, unfinished, length, ◌≡◌, refl, arith, ap, sym, ◌∙◌,
}
use native.Mathlib.Nat.{add-zero}
use github_upload.LogFile.{LogFile}
use github_upload.IoLog.Digits.{decimal, int_decimal}
use github_upload.Restore.Holding.{Holds, in_buffer-path, next_number}
use github_upload.Restore.{
  FileSystem, StoredLog, is_whole, LogDir, in_buffer, restore, Tool, read_logs, rounds, main,
}

module _ {A B : Type 0} where
  bind_ext : (m : Outcome A) (f g : A → Outcome B) → ((a : A) → f a ≡ g a) → (m >>= f) ≡ (m >>= g)
  bind_ext (ok a) f g h = h a
  bind_ext wild f g h = refl
  bind_ext unfinished f g h = refl

  bind_assoc :
      {D : Type 0} (m : Outcome A) (f : A → Outcome B) (g : B → Outcome D)
      → (m >>= λ a. f a >>= g) ≡ (m >>= f >>= g)
  bind_assoc (ok a) f g = refl
  bind_assoc wild f g = refl
  bind_assoc unfinished f g = refl

module _ (fs : FileSystem) (iologsdir targetdir : List ℕ) where
  -- The changes of some logs, one after the other.
  unfoldable pub restore_all : List LogFile → fs.Files → Outcome fs.Files
  restore_all [] s = ok s
  restore_all (l ∷ ls) s = restore fs l targetdir s >>= restore_all ls

  -- The tool with the path of a number.
  abbrev pub tool_at : ℕ → fs.Files → Tool fs iologsdir targetdir
  tool_at n s = record { iologpath = iologsdir ++ decimal n; iolognum = n; files = s }

  pub read_logs-replays :
      (logs : List LogFile) (n : ℕ) (dir : LogDir) (s : fs.Files)
      → length iologsdir ≤ 1000
      → n + length logs < 2 ^ 31
      → Holds iologsdir dir n logs
      → dir (iologsdir ++ decimal (n + length logs)) ≡ none
      → read_logs fs iologsdir targetdir (suc (length logs)) dir (tool_at n s)
        ≡ (restore_all logs s >>= λ u. ok (tool_at (n + length logs) u))
  unfolding read_logs restore_all
  read_logs-replays [] n dir s l b h e =
      let absent : dir (iologsdir ++ decimal n) ≡ none =
        ap (λ m. dir (iologsdir ++ decimal m)) (sym (add-zero n)) ∙ e in
      rw (read_logs, absent) (ap (λ m. ok (tool_at m s)) (sym (add-zero n)))
  read_logs-replays (log ∷ logs) n dir s l b h e =
      let (f, found, same, whole) = h.0 in
      let step : n + suc (length logs) ≡ n + 1 + length logs = omega arith in
      let path : in_buffer (iologsdir ++ int_decimal (n + 1)) ≡ ok (iologsdir ++ decimal (n + 1)) =
        in_buffer-path iologsdir (n + 1) l (omega arith) in
      let absent : dir (iologsdir ++ decimal (n + 1 + length logs)) ≡ none =
        ap (λ m. dir (iologsdir ++ decimal m)) (sym step) ∙ e in
      let others =
        λ (u : fs.Files). read_logs-replays logs (n + 1) dir u l (omega arith) h.1 absent in
      let next : ℕ = (n + 1) % 2 ^ 32 in
      let goes_on : (u : fs.Files)
          → (in_buffer (iologsdir ++ int_decimal next) >>= λ p.
              read_logs fs iologsdir targetdir (suc (length logs)) dir
                (record { iologpath = p; iolognum = next; files = u }))
            ≡ (restore_all logs u >>= λ v. ok (tool_at (n + 1 + length logs) v)) =
        λ u. rw (next_number n (omega arith), path) (others u) in
      rw (read_logs, found, whole, same, step)
        (bind_ext (restore fs log targetdir s) _ _ goes_on
          ∙ bind_assoc (restore fs log targetdir s) (restore_all logs) _)

  read_logs-absent :
      (fuel : ℕ) (dir : LogDir) (t : Tool fs iologsdir targetdir)
      → dir t.iologpath ≡ none
      → read_logs fs iologsdir targetdir (suc fuel) dir t ≡ ok t
  unfolding read_logs
  read_logs-absent fuel dir t e = rw (read_logs, e) refl

  read_logs-short :
      (fuel : ℕ) (dir : LogDir) (t : Tool fs iologsdir targetdir) (f : StoredLog)
      → dir t.iologpath ≡ some f
      → is_whole f ≡ false
      → read_logs fs iologsdir targetdir (suc fuel) dir t
        ≡ ok (record t { iolognum = (t.iolognum + 1) % 2 ^ 32 })
  unfolding read_logs
  read_logs-short fuel dir t f e h = rw (read_logs, e, h) refl

  read_logs-whole :
      (fuel : ℕ) (dir : LogDir) (t : Tool fs iologsdir targetdir) (f : StoredLog)
      → dir t.iologpath ≡ some f
      → is_whole f ≡ true
      → read_logs fs iologsdir targetdir (suc fuel) dir t ≡ (
          restore fs f.log targetdir t.files >>= λ u.
          in_buffer (iologsdir ++ int_decimal ((t.iolognum + 1) % 2 ^ 32)) >>= λ p.
          read_logs fs iologsdir targetdir fuel dir
            (record { iologpath = p; iolognum = (t.iolognum + 1) % 2 ^ 32; files = u }))
  unfolding read_logs
  read_logs-whole fuel dir t f e h = rw (read_logs, e, h) refl

  -- Where a log is not yet whole when the tool comes to it and is whole one round later, the tool does
  -- it then and goes on to the log two numbers on, without a look at the one between. That log is not
  -- there, the path of the directory has at most 1000 bytes, and the numbers fit an int.
  pub rounds-passes_over :
      (n : ℕ) (dir later : LogDir) (f g : StoredLog) (s : fs.Files)
      → length iologsdir ≤ 1000
      → n + 2 < 2 ^ 31
      → dir (iologsdir ++ decimal n) ≡ some f
      → is_whole f ≡ false
      → later (iologsdir ++ decimal n) ≡ some g
      → is_whole g ≡ true
      → later (iologsdir ++ decimal (n + 2)) ≡ none
      → rounds fs iologsdir targetdir 2 (dir ∷ later ∷ []) (tool_at n s)
        ≡ (restore fs g.log targetdir s >>= λ u. ok (tool_at (n + 2) u))
  unfolding rounds
  rounds-passes_over n dir later f g s l b found short found' whole absent =
      let t : Tool fs iologsdir targetdir = record (tool_at n s) { iolognum = n + 1 } in
      let two : (n + 1 + 1) % 2 ^ 32 ≡ n + 2 = omega arith in
      let path : in_buffer (iologsdir ++ int_decimal (n + 2)) ≡ ok (iologsdir ++ decimal (n + 2)) =
        in_buffer-path iologsdir (n + 2) l b in
      let last : (u : fs.Files)
          → (in_buffer (iologsdir ++ int_decimal ((n + 1 + 1) % 2 ^ 32)) >>= λ p.
              read_logs fs iologsdir targetdir 1 later
                (record { iologpath = p; iolognum = (n + 1 + 1) % 2 ^ 32; files = u }))
            ≡ ok (tool_at (n + 2) u) =
        λ u. rw (two, path) (read_logs-absent 0 later (tool_at (n + 2) u) absent) in
      rw
        (
          read_logs-short 1 dir (tool_at n s) f found short,
          next_number n (omega arith),
          read_logs-whole 1 later t g found' whole,
        )
        (sym (bind_assoc (restore fs g.log targetdir s) _ _)
          ∙ bind_ext (restore fs g.log targetdir s) _ _
              (λ u. ap (λ o. o >>= rounds fs iologsdir targetdir 2 []) (last u)))

  -- Without `-loop` the log directory is gone through once.
  pub main-once :
      (fuel n : ℕ) (dir : LogDir) (s : fs.Files)
      → length iologsdir ≤ 1000
      → n < 2 ^ 31
      → main fs iologsdir targetdir fuel n (dir ∷ []) s
        ≡ read_logs fs iologsdir targetdir fuel dir (tool_at n s)
  unfolding main rounds
  main-once fuel n dir s l b =
      rw (in_buffer-path iologsdir n l b)
        (bind-ok_right (read_logs fs iologsdir targetdir fuel dir (tool_at n s)))
