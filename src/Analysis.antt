-- ===== src/Analysis.antt =====
-- test/AnalysisIolog.c: the tool that prints io logs, and with -loopdel removes each that it has printed.
-- What is printed is the logs in their order.
pub mod Emptied
pub mod Printed
use github_upload.Base.{
  ◌>>=◌, ℕ, zero, suc, ◌+◌, ◌%◌, ◌^◌, List, [], ◌∷◌, ◌++◌, Bool, false, ◌||◌, Option, none, some,
  Outcome, ok, unfinished, if◌then◌else◌,
}
use github_upload.Text.{same_string}
use github_upload.LogFile.{LogFile}
use github_upload.IoLog.Digits.{int_decimal}
use github_upload.Restore.{is_whole, LogDir, in_buffer}

-- `unlink`.
abbrev pub unlinked : List ℕ → LogDir → LogDir
unlinked path dir p = if same_string p path then none else dir p

-- `iologpath`, the 32 bits of `iolognum`, the log directory and what has been printed.
pub record Dump : Type 0 where
  pub iologpath : List ℕ
  pub iolognum : ℕ
  pub dir : LogDir
  pub printed : List LogFile

abbrev pub loop_option : List ℕ
loop_option = b'-' ∷ b'l' ∷ b'o' ∷ b'o' ∷ b'p' ∷ []

abbrev pub loopdel_option : List ℕ
loopdel_option = b'-' ∷ b'l' ∷ b'o' ∷ b'o' ∷ b'p' ∷ b'd' ∷ b'e' ∷ b'l' ∷ []

-- Is `argv[3]` there, and this option? `strncmp` compares the NUL too.
abbrev pub is_option : List ℕ → Option (List ℕ) → Bool
is_option o none = false
is_option o (some a) = same_string o a

module _ (iologsdir : List ℕ) where
  -- The inner loop of `main`, with fuel for its rounds. `iolognum` wraps where the `int` overflows.
  -- Memory is to be had.
  unfoldable pub print_logs : ℕ → Bool → Dump → Outcome Dump
  print_logs zero loopdel t = unfinished
  print_logs (suc fuel) loopdel t = elim (t.dir t.iologpath) [
    | none ↦ ok t
    | some f ↦
        let next : ℕ = (t.iolognum + 1) % 2 ^ 32 in
        if is_whole f
        then (do
          path ← in_buffer (iologsdir ++ int_decimal next)
          print_logs fuel loopdel (record {
            iologpath = path;
            iolognum = next;
            dir = if loopdel then unlinked t.iologpath t.dir else t.dir;
            printed = t.printed ++ f.log ∷ [];
          }))
        else ok (record t { iolognum = next })
  ]

  -- The rounds of the outer loop behind the first one: what others do to the log directory before each.
  unfoldable pub print_rounds : ℕ → Bool → List (LogDir → LogDir) → Dump → Outcome Dump
  print_rounds fuel loopdel [] t = ok t
  print_rounds fuel loopdel (change ∷ changes) t =
      print_logs fuel loopdel (record t { dir = change t.dir })
      >>= print_rounds fuel loopdel changes

  -- `main` with the `int` to begin at, which `atoi` gives, and the third argument. Without an option
  -- there is one round.
  unfoldable pub main : ℕ → ℕ → Option (List ℕ) → List (LogDir → LogDir) → LogDir → Outcome Dump
  main fuel begin option changes dir =
      let loopdel : Bool = is_option loopdel_option option in
      let again : List (LogDir → LogDir) =
        if is_option loop_option option || loopdel then changes else [] in
      in_buffer (iologsdir ++ int_decimal begin) >>= λ path.
      print_logs fuel loopdel
        (record { iologpath = path; iolognum = begin; dir = dir; printed = [] })
      >>= print_rounds fuel loopdel again
