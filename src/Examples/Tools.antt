-- ===== src/Examples/Tools.antt =====
-- The theorems on the log tools, on the start of the driver and on the kernel's symbols.
use github_upload.Base.{
  ◌>>=◌, ℕ, List, [], ◌∷◌, ◌++◌, true, false, ok, wild, some, none, pos, ◌≡◌, refl, arith, inl, inr,
  if◌then◌else◌, Has,
}
use github_upload.Rb.{to_list}
use github_upload.Text.{same_string}
use github_upload.LogFile.{LogFile, newfile_type, renamefile_type}
use github_upload.Driver.{Driver, Block}
use github_upload.IoLog.{log_file, two_path_log, no_data}
use github_upload.IoLog.Digits.{digits, decimal}
use github_upload.IoLog.WriteThread.{drain_queue}
use github_upload.MonitorSet.Sequence.{Stamp}
use github_upload.Restore.{
  FileSystem, StoredLog, LogDir, made, restore, rounds, main, mkdir_p, make_dirs,
}
use github_upload.Restore.Loop.{restore_all, tool_at, rounds-passes_over}
use github_upload.Analysis.{main as print_main}
use github_upload.Restore.Written.{written, numbered, main-drain_queue}
use github_upload.Restore.Directories.{MakesDirs, mkdir_p-makes}
use github_upload.ConfigFile.RoundTrip.{LoadedFrom}
use github_upload.MonitorSet.{init_monitor_set}
use github_upload.Module.{myreboot}
use github_upload.Module.Life.{cleared, init_monitor_set-myreboot}
use github_upload.Symbols.{Symbol, KernSym, find_symbol_address}
use github_upload.Symbols.Find.{walk, find_symbol_address-finds}
use github_upload.Restore.Overrun.{restore-two_path_log}
use github_upload.Examples.{kernel, driver, path_a}

-- A file system that keeps the names that have been made, the latest first.
abbrev names : FileSystem
names = record {
  Files = List (List ℕ);
  mkdir = λ p s. (made, p ∷ s);
  rmdir = λ p s. s;
  unlink = λ p s. s;
  create = λ p s. p ∷ s;
  link = λ p q s. q ∷ s;
  rename = λ p q s. q ∷ s;
  symlink = λ p q s. q ∷ s;
  write_at = λ p n b s. s;
}

abbrev stamp : Stamp
stamp = record { seq_no = 3; global_seq_no = 5; time = 2; iologdir = b'/' ∷ b'l' ∷ b'/' ∷ [] }

-- The log of a new directory "/a".
abbrev log_a : LogFile
log_a = log_file stamp newfile_type 1 1028 path_a no_data

abbrev dir_l : List ℕ
dir_l = b'/' ∷ b'l' ∷ b'/' ∷ []

abbrev dir_r : List ℕ
dir_r = b'/' ∷ b'r' ∷ []

abbrev path_ra : List ℕ
path_ra = b'/' ∷ b'r' ∷ b'/' ∷ b'a' ∷ []

abbrev queued_a : Driver
queued_a = record driver { queue = numbered dir_l 5 (log_a ∷ []) }

main-drain_queue_example :
    (u : Driver) × (drain_queue kernel queued_a ≡ ok (tt, u))
    × (main names dir_l dir_r 2 5 (written u.logs ∷ []) [] ≡ (
        restore_all names dir_l dir_r (log_a ∷ []) [] >>= λ v. ok (tool_at names dir_l dir_r 6 v)))
unfolding to_list
main-drain_queue_example =
    main-drain_queue kernel names dir_l dir_r 5 (log_a ∷ []) queued_a [] [] refl refl (omega arith)
      (omega arith) (omega arith) refl (omega arith, tt) refl

abbrev whole_a : StoredLog
whole_a = record { size = 1028; log = log_a }

abbrev half_a : StoredLog
half_a = record { size = 0; log = log_a }

abbrev at_first : LogDir
at_first path = some half_a

-- Only log 5 and log 6 are there a round later.
abbrev at_second : LogDir
at_second path = if same_string path (dir_l ++ (b'7' ∷ [])) then none else some whole_a

rounds-passes_over_example :
    rounds names dir_l dir_r 2 (at_first ∷ at_second ∷ []) (tool_at names dir_l dir_r 5 [])
    ≡ (restore names log_a dir_r [] >>= λ u. ok (tool_at names dir_l dir_r 7 u))
unfolding decimal digits
rounds-passes_over_example =
    rounds-passes_over names dir_l dir_r 5 at_first at_second half_a whole_a [] (omega arith)
      (omega arith) refl refl refl refl refl

-- A name is there once it has been made.
abbrev Made : List ℕ → List (List ℕ) → Type 0
Made p s = Has p s

abbrev names-MakesDirs : MakesDirs names
names-MakesDirs = record {
  There = Made;
  mkdir_there = λ p s h. inl refl;
  mkdir_keeps = λ p q s t. inr t;
}

-- "/r" is made on the way to "/r/a".
mkdir_p-makes_example : Made dir_r (path_ra ∷ dir_r ∷ [])
unfolding mkdir_p make_dirs
mkdir_p-makes_example =
    mkdir_p-makes names names-MakesDirs b'/' (b'r' ∷ []) (b'a' ∷ b'/' ∷ []) path_ra []
      (path_ra ∷ dir_r ∷ []) refl refl

restore-two_path_log_example :
    restore names (two_path_log stamp renamefile_type path_a dir_r) dir_r [] ≡ wild
restore-two_path_log_example =
    restore-two_path_log names stamp renamefile_type path_a dir_r dir_r [] (inl refl)
      (omega arith, (omega arith, tt))

abbrev table : List Symbol
table =
    record { name = some (b'a' ∷ []); addr = 800 }
    ∷ record { name = some (b'b' ∷ []); addr = 816 }
    ∷ record { name = some (b'c' ∷ []); addr = 848 }
    ∷ []

abbrev unknown : KernSym
unknown = record {
  name = [];
  addr = 0;
  end_addr = 0;
  size = 0;
  new_size = 0;
  run = 0;
  orig_start_bytes = [];
  new_addr = 0;
  found = false;
  hijacked = false;
}

find_symbol_address-finds_example : find_symbol_address (walk table) (b'b' ∷ []) unknown ≡ (
  pos 0,
  record unknown {
    name = b'b' ∷ [];
    addr = 816;
    end_addr = 848;
    size = 32;
    new_size = 32;
    run = 816;
    found = true;
  },
)
find_symbol_address-finds_example =
    find_symbol_address-finds (walk table) (b'b' ∷ [])
      (record { name = some (b'a' ∷ []); addr = 800 } ∷ []) unknown 816
      (record { name = some (b'c' ∷ []); addr = 848 }) [] (λ callback sym. refl) (refl, tt)

init_monitor_set-myreboot_example :
    (g : List (ℕ × Block)) × (myreboot driver
      ≡ ok (pos 1, record driver { last_shutdown = 2; cnf = some g }))
    × ((u : Driver) × (init_monitor_set kernel (record driver { cnf = some g }) ≡ ok (pos 0, u))
        × LoadedFrom kernel 2 (to_list driver.sets) (to_list driver.files) (cleared driver) u)
unfolding to_list
init_monitor_set-myreboot_example =
    init_monitor_set-myreboot kernel driver driver [] refl refl (omega arith) (tt, tt) (tt, tt)
      (inl refl, tt) refl refl
