-- ===== src/Restore.antt =====
-- test/RestoreIolog.c: the tool that reads io logs back and does the changes that they tell of in
-- another directory. The file system is a parameter. Printing is left out.
pub mod Holding
pub mod Loop
pub mod Directories
pub mod Overrun
pub mod Written
use github_upload.Base.{
  ◌>>=◌, ℕ, zero, suc, ◌+◌, ◌%◌, ◌^◌, List, [], ◌∷◌, ◌++◌, Bool, true, false, Option, none, some,
  Outcome, ok, wild, unfinished, ltb, leb, ◌==◌, if◌then◌else◌, length, take,
}
use github_upload.LogFile.{
  LogFile, write_type, newfile_type, deletefile_type, renamefile_type, hardlink_type, softlink_type,
}
use github_upload.IoLog.Digits.{int_decimal}

-- What `mkdir` comes back with: 0, -1 with EEXIST, or another error.
pub data Made : Type 0 where
  made exists failed : Made

-- The system calls of the tool. Of all but `mkdir` it does not look at the result; one that fails
-- leaves the files as they are. `write_at` is `open` for writing, `lseek` and `write`.
pub record FileSystem : Type 1 where
  pub Files : Type 0
  pub mkdir : List ℕ → Files → Made × Files
  pub rmdir : List ℕ → Files → Files
  pub unlink : List ℕ → Files → Files
  pub create : List ℕ → Files → Files
  pub link : List ℕ → List ℕ → Files → Files
  pub rename : List ℕ → List ℕ → Files → Files
  pub symlink : List ℕ → List ℕ → Files → Files
  pub write_at : List ℕ → ℕ → List ℕ → Files → Files

-- `strrchr(p, '/')` and the cut behind it; `none` where there is no '/'.
unfoldable pub dir_parent : List ℕ → Option (List ℕ)
dir_parent [] = none
dir_parent (c ∷ rest) =
    let inner = dir_parent rest in
    elim inner [
      | some parent ↦ some (c ∷ parent)
      | none ↦ if c == b'/' then some (c ∷ []) else none
    ]

-- A path with a '/' at its end.
abbrev pub with_slash : List ℕ → List ℕ
with_slash [] = b'/' ∷ []
with_slash (c ∷ []) = if c == b'/' then c ∷ [] else c ∷ (b'/' ∷ [])
with_slash (c ∷ d ∷ rest) = c ∷ with_slash (d ∷ rest)

-- A string in a block of bytes that has nothing behind it.
unfoldable pub string_in : List ℕ → Outcome (List ℕ)
string_in [] = wild
string_in (zero ∷ rest) = ok []
string_in (suc c ∷ rest) = string_in rest >>= λ s. ok (suc c ∷ s)

-- The sizes of `wszFilePath` and of the tool's buffers.
abbrev pub max_path : ℕ
max_path = 260

abbrev pub buffer_size : ℕ
buffer_size = 1024

-- A string put together in a buffer.
abbrev pub in_buffer : List ℕ → Outcome (List ℕ)
in_buffer s = if ltb (length s) buffer_size then ok s else wild

module _ (fs : FileSystem) where
  open fs use {Files, mkdir, rmdir, unlink, create, link, rename, symlink, write_at}

  -- The loop of `mkdir_p`: `done` is the path up to `i`, `rest` what is left of it.
  unfoldable pub make_dirs : List ℕ → List ℕ → Files → Bool × Files
  make_dirs done [] s = (true, s)
  make_dirs done (c ∷ rest) s =
      if c == b'/'
      then (let (m, s') = mkdir done s in
          elim m [ failed ↦ (false, s') | _ ↦ make_dirs (done ++ (c ∷ [])) rest s' ])
      else make_dirs (done ++ (c ∷ [])) rest s

  -- `mkdir_p`: true for 0. The empty path is read in front of its buffer.
  unfoldable pub mkdir_p : List ℕ → Files → Outcome (Bool × Files)
  mkdir_p [] s = wild
  mkdir_p (c ∷ []) s = ok (make_dirs (c ∷ []) (if c == b'/' then [] else b'/' ∷ []) s)
  mkdir_p (c ∷ d ∷ rest) s = ok (make_dirs (c ∷ []) (with_slash (d ∷ rest)) s)

  -- The parent is the empty string where `dir_parent` finds none.
  unfoldable pub restore_new : LogFile → List ℕ → Files → Outcome Files
  restore_new log targetpath s = elim log.is_dir [
    | zero ↦ do
      (b, s') ← mkdir_p (elim (dir_parent targetpath) [ some p ↦ p | none ↦ [] ]) s
      ok (create targetpath s')
    | suc n ↦ do (b, s') ← mkdir_p targetpath s; ok s'
  ]

  -- `write` takes `Length` bytes from `Data` on.
  unfoldable pub restore_write : LogFile → List ℕ → Files → Outcome Files
  restore_write log targetpath s =
      if leb log.write_length (length log.payload)
      then ok (write_at targetpath log.byte_offset (take log.write_length log.payload) s)
      else wild

  -- The three that put a second path together from `Data`.
  unfoldable pub with_old_path : LogFile → List ℕ → (List ℕ → Files) → Outcome Files
  with_old_path log targetdir run = do
    name ← string_in log.payload
    targetoldpath ← in_buffer (targetdir ++ name)
    ok (run targetoldpath)

  -- The `switch` of `restore`.
  unfoldable pub restore_at : LogFile → List ℕ → List ℕ → Files → Outcome Files
  restore_at log targetdir targetpath s =
      if log.type == deletefile_type
      then ok (elim log.is_dir [ zero ↦ unlink targetpath s | suc n ↦ rmdir targetpath s ])
      else if log.type == hardlink_type
      then with_old_path log targetdir (λ old. link old targetpath s)
      else if log.type == newfile_type
      then restore_new log targetpath s
      else if log.type == renamefile_type
      then with_old_path log targetdir (λ old. rename old targetpath s)
      else if log.type == softlink_type
      then with_old_path log targetdir (λ old. symlink old targetpath s)
      else if log.type == write_type
      then restore_write log targetpath s
      else ok s

  -- `restore`: a path of 260 bytes has no NUL in its field.
  unfoldable pub restore : LogFile → List ℕ → Files → Outcome Files
  restore log targetdir s =
      if ltb (length log.file_path) max_path
      then (do
        targetpath ← in_buffer (targetdir ++ log.file_path)
        restore_at log targetdir targetpath s)
      else wild

-- A file in the log directory: its size and what it holds of a log.
pub record StoredLog : Type 0 where
  pub size : ℕ
  pub log : LogFile

-- `sizeof(LOG_FILE_HEADER)`, `ulLogSize` of the log, and so many bytes are there.
abbrev pub is_whole : StoredLog → Bool
is_whole f = if leb 312 f.size then leb f.log.log_size f.size else false

-- The log directory as the tool sees it at one time: what `fopen` finds by a path.
abbrev pub LogDir : Type 0
LogDir = List ℕ → Option StoredLog

module _ (fs : FileSystem) (iologsdir targetdir : List ℕ) where
  -- `iologpath`, the 32 bits of `iolognum`, and the files.
  pub record Tool : Type 0 where
    pub iologpath : List ℕ
    pub iolognum : ℕ
    pub files : fs.Files

  -- The inner loop of `main`, with fuel for its rounds. A file that is read short ends it, with
  -- `iolognum` counted up and `iologpath` as it was. `iolognum` wraps where the `int` overflows. Memory
  -- is to be had.
  unfoldable pub read_logs : ℕ → LogDir → Tool → Outcome Tool
  read_logs zero dir t = unfinished
  read_logs (suc fuel) dir t = elim (dir t.iologpath) [
    | none ↦ ok t
    | some f ↦
        let next : ℕ = (t.iolognum + 1) % 2 ^ 32 in
        if is_whole f
        then (do
          files ← restore fs f.log targetdir t.files
          path ← in_buffer (iologsdir ++ int_decimal next)
          read_logs fuel dir (record { iologpath = path; iolognum = next; files = files }))
        else ok (record t { iolognum = next })
  ]

  -- The rounds of the outer loop: the log directory at each of them.
  unfoldable pub rounds : ℕ → List LogDir → Tool → Outcome Tool
  rounds fuel [] t = ok t
  rounds fuel (dir ∷ dirs) t = read_logs fuel dir t >>= rounds fuel dirs

  -- `main` with the `int` to begin at, which `atoi` gives.
  unfoldable pub main : ℕ → ℕ → List LogDir → fs.Files → Outcome Tool
  main fuel begin dirs files = do
    path ← in_buffer (iologsdir ++ int_decimal begin)
    rounds fuel dirs (record { iologpath = path; iolognum = begin; files = files })
