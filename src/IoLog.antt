-- ===== src/IoLog.antt =====
-- createiolog.c with ASYNC_IOWRITE: each `createiologfor...` builds a `LOG_FILE` and queues it for the
-- write thread. A path is the list of its bytes; `take 260` is the clamp of `len` to 260.
pub mod Digits
pub mod WriteThread
pub mod Sound
pub mod Drain
pub mod Accounted
pub mod Names
use github_upload.Base.{
  ℕ, ◌+◌, ◌-◌, ◌^◌, List, [], ◌∷◌, ◌++◌, Option, none, some, ok, ℤ, pos, negsuc, take, replicate,
  length, ltb, ◌==◌, if◌then◌else◌,
}
use github_upload.LogFile.{
  LogFile, write_type, newfile_type, deletefile_type, renamefile_type, hardlink_type, softlink_type,
  error_type, log_file_header_size, log_file_size,
}
use github_upload.Driver.{M, pure, fault, ◌>>=◌, alloc}
use github_upload.ConfigFile.{u32}
use github_upload.MonitorSet.Sequence.{Stamp}
use Digits.{decimal}

-- `MAX_PATH`.
abbrev max_path : ℕ
max_path = 260

-- `snprintf(iologpath, NAME_MAX, "%s%lld", iologdir, ullGlobalSeqNo)`.
unfoldable pub log_path : List ℕ → ℕ → List ℕ
log_path iologdir global_seq_no = take 254 (iologdir ++ decimal global_seq_no)

-- The log file's header fields that all kinds share, on zeroed memory.
abbrev pub log_file : Stamp → ℕ → ℕ → ℕ → List ℕ → List ℕ → LogFile
log_file s type is_dir log_size file_path payload = record {
  header_size = log_file_header_size;
  type = type;
  seq_no = s.seq_no;
  global_seq_no = s.global_seq_no;
  log_size = log_size;
  is_dir = is_dir;
  file_path = take max_path file_path;
  system_time = s.time;
  write_length = 0;
  byte_offset = 0;
  payload = payload;
}

-- `iologpath = kzalloc(...)`, the context, and `list_add_tail` under the queue's lock. Neither
-- allocation is tested before it is written to.
unfoldable pub queue_log : List ℕ → ℕ → LogFile → M ℤ
unfolding alloc log_path
queue_log iologdir global_seq_no logfile = alloc >>= λ path. elim path [
  | none ↦ fault
  | some _ ↦ alloc >>= λ context. elim context [
    | none ↦ fault
    | some _ ↦ λ d. ok (
      pos 0,
      record d {
        queue =
            d.queue
            ++ (record { iologpath = log_path iologdir global_seq_no; logfile = logfile } ∷ []);
      },
    )
  ]
]

-- `iologfile = kmalloc(...)`, with `return -1` for NULL.
unfoldable pub with_log_file : Stamp → LogFile → M ℤ
unfolding alloc queue_log
with_log_file s logfile = alloc >>= λ memory. elim memory [
  | none ↦ pure (negsuc 0)
  | some _ ↦ queue_log s.iologdir s.global_seq_no logfile
]

-- The four bytes of `Data` where nothing is written to it.
abbrev pub no_data : List ℕ
no_data = replicate 4 0

unfoldable pub createiolog_for_mkdir : Stamp → List ℕ → M ℤ
unfolding with_log_file
createiolog_for_mkdir s abspath =
    with_log_file s (log_file s newfile_type 1 log_file_size abspath no_data)

unfoldable pub createiolog_for_createfile : Stamp → List ℕ → M ℤ
unfolding with_log_file
createiolog_for_createfile s abspath =
    with_log_file s (log_file s newfile_type 0 log_file_size abspath no_data)

unfoldable pub createiolog_for_rmdir : Stamp → List ℕ → M ℤ
unfolding with_log_file
createiolog_for_rmdir s abspath =
    with_log_file s (log_file s deletefile_type 1 log_file_size abspath no_data)

unfoldable pub createiolog_for_rmfile : Stamp → List ℕ → M ℤ
unfolding with_log_file
createiolog_for_rmfile s abspath =
    with_log_file s (log_file s deletefile_type 0 log_file_size abspath no_data)

unfoldable pub createiolog_for_error : Stamp → List ℕ → M ℤ
unfolding with_log_file
createiolog_for_error s abspath =
    with_log_file s (log_file s error_type 0 log_file_size abspath no_data)

-- A log with a second path in `Data`, which is as long as that path.
abbrev pub two_path_log : Stamp → ℕ → List ℕ → List ℕ → LogFile
two_path_log s type file_path second =
    log_file s type 0 (log_file_size + length (take max_path second) - 4) file_path
      (take max_path second)

unfoldable pub createiolog_for_rename : Stamp → List ℕ → List ℕ → M ℤ
unfolding with_log_file
createiolog_for_rename s oldabspath newabspath =
    with_log_file s (two_path_log s renamefile_type oldabspath newabspath)

unfoldable pub createiolog_for_createsymlink : Stamp → List ℕ → List ℕ → M ℤ
unfolding with_log_file
createiolog_for_createsymlink s symlinkabspath dstabspath =
    with_log_file s (two_path_log s softlink_type dstabspath symlinkabspath)

unfoldable pub createiolog_for_createlink : Stamp → List ℕ → List ℕ → M ℤ
unfolding with_log_file
createiolog_for_createlink s linkabspath dstabspath =
    with_log_file s (two_path_log s hardlink_type dstabspath linkabspath)

-- `createiologforwrite` with the memory for its log. A length that has lost bits leaves no room for the
-- data.
unfoldable pub fill_write_log : Stamp → List ℕ → List ℕ → ℕ → ℕ → Option ℕ → M ℤ
unfolding queue_log
fill_write_log s abspath writebuff count position none = pure (negsuc 0)
fill_write_log s abspath writebuff count position (some _) =
    let size = log_file_size + count - 4 in
    if u32 size == size
    then queue_log s.iologdir s.global_seq_no
        (record (log_file s write_type 0 size abspath (take count writebuff)) {
          write_length = u32 count;
          byte_offset = position;
        })
    else fault

-- `createiologforwrite`: `iologfilelen` is an `int`, and one that is negative makes `vmalloc` fail.
unfoldable pub createiolog_for_write : Stamp → List ℕ → List ℕ → ℕ → ℕ → M ℤ
unfolding alloc fill_write_log
createiolog_for_write s abspath writebuff count position =
    if ltb (u32 (log_file_size + count - 4)) (2 ^ 31)
    then alloc >>= fill_write_log s abspath writebuff count position
    else pure (negsuc 0)
