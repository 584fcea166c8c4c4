-- ===== src/Hooks/Writing.antt =====
-- hookvfs.c: `rtb_vfs_write` lets the write through, and leaves one io log for a file that is watched.
use github_upload.Base.{
  ◌&&◌, not, ℕ, ◌+◌, ◌-◌, ◌^◌, ◌<◌, List, Bool, true, false, none, some, ok, ℤ, pos, ◌≡◌, refl,
  arith, if◌then◌else◌, ◌∙◌, Bool-cases, inl, inr, ◌==◌, take, ltb,
}
use github_upload.Entries.{FileEntry}
use github_upload.LogFile.{LogFile, write_type, error_type, log_file_size}
use github_upload.Driver.{Driver, M, ◌>>=◌, bind-ok, alloc}
use github_upload.ConfigFile.{u32}
use github_upload.MonitorSet.{get_monitor_file_entry_by_abspath}
use github_upload.MonitorSet.Sequence.{Timespec, Stamp, get_monitor_file_seq_no}
use github_upload.Paths.{get_abs_full_path_from_struct_file}
use github_upload.IoLog.{
  log_file, no_data, queue_log, with_log_file, createiolog_for_error, createiolog_for_write,
  fill_write_log,
}
use github_upload.Hooks.{takes_part, entry_for, is_positive, check_log, write_logged, rtb_vfs_write}
use github_upload.Hooks.Logging.{with_memory, later, queued, with_log}

-- The log of a write: the bytes that were asked for, of which the call may have written fewer.
abbrev pub write_log : List ℕ → List ℕ → ℕ → ℕ → Stamp → LogFile
write_log path buf count position s =
    record (log_file s write_type 0 (log_file_size + count - 4) path (take count buf)) {
      write_length = u32 count;
      byte_offset = position;
    }

abbrev write_error : List ℕ → Stamp → LogFile
write_error path s = log_file s error_type 0 log_file_size path no_data

write_log-queued :
    (s : Stamp) (path buf : List ℕ) (count position : ℕ) (u : Driver)
    → log_file_size + count - 4 < 2 ^ 31
    → createiolog_for_write s path buf count position (with_memory u)
      ≡ ok (pos 0, with_log (queued s (write_log path buf count position s)) u)
unfolding createiolog_for_write fill_write_log queue_log alloc
write_log-queued s path buf count position u h =
    let size = log_file_size + count - 4 in
    let small : ltb (u32 size) (2 ^ 31) ≡ true = ground arith in
    let whole : (u32 size == size) ≡ true = ground arith in
    rw (small, createiolog_for_write) (rw (whole, fill_write_log) refl)

-- While the driver is not running, or for a file opened with O_WRONLY, the hook is the write and nothing
-- else.
write_passes :
    (f_flags : ℕ) (path buf : List ℕ) (count position : ℕ) (ts : Timespec) (run : M ℤ) (d : Driver)
    → (takes_part d && not (f_flags == 1)) ≡ false
    → rtb_vfs_write f_flags path buf count position ts run d ≡ run d
unfolding rtb_vfs_write
write_passes f_flags path buf count position ts run d h = elim (Bool-cases (takes_part d)) [
  | inr e ↦ rw (e, rtb_vfs_write) refl
  | inl e ↦
      let flag : (f_flags == 1) ≡ true = ground arith in
      rw (e, rtb_vfs_write) (rw (flag, rtb_vfs_write) refl)
]

logged_write :
    (f_flags : ℕ) (path buf : List ℕ) (count position : ℕ) (ts : Timespec) (run : M ℤ) (d : Driver)
    → takes_part d ≡ true
    → (f_flags == 1) ≡ false
    → rtb_vfs_write f_flags path buf count position ts run (with_memory d)
      ≡ write_logged
          (entry_for path d)
          (pos 0)
          path
          buf
          count
          position
          ts
          run
          (later 3 (with_memory d))
unfolding rtb_vfs_write get_abs_full_path_from_struct_file get_monitor_file_entry_by_abspath alloc
logged_write f_flags path buf count position ts run d t f =
    rw (t, rtb_vfs_write) (rw (f, rtb_vfs_write) refl)

-- With the driver running and memory for the buffers, a write that no entry watches, to a file that is
-- not opened with O_WRONLY alone, is run once and leaves no log.
write_unwatched :
    (f_flags : ℕ) (path buf : List ℕ) (count position : ℕ) (ts : Timespec) (run : M ℤ)
    (d u : Driver) (ret : ℤ)
    → takes_part d ≡ true
    → (f_flags == 1) ≡ false
    → entry_for path d ≡ none
    → run (later 3 (with_memory d)) ≡ ok (ret, u)
    → rtb_vfs_write f_flags path buf count position ts run (with_memory d) ≡ ok (ret, u)
unfolding write_logged check_log
write_unwatched f_flags path buf count position ts run d u ret t f w q =
    logged_write f_flags path buf count position ts run d t f
    ∙ rw w (bind-ok run (check_log (pos 0)) (later 3 (with_memory d)) u ret q)

-- With the driver running and memory to be had, a write to a file that is not opened with O_WRONLY
-- alone, of so many bytes that the log's size fits an int, that an entry watches, which takes its numbers
-- without a fault, and that leaves memory to be had, is run once behind them. Its result is handed on,
-- and one log is queued: of the bytes asked for where the result is above 0, and else an error's.
pub write_watched :
    (f_flags : ℕ) (path buf : List ℕ) (count position : ℕ) (ts : Timespec) (run : M ℤ)
    (d d1 u : Driver) (e : FileEntry) (r ret : ℤ) (s : Stamp)
    → takes_part d ≡ true
    → (f_flags == 1) ≡ false
    → log_file_size + count - 4 < 2 ^ 31
    → entry_for path d ≡ some e
    → get_monitor_file_seq_no e.addr ts (later 3 (with_memory d)) ≡ ok ((r, s), d1)
    → run d1 ≡ ok (ret, with_memory u)
    → rtb_vfs_write f_flags path buf count position ts run (with_memory d)
      ≡ ok (
        ret,
        with_log
            (queued s
              (if is_positive ret then write_log path buf count position s else write_error path s))
            u,
      )
unfolding write_logged check_log createiolog_for_error with_log_file queue_log alloc
write_watched f_flags path buf count position ts run d d1 u e r ret s t f h w n q =
    logged_write f_flags path buf count position ts run d t f
    ∙ rw w (
        bind-ok (get_monitor_file_seq_no e.addr ts) _ (later 3 (with_memory d)) d1 (r, s) n
        ∙ bind-ok run _ d1 (with_memory u) ret q
        ∙ settled (is_positive ret))
  where
    settled :
        (b : Bool)
        → elim b as (λ _. M ℤ) [
          | true ↦ createiolog_for_write s path buf count position >>= λ iret. check_log iret ret
          | false ↦ createiolog_for_error s path >>= λ iret. check_log iret ret
        ]
            (with_memory u)
          ≡ ok (
            ret,
            with_log
                (queued s (if b then write_log path buf count position s else write_error path s))
                u,
          )
    settled true =
        bind-ok (createiolog_for_write s path buf count position) _ _ _ (pos 0)
          (write_log-queued s path buf count position u h)
    settled false = refl
