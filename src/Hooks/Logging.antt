-- ===== src/Hooks/Logging.antt =====
-- hookvfs.c: a hook lets its call through, and leaves one io log for a call that is watched.
use github_upload.Base.{
  Option, ℕ, zero, suc, ◌+◌, List, [], ◌∷◌, ◌++◌, Bool, true, false, none, some, ok, ℤ, pos,
  is_nonzero, ◌≡◌, refl, if◌then◌else◌, ◌∙◌, Bool-cases, inl, inr,
}
use github_upload.Entries.{FileEntry}
use github_upload.LogFile.{LogFile}
use github_upload.Driver.{Driver, IoWriteContext, M, pure, ◌>>◌, bind-ok}
use github_upload.MonitorSet.Sequence.{Timespec, Stamp, get_monitor_file_seq_no}
use github_upload.MonitorSet.{get_monitor_file_entry_by_abspath}
use github_upload.Paths.{Dentry, differs_from_slash, get_abs_full_path}
use github_upload.IoLog.{
  log_path, with_log_file, createiolog_for_rename, createiolog_for_error, createiolog_for_rmdir,
  createiolog_for_rmfile, createiolog_for_createfile, createiolog_for_createsymlink,
  createiolog_for_createlink, createiolog_for_mkdir,
}
use github_upload.Hooks.{
  takes_part, run_logged, rtb_vfs_rename, rtb_vfs_unlink, rtb_vfs_rmdir, rtb_vfs_create,
  rtb_vfs_symlink, rtb_vfs_link, rtb_vfs_mkdir,
}
use github_upload.Hooks.Calls.{
  Call, renaming, unlinking, removing, creating, symlinking, linking, making, hook, buffers,
  HasTarget, watched_by, change_log, error_log, target_path,
}

-- While the driver is not running, every hook is its call and nothing else.
hook_passes :
    (c : Call) (ts : Timespec) (run : M ℤ) (d : Driver)
    → takes_part d ≡ false
    → hook c ts run d ≡ run d
unfolding hook rtb_vfs_rename rtb_vfs_unlink rtb_vfs_rmdir rtb_vfs_create rtb_vfs_symlink
    rtb_vfs_link rtb_vfs_mkdir
hook_passes (renaming old new) ts run d h = rw (h, rtb_vfs_rename) refl
hook_passes (unlinking dentry) ts run d h = rw (h, rtb_vfs_unlink) refl
hook_passes (removing dentry) ts run d h = rw (h, rtb_vfs_rmdir) refl
hook_passes (creating dir name) ts run d h = rw (h, rtb_vfs_create) refl
hook_passes (symlinking dentry oldname target) ts run d h = rw (h, rtb_vfs_symlink) refl
hook_passes (linking old new) ts run d h = rw (h, rtb_vfs_link) refl
hook_passes (making dentry) ts run d h = rw (h, rtb_vfs_mkdir) refl

-- The state with memory to be had, and after `n` allocations.
abbrev pub with_memory : Driver → Driver
with_memory d = record d { allocs = [] }

abbrev pub later : ℕ → Driver → Driver
later zero d = d
later (suc n) d = later n (record d { next_addr = d.next_addr + 1 })

abbrev pub queued : Stamp → LogFile → IoWriteContext
queued s l = record { iologpath = log_path s.iologdir s.global_seq_no; logfile = l }

get_abs_full_path-target :
    (dentry : Dentry) (oldname : List ℕ) (target : Option Dentry)
    → HasTarget (symlinking dentry oldname target)
    → get_abs_full_path oldname target ≡ pure (target_path oldname target)
unfolding get_abs_full_path target_path
get_abs_full_path-target dentry oldname none h = rw (h, get_abs_full_path, target_path) refl
get_abs_full_path-target dentry oldname (some target) h =
    elim (Bool-cases (differs_from_slash oldname)) [
      | inl e ↦ rw (e, get_abs_full_path, target_path) refl
      | inr e ↦ rw (e, get_abs_full_path, target_path) refl
    ]

hook_logged :
    (c : Call) (ts : Timespec) (run : M ℤ) (d : Driver)
    → takes_part d ≡ true
    → HasTarget c
    → hook c ts run (with_memory d)
      ≡ run_logged
          (watched_by c d)
          ts
          run
          (λ s. with_log_file s (change_log c s))
          (λ s. with_log_file s (error_log c s))
          (later (buffers c) (with_memory d))
unfolding hook get_monitor_file_entry_by_abspath with_log_file createiolog_for_rename
    createiolog_for_error createiolog_for_rmdir createiolog_for_rmfile createiolog_for_createfile
    createiolog_for_createsymlink createiolog_for_createlink createiolog_for_mkdir target_path
    get_abs_full_path rtb_vfs_rename rtb_vfs_unlink rtb_vfs_rmdir rtb_vfs_create rtb_vfs_symlink
    rtb_vfs_link rtb_vfs_mkdir
hook_logged (renaming old new) ts run d h g = rw (h, rtb_vfs_rename) refl
hook_logged (unlinking dentry) ts run d h g = rw (h, rtb_vfs_unlink) refl
hook_logged (removing dentry) ts run d h g = rw (h, rtb_vfs_rmdir) refl
hook_logged (creating none name) ts run d h g = rw (h, rtb_vfs_create) refl
hook_logged (creating (some dir) name) ts run d h g = rw (h, rtb_vfs_create) refl
hook_logged (symlinking dentry oldname target) ts run d h g =
    rw (h, rtb_vfs_symlink)
      (rw (get_abs_full_path-target dentry oldname target g, rtb_vfs_symlink) refl)
hook_logged (linking old new) ts run d h g = rw (h, rtb_vfs_link) refl
hook_logged (making dentry) ts run d h g = rw (h, rtb_vfs_mkdir) refl

-- The state with one more log in the queue; its memory, its path's and its context's are three
-- allocations.
abbrev pub with_log : IoWriteContext → Driver → Driver
with_log c d = record (later 3 (with_memory d)) { queue = d.queue ++ (c ∷ []) }

log_queued :
    (s : Stamp) (l : LogFile) (u : Driver)
    → with_log_file s l (with_memory u) ≡ ok (pos 0, with_log (queued s l) u)
unfolding with_log_file
log_queued s l u = refl

run_logged_watched :
    (e : FileEntry) (ts : Timespec) (run : M ℤ) (change error : Stamp → LogFile) (d d1 u : Driver)
    (r ret : ℤ) (s : Stamp)
    → get_monitor_file_seq_no e.addr ts d ≡ ok ((r, s), d1)
    → run d1 ≡ ok (ret, with_memory u)
    → run_logged
        (some e)
        ts
        run
        (λ s. with_log_file s (change s))
        (λ s. with_log_file s (error s))
        d
      ≡ ok (ret, with_log (queued s (if is_nonzero ret then error s else change s)) u)
unfolding run_logged
run_logged_watched e ts run change error d d1 u r ret s n h =
    bind-ok (get_monitor_file_seq_no e.addr ts) _ d d1 (r, s) n
    ∙ bind-ok run _ d1 (with_memory u) ret h
    ∙ settled (is_nonzero ret)
  where
    settled :
        (b : Bool)
        → elim b as (λ _. M ℤ) [
          | false ↦ with_log_file s (change s) >> pure ret
          | true ↦ with_log_file s (error s) >> pure ret
        ]
            (with_memory u)
          ≡ ok (ret, with_log (queued s (if b then error s else change s)) u)
    settled false = bind-ok (with_log_file s (change s)) _ _ _ (pos 0) (log_queued s (change s) u)
    settled true = bind-ok (with_log_file s (error s)) _ _ _ (pos 0) (log_queued s (error s) u)

-- With the driver running and memory to be had, a call that an entry watches, which takes its numbers
-- without a fault, and that leaves memory to be had, is run once behind them. Its result is handed on,
-- and one log is queued for it: the change's if the result is 0, and else an error's. The target of a
-- symbolic link is written from '/' on, or found.
pub hook_watched :
    (c : Call) (ts : Timespec) (run : M ℤ) (d d1 u : Driver) (e : FileEntry) (r ret : ℤ) (s : Stamp)
    → takes_part d ≡ true
    → HasTarget c
    → watched_by c d ≡ some e
    → get_monitor_file_seq_no e.addr ts (later (buffers c) (with_memory d)) ≡ ok ((r, s), d1)
    → run d1 ≡ ok (ret, with_memory u)
    → hook c ts run (with_memory d)
      ≡ ok (ret, with_log (queued s (if is_nonzero ret then error_log c s else change_log c s)) u)
hook_watched c ts run d d1 u e r ret s h g w n q =
    hook_logged c ts run d h g
    ∙ rw w (run_logged_watched e ts run (change_log c) (error_log c) _ d1 u r ret s n q)
