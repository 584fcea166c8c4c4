-- ===== src/Hooks/Calls.antt =====
-- hookvfs.c: the calls that change the tree of files, each with its hook, the entry that it is watched by
-- and the io log that it leaves.
use github_upload.Base.{ℕ, List, [], ◌++◌, true, false, Option, none, some, ◌≡◌, ℤ}
use github_upload.Entries.{FileEntry}
use github_upload.LogFile.{
  LogFile, newfile_type, deletefile_type, renamefile_type, hardlink_type, softlink_type, error_type,
  log_file_size,
}
use github_upload.Driver.{Driver, M}
use github_upload.MonitorSet.Sequence.{Timespec, Stamp}
use github_upload.Paths.{
  Dentry, slash, get_abs_full_path_from_dentry, differs_from_slash, get_abs_parent_path_from_dentry,
}
use github_upload.IoLog.{log_file, two_path_log, no_data}
use github_upload.Hooks.{
  entry_for, or_else, rtb_vfs_rename, rtb_vfs_unlink, rtb_vfs_rmdir, rtb_vfs_create,
  rtb_vfs_symlink, rtb_vfs_link, rtb_vfs_mkdir,
}

-- A call: `creating` is of a file that is not there yet, with the path of `nd` where that is not NULL, and
-- `symlinking` has the target as it is written and what `path_lookup` finds for it.
pub data Call : Type 0 where
  renaming : Dentry → Dentry → Call
  unlinking : Dentry → Call
  removing : Dentry → Call
  creating : Option (List ℕ) → List ℕ → Call
  symlinking : Dentry → List ℕ → Option Dentry → Call
  linking : Dentry → Dentry → Call
  making : Dentry → Call

unfoldable pub hook : Call → Timespec → M ℤ → M ℤ
unfolding rtb_vfs_rename rtb_vfs_unlink rtb_vfs_rmdir rtb_vfs_create rtb_vfs_symlink rtb_vfs_link
    rtb_vfs_mkdir
hook (renaming old new) = rtb_vfs_rename old new
hook (unlinking dentry) = rtb_vfs_unlink dentry
hook (removing dentry) = rtb_vfs_rmdir dentry
hook (creating dir name) = rtb_vfs_create false dir name
hook (symlinking dentry oldname target) = rtb_vfs_symlink dentry oldname target
hook (linking old new) = rtb_vfs_link old new
hook (making dentry) = rtb_vfs_mkdir dentry

abbrev path_of : Dentry → List ℕ
path_of dentry = get_abs_full_path_from_dentry dentry []

-- The path of a new file: empty where `nd` is NULL.
abbrev pub created_path : Option (List ℕ) → List ℕ → List ℕ
created_path none name = []
created_path (some dir) name = (dir ++ slash) ++ name

-- The path that the entry is looked up by.
abbrev watched_path : Call → List ℕ
watched_path (renaming old new) = path_of new
watched_path (unlinking dentry) = path_of dentry
watched_path (removing dentry) = path_of dentry
watched_path (creating dir name) = created_path dir name
watched_path (symlinking dentry oldname target) = path_of dentry
watched_path (linking old new) = path_of new
watched_path (making dentry) = path_of dentry

-- The entry by which a call is watched: for a rename, that of the old path where the new one has none.
abbrev pub watched_by : Call → Driver → Option FileEntry
watched_by (renaming old new) d = or_else (entry_for (path_of new) d) (entry_for (path_of old) d)
watched_by (unlinking dentry) d = entry_for (path_of dentry) d
watched_by (removing dentry) d = entry_for (path_of dentry) d
watched_by (creating dir name) d = entry_for (created_path dir name) d
watched_by (symlinking dentry oldname target) d = entry_for (path_of dentry) d
watched_by (linking old new) d = entry_for (path_of new) d
watched_by (making dentry) d = entry_for (path_of dentry) d

-- How many allocations precede the lookup.
abbrev pub buffers : Call → ℕ
buffers (renaming old new) = 3
buffers (unlinking dentry) = 2
buffers (removing dentry) = 2
buffers (creating none name) = 2
buffers (creating (some dir) name) = 3
buffers (symlinking dentry oldname target) = 3
buffers (linking old new) = 3
buffers (making dentry) = 2

-- Is a symbolic link's target written from '/' on, or found? Otherwise the hook reads a `nameidata` that
-- nothing has been written to.
abbrev pub HasTarget : Call → Type 0
HasTarget (renaming old new) = Unit
HasTarget (unlinking dentry) = Unit
HasTarget (removing dentry) = Unit
HasTarget (creating dir name) = Unit
HasTarget (symlinking dentry oldname none) = differs_from_slash oldname ≡ false
HasTarget (symlinking dentry oldname (some target)) = Unit
HasTarget (linking old new) = Unit
HasTarget (making dentry) = Unit

-- The target of a symbolic link as the log names it.
unfoldable pub target_path : List ℕ → Option Dentry → List ℕ
unfolding differs_from_slash get_abs_parent_path_from_dentry
target_path oldname none = oldname
target_path oldname (some target) = elim (differs_from_slash oldname) [
  | false ↦ oldname
  | true ↦ (get_abs_parent_path_from_dentry target [] ++ slash) ++ oldname
]

-- The log of a call that succeeded.
abbrev pub change_log : Call → Stamp → LogFile
change_log (renaming old new) s = two_path_log s renamefile_type (path_of old) (path_of new)
change_log (unlinking dentry) s =
    log_file s deletefile_type 0 log_file_size (path_of dentry) no_data
change_log (removing dentry) s = log_file s deletefile_type 1 log_file_size (path_of dentry) no_data
change_log (creating dir name) s =
    log_file s newfile_type 0 log_file_size (created_path dir name) no_data
change_log (symlinking dentry oldname target) s =
    two_path_log s softlink_type (target_path oldname target) (path_of dentry)
change_log (linking old new) s = two_path_log s hardlink_type (path_of old) (path_of new)
change_log (making dentry) s = log_file s newfile_type 1 log_file_size (path_of dentry) no_data

-- The log of a call that failed.
abbrev pub error_log : Call → Stamp → LogFile
error_log c s = log_file s error_type 0 log_file_size (watched_path c) no_data
