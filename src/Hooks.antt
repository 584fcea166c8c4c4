-- ===== src/Hooks.antt =====
-- hookvfs.c: the functions that stand in for those of the VFS. `run` is the original function, which
-- each calls through its `kernsym`; the entries' paths come from the dentries, or from `d_path` and
-- `path_lookup`. `kfree` of the buffers leaves no trace.
pub mod Calls
pub mod Logging
pub mod Unlogged
pub mod Writing
pub mod Sizes
pub mod Sound
pub mod PathsSound
use github_upload.Base.{
  ℕ, zero, suc, List, [], Bool, true, false, ◌&&◌, Option, none, some, ℤ, pos, negsuc, is_nonzero,
  ◌==◌,
}
use github_upload.Entries.{FileEntry}
use github_upload.Driver.{Driver, M, pure, fault, ◌>>=◌, ◌>>◌, alloc}
use github_upload.MonitorSet.{get_monitor_file_entry_by_abspath}
use github_upload.MonitorSet.Sequence.{Timespec, Stamp, get_monitor_file_seq_no}
use github_upload.Paths.{
  Dentry, get_abs_full_path_from_dentry, get_abs_full_path_from_struct_file,
  get_abs_full_path_from_nd, get_abs_full_path,
}
use github_upload.IoLog.{
  createiolog_for_mkdir, createiolog_for_createfile, createiolog_for_rmdir, createiolog_for_rmfile,
  createiolog_for_error, createiolog_for_rename, createiolog_for_createsymlink,
  createiolog_for_createlink, createiolog_for_write,
}
use github_upload.IoLog.WriteThread.{client_error, notify_user_status}

-- The first test of every hook, turned round: does the driver take part?
abbrev pub takes_part : Driver → Bool
takes_part d = d.normal_running && d.valid

-- `kmalloc(PATH_MAX, GFP_KERNEL)`: did it give a buffer?
unfoldable pub buffer : M Bool
unfolding alloc
buffer = alloc >>= λ memory. elim memory [ none ↦ pure false | some _ ↦ pure true ]

-- From `ineedtolog` on: for a monitored entry the numbers are taken before the original call, and the
-- log that follows is the change's or an error's. The logs' results are not looked at.
unfoldable run_logged : Option FileEntry → Timespec → M ℤ → (Stamp → M ℤ) → (Stamp → M ℤ) → M ℤ
unfolding get_monitor_file_seq_no
run_logged none ts run log_change log_error = run
run_logged (some e) ts run log_change log_error =
    get_monitor_file_seq_no e.addr ts >>= λ (_, stamp). run >>= λ ret. elim (is_nonzero ret) [
      | false ↦ log_change stamp >> pure ret
      | true ↦ log_error stamp >> pure ret
    ]

abbrev pub entry_for : List ℕ → Driver → Option FileEntry
entry_for path d = get_monitor_file_entry_by_abspath path d

-- The second lookup of `rtb_vfs_rename`, where the first finds nothing.
abbrev pub or_else : Option FileEntry → Option FileEntry → Option FileEntry
or_else (some e) other = some e
or_else none other = other

-- `rtb_vfs_rename`: the new path is looked up before the old one.
unfoldable pub rtb_vfs_rename : Dentry → Dentry → Timespec → M ℤ → M ℤ
unfolding buffer run_logged
rtb_vfs_rename old_dentry new_dentry ts run d = elim (takes_part d) [
  | false ↦ run d
  | true ↦
      (buffer >>= λ iologdir. buffer >>= λ oldbuf. buffer >>= λ newbuf.
      elim (oldbuf && newbuf && iologdir) [
        | false ↦ run
        | true ↦ λ d.
            let newabspath = get_abs_full_path_from_dentry new_dentry [] in
            let oldabspath = get_abs_full_path_from_dentry old_dentry [] in
            run_logged (or_else (entry_for newabspath d) (entry_for oldabspath d)) ts run
              (λ s. createiolog_for_rename s oldabspath newabspath)
              (λ s. createiolog_for_error s newabspath) d
      ])
        d
]

-- `rtb_vfs_unlink`.
unfoldable pub rtb_vfs_unlink : Dentry → Timespec → M ℤ → M ℤ
unfolding buffer run_logged
rtb_vfs_unlink dentry ts run d = elim (takes_part d) [
  | false ↦ run d
  | true ↦
      (buffer >>= λ iologdir. buffer >>= λ pathbuf. elim (pathbuf && iologdir) [
        | false ↦ run
        | true ↦ λ d.
            let abspath = get_abs_full_path_from_dentry dentry [] in
            run_logged (entry_for abspath d) ts run (λ s. createiolog_for_rmfile s abspath)
              (λ s. createiolog_for_error s abspath) d
      ])
        d
]

-- `rtb_vfs_rmdir`: the log directory's buffer is zeroed with no test.
unfoldable pub rtb_vfs_rmdir : Dentry → Timespec → M ℤ → M ℤ
unfolding buffer run_logged
rtb_vfs_rmdir dentry ts run d = elim (takes_part d) [
  | false ↦ run d
  | true ↦
      (buffer >>= λ iologdir. buffer >>= λ pathbuf. elim pathbuf [
        | false ↦ run
        | true ↦ elim iologdir [
          | false ↦ fault
          | true ↦ λ d.
              let abspath = get_abs_full_path_from_dentry dentry [] in
              run_logged (entry_for abspath d) ts run (λ s. createiolog_for_rmdir s abspath)
                (λ s. createiolog_for_error s abspath) d
        ]
      ])
        d
]

-- `rtb_vfs_create`: `exists` is `dentry->d_inode != NULL`, and `looked_up` the path of `nd`.
unfoldable pub rtb_vfs_create : Bool → Option (List ℕ) → List ℕ → Timespec → M ℤ → M ℤ
unfolding buffer run_logged get_abs_full_path_from_nd
rtb_vfs_create exists looked_up name ts run d = elim (takes_part d) [
  | false ↦ run d
  | true ↦ elim exists [
    | true ↦ run d
    | false ↦
        (buffer >>= λ iologdir. buffer >>= λ pathbuf. elim (pathbuf && iologdir) [
          | false ↦ run
          | true ↦ get_abs_full_path_from_nd looked_up name >>= λ (_, abspath) d.
              run_logged (entry_for abspath d) ts run (λ s. createiolog_for_createfile s abspath)
                (λ s. createiolog_for_error s abspath) d
        ])
          d
  ]
]

-- `rtb_vfs_symlink`: `looked_up` is what `path_lookup` gives for the target.
unfoldable pub rtb_vfs_symlink : Dentry → List ℕ → Option Dentry → Timespec → M ℤ → M ℤ
unfolding buffer run_logged get_abs_full_path
rtb_vfs_symlink dentry oldname looked_up ts run d = elim (takes_part d) [
  | false ↦ run d
  | true ↦
      (buffer >>= λ iologdir. buffer >>= λ oldbuf. buffer >>= λ newbuf.
      elim (oldbuf && newbuf && iologdir) [
        | false ↦ run
        | true ↦ get_abs_full_path oldname looked_up >>= λ oldabspath d.
            let newabspath = get_abs_full_path_from_dentry dentry [] in
            run_logged (entry_for newabspath d) ts run
              (λ s. createiolog_for_createsymlink s newabspath oldabspath)
              (λ s. createiolog_for_error s newabspath) d
      ])
        d
]

-- `rtb_vfs_link`.
unfoldable pub rtb_vfs_link : Dentry → Dentry → Timespec → M ℤ → M ℤ
unfolding buffer run_logged
rtb_vfs_link old_dentry new_dentry ts run d = elim (takes_part d) [
  | false ↦ run d
  | true ↦
      (buffer >>= λ oldbuf. buffer >>= λ newbuf. buffer >>= λ iologdir.
      elim (oldbuf && newbuf && iologdir) [
        | false ↦ run
        | true ↦ λ d.
            let oldabspath = get_abs_full_path_from_dentry old_dentry [] in
            let newabspath = get_abs_full_path_from_dentry new_dentry [] in
            run_logged (entry_for newabspath d) ts run
              (λ s. createiolog_for_createlink s newabspath oldabspath)
              (λ s. createiolog_for_error s newabspath) d
      ])
        d
]

-- `rtb_vfs_mkdir`.
unfoldable pub rtb_vfs_mkdir : Dentry → Timespec → M ℤ → M ℤ
unfolding buffer run_logged
rtb_vfs_mkdir dentry ts run d = elim (takes_part d) [
  | false ↦ run d
  | true ↦
      (buffer >>= λ iologdir. buffer >>= λ pathbuf. elim (pathbuf && iologdir) [
        | false ↦ run
        | true ↦ λ d.
            let abspath = get_abs_full_path_from_dentry dentry [] in
            run_logged (entry_for abspath d) ts run (λ s. createiolog_for_mkdir s abspath)
              (λ s. createiolog_for_error s abspath) d
      ])
        d
]

-- `ret > 0`.
abbrev pub is_positive : ℤ → Bool
is_positive (pos zero) = false
is_positive (pos (suc n)) = true
is_positive (negsuc n) = false

-- The end of `rtb_vfs_write`: a log that fails stops the driver, and user space is told.
unfoldable check_log : ℤ → ℤ → M ℤ
unfolding notify_user_status
check_log iret ret = elim (is_nonzero iret) [
  | false ↦ pure ret
  | true ↦ λ d.
      (notify_user_status client_error (negsuc 2) >> pure ret) (record d { normal_running = false })
]

-- `rtb_vfs_write` from the lookup's result on; `iret` is that of `getabsfullpathfromstructfile`.
unfoldable write_logged : Option FileEntry → ℤ → List ℕ → List ℕ → ℕ → ℕ → Timespec → M ℤ → M ℤ
unfolding get_monitor_file_seq_no check_log
write_logged none iret abspath buf count position ts run = run >>= check_log iret
write_logged (some e) iret abspath buf count position ts run =
    get_monitor_file_seq_no e.addr ts >>= λ (_, stamp). run >>= λ ret. elim (is_positive ret) [
      | true ↦ createiolog_for_write stamp abspath buf count position >>= λ iret. check_log iret ret
      | false ↦ createiolog_for_error stamp abspath >>= λ iret. check_log iret ret
    ]

-- `rtb_vfs_write`: `count` bytes of `buf` at position `pos` of the file at `d_path`.
unfoldable pub rtb_vfs_write : ℕ → List ℕ → List ℕ → ℕ → ℕ → Timespec → M ℤ → M ℤ
unfolding buffer get_abs_full_path_from_struct_file write_logged
rtb_vfs_write f_flags d_path buf count position ts run d = elim (takes_part d) [
  | false ↦ run d
  | true ↦ elim (f_flags == 1) [
    | true ↦ run d
    | false ↦
        (buffer >>= λ pathbuf. buffer >>= λ iologdir. elim (pathbuf && iologdir) [
          | false ↦ run
          | true ↦ get_abs_full_path_from_struct_file d_path >>= λ (iret, abspath) d.
              write_logged (entry_for abspath d) iret abspath buf count position ts run d
        ])
          d
  ]
]
