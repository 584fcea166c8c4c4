-- ===== src/Hooks/PathsSound.antt =====
-- hookvfs.c: the hooks whose paths take memory of their own, `rtb_vfs_create`, `rtb_vfs_symlink` and
-- `rtb_vfs_write`, keep the invariant of the two trees, if the original call does.
use github_upload.Base.{
  ℕ, List, [], Bool, true, false, ◌&&◌, Option, none, some, ℤ, pos, negsuc, is_nonzero, refl, arith,
  Bool-cases, inl, inr, ◌==◌,
}
use github_upload.Entries.{FileEntry}
use github_upload.Driver.{M, pure, ◌>>=◌, ◌>>◌, alloc}
use github_upload.MonitorSet.Sequence.{Timespec, Stamp, get_monitor_file_seq_no}
use github_upload.MonitorSet.Sound.{Keeps, Keeps-bind, Keeps-pure, Keeps-after, same_trees}
use github_upload.MonitorSet.SaveSound.{alloc-Keeps, Keeps-at, notify_user_status-Keeps}
use github_upload.MonitorSet.Trees.{get_monitor_file_seq_no-Keeps}
use github_upload.Netlink.Sound.{fault-Keeps}
use github_upload.Paths.{
  Dentry, get_abs_full_path_from_dentry, get_abs_full_path_from_nd, get_abs_full_path,
  get_abs_parent_path, get_abs_full_path_from_struct_file, differs_from_slash,
}
use github_upload.IoLog.{
  createiolog_for_error, createiolog_for_createfile, createiolog_for_createsymlink,
  createiolog_for_write,
}
use github_upload.IoLog.Sound.{with_log_file-Keeps, createiolog_for_write-Keeps}
use github_upload.IoLog.WriteThread.{client_error, notify_user_status}
use github_upload.Hooks.{
  buffer, run_logged, entry_for, is_positive, check_log, write_logged, rtb_vfs_create,
  rtb_vfs_symlink, rtb_vfs_write,
}
use github_upload.Hooks.Sound.{
  two_buffers-Keeps, three_buffers-Keeps, logged-Keeps, hook-Keeps, either-Keeps,
}

get_abs_full_path_from_nd-Keeps :
    (looked_up : Option (List ℕ)) (name : List ℕ) → Keeps (get_abs_full_path_from_nd looked_up name)
unfolding get_abs_full_path_from_nd
get_abs_full_path_from_nd-Keeps none name = Keeps-pure (pos 0, [])
get_abs_full_path_from_nd-Keeps (some path) name =
    Keeps-bind alloc _ alloc-Keeps (elim [ none ↦ Keeps-pure _ | some p ↦ Keeps-pure _ ])

get_abs_full_path-Keeps :
    (name : List ℕ) (looked_up : Option Dentry) → Keeps (get_abs_full_path name looked_up)
unfolding get_abs_full_path get_abs_parent_path
get_abs_full_path-Keeps name looked_up = elim (Bool-cases (differs_from_slash name)) [
  | inr e ↦ rw (e, get_abs_full_path) (Keeps-pure name)
  | inl e ↦
      rw (e, get_abs_full_path)
        (Keeps-bind (get_abs_parent_path looked_up []) (λ path. pure _) (parent looked_up)
          (λ path. Keeps-pure _))
]
  where
    parent : (o : Option Dentry) → Keeps (get_abs_parent_path o [])
    parent none = fault-Keeps
    parent (some d) = Keeps-pure _

get_abs_full_path_from_struct_file-Keeps :
    (path : List ℕ) → Keeps (get_abs_full_path_from_struct_file path)
unfolding get_abs_full_path_from_struct_file
get_abs_full_path_from_struct_file-Keeps path =
    Keeps-bind alloc _ alloc-Keeps (elim [ none ↦ Keeps-pure _ | some p ↦ Keeps-pure _ ])

check_log-Keeps : (iret ret : ℤ) → Keeps (check_log iret ret)
unfolding check_log
check_log-Keeps iret ret = elim (Bool-cases (is_nonzero iret)) [
  | inr e ↦ rw (e, check_log) (Keeps-pure ret)
  | inl e ↦
      rw (e, check_log)
        (Keeps-after (λ d. record d { normal_running = false })
          (notify_user_status client_error (negsuc 2) >> pure ret)
          (λ d s. same_trees d (record d { normal_running = false }) refl refl (omega arith) s)
          (Keeps-bind (notify_user_status client_error (negsuc 2)) (λ _. pure ret)
            (notify_user_status-Keeps client_error (negsuc 2)) (λ _. Keeps-pure ret)))
]

module _ (ts : Timespec) (run : M ℤ) (r : Keeps run) where
  pub rtb_vfs_create-Keeps :
      (exists : Bool) (looked_up : Option (List ℕ)) (name : List ℕ)
      → Keeps (rtb_vfs_create exists looked_up name ts run)
  unfolding rtb_vfs_create createiolog_for_createfile createiolog_for_error
  rtb_vfs_create-Keeps true looked_up name =
      hook-Keeps ts run r (rtb_vfs_create true looked_up name ts run) run r
        (λ d e. rw (e, rtb_vfs_create) refl) (λ d e. rw (e, rtb_vfs_create) refl)
  rtb_vfs_create-Keeps false looked_up name =
      let with_path : ℤ × List ℕ → M ℤ = λ (_, path) d.
        run_logged (entry_for path d) ts run (λ s. createiolog_for_createfile s path)
          (λ s. createiolog_for_error s path) d in
      let m = get_abs_full_path_from_nd looked_up name >>= with_path in
      let k : Keeps m =
        Keeps-bind (get_abs_full_path_from_nd looked_up name) with_path
          (get_abs_full_path_from_nd-Keeps looked_up name)
          (λ (_, path).
            logged-Keeps ts run r (entry_for path) _ _ (λ s. with_log_file-Keeps s _)
              (λ s. with_log_file-Keeps s _)) in
      let f : Bool → Bool → M ℤ = λ a b. elim (b && a) [ false ↦ run | true ↦ m ] in
      hook-Keeps ts run r (rtb_vfs_create false looked_up name ts run)
        (buffer >>= λ a. buffer >>= λ b. f a b)
        (two_buffers-Keeps f (λ a b. either-Keeps ts run r m k (b && a)))
        (λ d e. rw (e, rtb_vfs_create) refl) (λ d e. rw (e, rtb_vfs_create) refl)

  pub rtb_vfs_symlink-Keeps :
      (dentry : Dentry) (oldname : List ℕ) (looked_up : Option Dentry)
      → Keeps (rtb_vfs_symlink dentry oldname looked_up ts run)
  unfolding rtb_vfs_symlink createiolog_for_createsymlink createiolog_for_error
  rtb_vfs_symlink-Keeps dentry oldname looked_up =
      let to = get_abs_full_path_from_dentry dentry [] in
      let with_path : List ℕ → M ℤ = λ from d.
        run_logged (entry_for to d) ts run (λ s. createiolog_for_createsymlink s to from)
          (λ s. createiolog_for_error s to) d in
      let m = get_abs_full_path oldname looked_up >>= with_path in
      let k : Keeps m =
        Keeps-bind (get_abs_full_path oldname looked_up) with_path
          (get_abs_full_path-Keeps oldname looked_up)
          (λ from.
            logged-Keeps ts run r (entry_for to) _ _ (λ s. with_log_file-Keeps s _)
              (λ s. with_log_file-Keeps s _)) in
      let f : Bool → Bool → Bool → M ℤ = λ a b c. elim (b && c && a) [ false ↦ run | true ↦ m ] in
      hook-Keeps ts run r (rtb_vfs_symlink dentry oldname looked_up ts run)
        (buffer >>= λ a. buffer >>= λ b. buffer >>= λ c. f a b c)
        (three_buffers-Keeps f (λ a b c. either-Keeps ts run r m k (b && c && a)))
        (λ d e. rw (e, rtb_vfs_symlink) refl) (λ d e. rw (e, rtb_vfs_symlink) refl)

  write_logged-Keeps :
      (o : Option FileEntry) (iret : ℤ) (path buf : List ℕ) (count position : ℕ)
      → Keeps (write_logged o iret path buf count position ts run)
  unfolding write_logged createiolog_for_error
  write_logged-Keeps none iret path buf count position =
      Keeps-bind run (check_log iret) r (check_log-Keeps iret)
  write_logged-Keeps (some e) iret path buf count position =
      Keeps-bind (get_monitor_file_seq_no e.addr ts) (λ p. run >>= settle p.1)
        (get_monitor_file_seq_no-Keeps e.addr ts)
        (λ p. Keeps-bind run (settle p.1) r (λ ret. settled p.1 ret (is_positive ret)))
    where
      settle : Stamp → ℤ → M ℤ
      settle stamp ret = elim (is_positive ret) [
        | true ↦ createiolog_for_write stamp path buf count position >>= λ iret. check_log iret ret
        | false ↦ createiolog_for_error stamp path >>= λ iret. check_log iret ret
      ]

      settled :
          (stamp : Stamp) (ret : ℤ) (b : Bool)
          → Keeps (elim b as (λ _. M ℤ) [
            | true ↦
                createiolog_for_write stamp path buf count position >>= λ iret. check_log iret ret
            | false ↦ createiolog_for_error stamp path >>= λ iret. check_log iret ret
          ])
      settled stamp ret true =
          Keeps-bind (createiolog_for_write stamp path buf count position)
            (λ iret. check_log iret ret) (createiolog_for_write-Keeps stamp path buf count position)
            (λ iret. check_log-Keeps iret ret)
      settled stamp ret false =
          Keeps-bind (createiolog_for_error stamp path) (λ iret. check_log iret ret)
            (with_log_file-Keeps stamp _) (λ iret. check_log-Keeps iret ret)

  pub rtb_vfs_write-Keeps :
      (f_flags : ℕ) (d_path buf : List ℕ) (count position : ℕ)
      → Keeps (rtb_vfs_write f_flags d_path buf count position ts run)
  unfolding rtb_vfs_write
  rtb_vfs_write-Keeps f_flags d_path buf count position =
      let with_path : ℤ × List ℕ → M ℤ =
        λ (iret, path) d. write_logged (entry_for path d) iret path buf count position ts run d in
      let m = get_abs_full_path_from_struct_file d_path >>= with_path in
      let k : Keeps m =
        Keeps-bind (get_abs_full_path_from_struct_file d_path) with_path
          (get_abs_full_path_from_struct_file-Keeps d_path)
          (λ (iret, path).
            Keeps-at (λ d. write_logged (entry_for path d) iret path buf count position ts run)
              (λ d. write_logged-Keeps (entry_for path d) iret path buf count position)) in
      let f : Bool → Bool → M ℤ = λ a b. elim (a && b) [ false ↦ run | true ↦ m ] in
      elim (Bool-cases (f_flags == 1)) [
        | inl w ↦
            hook-Keeps ts run r (rtb_vfs_write f_flags d_path buf count position ts run) run r
              (λ d e. rw (e, rtb_vfs_write) refl)
              (λ d e. rw (e, rtb_vfs_write) (rw (w, rtb_vfs_write) refl))
        | inr w ↦
            hook-Keeps ts run r (rtb_vfs_write f_flags d_path buf count position ts run)
              (buffer >>= λ a. buffer >>= λ b. f a b)
              (two_buffers-Keeps f (λ a b. either-Keeps ts run r m k (a && b)))
              (λ d e. rw (e, rtb_vfs_write) refl)
              (λ d e. rw (e, rtb_vfs_write) (rw (w, rtb_vfs_write) refl))
      ]
