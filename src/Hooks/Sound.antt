-- ===== src/Hooks/Sound.antt =====
-- hookvfs.c: every hook keeps the invariant of the two trees, whichever allocations fail, if the original
-- call does.
use github_upload.Base.{
  [], Bool, true, false, ◌&&◌, Option, none, some, ℤ, is_nonzero, ◌≡◌, refl, Bool-cases, inl, inr,
}
use github_upload.Entries.{FileEntry}
use github_upload.LogFile.{LogFile}
use github_upload.Driver.{Driver, M, pure, fault, ◌>>=◌, ◌>>◌, alloc}
use github_upload.MonitorSet.Sequence.{Timespec, Stamp, get_monitor_file_seq_no}
use github_upload.MonitorSet.Sound.{Keeps, Keeps-bind, Keeps-pure, Keeps-same}
use github_upload.MonitorSet.SaveSound.{alloc-Keeps, Keeps-at}
use github_upload.MonitorSet.Trees.{get_monitor_file_seq_no-Keeps}
use github_upload.Netlink.Sound.{fault-Keeps}
use github_upload.Paths.{Dentry, get_abs_full_path_from_dentry}
use github_upload.IoLog.{
  with_log_file, createiolog_for_rename, createiolog_for_error, createiolog_for_rmdir,
  createiolog_for_rmfile, createiolog_for_createlink, createiolog_for_mkdir,
}
use github_upload.IoLog.Sound.{with_log_file-Keeps}
use github_upload.Hooks.{
  takes_part, buffer, run_logged, entry_for, or_else, rtb_vfs_rename, rtb_vfs_unlink, rtb_vfs_rmdir,
  rtb_vfs_link, rtb_vfs_mkdir,
}

buffer-Keeps : Keeps buffer
unfolding buffer
buffer-Keeps =
    Keeps-bind alloc _ alloc-Keeps (elim [ none ↦ Keeps-pure false | some p ↦ Keeps-pure true ])

pub two_buffers-Keeps :
    (f : Bool → Bool → M ℤ)
    → ((a b : Bool) → Keeps (f a b))
    → Keeps (buffer >>= λ a. buffer >>= λ b. f a b)
two_buffers-Keeps f h =
    Keeps-bind buffer (λ a. buffer >>= f a) buffer-Keeps
      (λ a. Keeps-bind buffer (f a) buffer-Keeps (h a))

pub three_buffers-Keeps :
    (f : Bool → Bool → Bool → M ℤ)
    → ((a b c : Bool) → Keeps (f a b c))
    → Keeps (buffer >>= λ a. buffer >>= λ b. buffer >>= λ c. f a b c)
three_buffers-Keeps f h =
    Keeps-bind buffer (λ a. buffer >>= λ b. buffer >>= f a b) buffer-Keeps
      (λ a. two_buffers-Keeps (f a) (h a))

-- What a hook does that watches and logs, whichever way it finds the entry.
module _ (ts : Timespec) (run : M ℤ) (r : Keeps run) where
  logged : (Driver → Option FileEntry) → (Stamp → LogFile) → (Stamp → LogFile) → M ℤ
  logged look change error d =
      run_logged (look d) ts run (λ s. with_log_file s (change s)) (λ s. with_log_file s (error s))
        d

  run_logged-Keeps :
      (o : Option FileEntry) (change error : Stamp → M ℤ)
      → ((s : Stamp) → Keeps (change s))
      → ((s : Stamp) → Keeps (error s))
      → Keeps (run_logged o ts run change error)
  unfolding run_logged
  run_logged-Keeps none change error c e = r
  run_logged-Keeps (some x) change error c e =
      Keeps-bind (get_monitor_file_seq_no x.addr ts) (λ p. run >>= settle p.1)
        (get_monitor_file_seq_no-Keeps x.addr ts)
        (λ p. Keeps-bind run (settle p.1) r (λ ret. settled p.1 ret (is_nonzero ret)))
    where
      settle : Stamp → ℤ → M ℤ
      settle stamp ret = elim (is_nonzero ret) [
        | false ↦ change stamp >> pure ret
        | true ↦ error stamp >> pure ret
      ]

      settled :
          (stamp : Stamp) (ret : ℤ) (b : Bool)
          → Keeps (elim b as (λ _. M ℤ) [
            | false ↦ change stamp >> pure ret
            | true ↦ error stamp >> pure ret
          ])
      settled stamp ret false =
          Keeps-bind (change stamp) (λ _. pure ret) (c stamp) (λ _. Keeps-pure ret)
      settled stamp ret true =
          Keeps-bind (error stamp) (λ _. pure ret) (e stamp) (λ _. Keeps-pure ret)

  pub logged-Keeps :
      (look : Driver → Option FileEntry) (change error : Stamp → M ℤ)
      → ((s : Stamp) → Keeps (change s))
      → ((s : Stamp) → Keeps (error s))
      → Keeps (λ d. run_logged (look d) ts run change error d)
  logged-Keeps look change error c e =
      Keeps-at (λ d. run_logged (look d) ts run change error)
        (λ d. run_logged-Keeps (look d) change error c e)

  -- The body of a hook: the entry looked up, the call run, a change or an error logged.
  abbrev pub body : (Driver → Option FileEntry) → (Stamp → M ℤ) → (Stamp → M ℤ) → M ℤ
  body look change error d = run_logged (look d) ts run change error d

  -- The body where there is memory, or the call alone.
  abbrev pub either : M ℤ → Bool → M ℤ
  either m b = elim b [ false ↦ run | true ↦ m ]

  pub either-Keeps : (m : M ℤ) → Keeps m → (b : Bool) → Keeps (either m b)
  either-Keeps m k true = k
  either-Keeps m k false = r

  -- A hook whose first test is `takes_part`.
  pub hook-Keeps :
      (h m : M ℤ)
      → Keeps m
      → ((d : Driver) → takes_part d ≡ false → h d ≡ run d)
      → ((d : Driver) → takes_part d ≡ true → h d ≡ m d)
      → Keeps h
  hook-Keeps h m k off on =
      Keeps-same h
        λ d. elim (Bool-cases (takes_part d)) [ inl e ↦ (m, k, on d e) | inr e ↦ (run, r, off d e) ]

  pub rtb_vfs_unlink-Keeps : (dentry : Dentry) → Keeps (rtb_vfs_unlink dentry ts run)
  unfolding rtb_vfs_unlink createiolog_for_rmfile createiolog_for_error
  rtb_vfs_unlink-Keeps dentry =
      let path = get_abs_full_path_from_dentry dentry [] in
      let m =
        body (entry_for path) (λ s. createiolog_for_rmfile s path)
          (λ s. createiolog_for_error s path) in
      let k =
        logged-Keeps (entry_for path) _ _ (λ s. with_log_file-Keeps s _)
          (λ s. with_log_file-Keeps s _) in
      hook-Keeps (rtb_vfs_unlink dentry ts run) (buffer >>= λ a. buffer >>= λ b. either m (b && a))
        (two_buffers-Keeps (λ a b. either m (b && a)) (λ a b. either-Keeps m k (b && a)))
        (λ d e. rw (e, rtb_vfs_unlink) refl) (λ d e. rw (e, rtb_vfs_unlink) refl)

  pub rtb_vfs_mkdir-Keeps : (dentry : Dentry) → Keeps (rtb_vfs_mkdir dentry ts run)
  unfolding rtb_vfs_mkdir createiolog_for_mkdir createiolog_for_error
  rtb_vfs_mkdir-Keeps dentry =
      let path = get_abs_full_path_from_dentry dentry [] in
      let m =
        body (entry_for path) (λ s. createiolog_for_mkdir s path)
          (λ s. createiolog_for_error s path) in
      let k =
        logged-Keeps (entry_for path) _ _ (λ s. with_log_file-Keeps s _)
          (λ s. with_log_file-Keeps s _) in
      hook-Keeps (rtb_vfs_mkdir dentry ts run) (buffer >>= λ a. buffer >>= λ b. either m (b && a))
        (two_buffers-Keeps (λ a b. either m (b && a)) (λ a b. either-Keeps m k (b && a)))
        (λ d e. rw (e, rtb_vfs_mkdir) refl) (λ d e. rw (e, rtb_vfs_mkdir) refl)

  pub rtb_vfs_rmdir-Keeps : (dentry : Dentry) → Keeps (rtb_vfs_rmdir dentry ts run)
  unfolding rtb_vfs_rmdir createiolog_for_rmdir createiolog_for_error
  rtb_vfs_rmdir-Keeps dentry =
      let path = get_abs_full_path_from_dentry dentry [] in
      let m =
        body (entry_for path) (λ s. createiolog_for_rmdir s path)
          (λ s. createiolog_for_error s path) in
      let k =
        logged-Keeps (entry_for path) _ _ (λ s. with_log_file-Keeps s _)
          (λ s. with_log_file-Keeps s _) in
      let zeroed : Bool → M ℤ = λ a. elim a [ false ↦ fault | true ↦ m ] in
      let zeroed-Keeps : (a : Bool) → Keeps (zeroed a) = elim [ false ↦ fault-Keeps | true ↦ k ] in
      hook-Keeps (rtb_vfs_rmdir dentry ts run) (buffer >>= λ a. buffer >>= λ b. either (zeroed a) b)
        (two_buffers-Keeps (λ a b. either (zeroed a) b)
          (λ a b. either-Keeps (zeroed a) (zeroed-Keeps a) b))
        (λ d e. rw (e, rtb_vfs_rmdir) refl) (λ d e. rw (e, rtb_vfs_rmdir) refl)

  pub rtb_vfs_rename-Keeps : (old new : Dentry) → Keeps (rtb_vfs_rename old new ts run)
  unfolding rtb_vfs_rename createiolog_for_rename createiolog_for_error
  rtb_vfs_rename-Keeps old new =
      let from = get_abs_full_path_from_dentry old [] in
      let to = get_abs_full_path_from_dentry new [] in
      let look : Driver → Option FileEntry = λ d. or_else (entry_for to d) (entry_for from d) in
      let m = body look (λ s. createiolog_for_rename s from to) (λ s. createiolog_for_error s to) in
      let k = logged-Keeps look _ _ (λ s. with_log_file-Keeps s _) (λ s. with_log_file-Keeps s _) in
      hook-Keeps (rtb_vfs_rename old new ts run)
        (buffer >>= λ a. buffer >>= λ b. buffer >>= λ c. either m (b && c && a))
        (three_buffers-Keeps (λ a b c. either m (b && c && a))
          (λ a b c. either-Keeps m k (b && c && a)))
        (λ d e. rw (e, rtb_vfs_rename) refl) (λ d e. rw (e, rtb_vfs_rename) refl)

  pub rtb_vfs_link-Keeps : (old new : Dentry) → Keeps (rtb_vfs_link old new ts run)
  unfolding rtb_vfs_link createiolog_for_createlink createiolog_for_error
  rtb_vfs_link-Keeps old new =
      let from = get_abs_full_path_from_dentry old [] in
      let to = get_abs_full_path_from_dentry new [] in
      let m =
        body (entry_for to) (λ s. createiolog_for_createlink s to from)
          (λ s. createiolog_for_error s to) in
      let k =
        logged-Keeps (entry_for to) _ _ (λ s. with_log_file-Keeps s _)
          (λ s. with_log_file-Keeps s _) in
      hook-Keeps (rtb_vfs_link old new ts run)
        (buffer >>= λ a. buffer >>= λ b. buffer >>= λ c. either m (a && b && c))
        (three_buffers-Keeps (λ a b c. either m (a && b && c))
          (λ a b c. either-Keeps m k (a && b && c)))
        (λ d e. rw (e, rtb_vfs_link) refl) (λ d e. rw (e, rtb_vfs_link) refl)
