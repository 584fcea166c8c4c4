-- ===== src/MonitorSet/DeletingSound.antt =====
-- The deletions of `DelMonitorSet` and `DelAllMonitorSet` keep the invariant of the two trees.
use github_upload.Base.{
  ℕ, ◌<◌, ◌≡◌, refl, arith, All, Bool, true, Outcome, ok, wild, unfinished, ℤ, is_nonzero, ◌==◌,
  if◌then◌else◌,
}
use github_upload.Entries.{SetEntry, FileEntry, set_addr, file_addr}
use github_upload.Rb.{Tree, erase_all_where}
use github_upload.Rb.Split.{IsSorted}
use github_upload.Rb.Sets.{GuidBefore}
use github_upload.Rb.Erase.{Distinct, Distinct-others, All-others}
use github_upload.Rb.Walk.{erase_all_where-ends}
use github_upload.Rb.Closed.{erase_all_where-closed, IsSorted-others}
use github_upload.Driver.{Driver, Kernel, pure}
use github_upload.MonitorSet.{
  del_files_by_set_id, del_sets_by_set_id, del_monitor_set, del_all_monitor_set,
}
use github_upload.MonitorSet.Sound.{IsSound, Keeps, Keeps-bind, Keeps-pure}

module _ (k : Kernel) where
  -- The trees after an erasing loop over the files, or the sets.
  files_erased-IsSound :
      (test : FileEntry → Bool) (d : Driver) (t : Tree FileEntry) (n m : ℕ)
      → IsSound d
      → erase_all_where k.file_rb test d.files d.files_count ≡ ok (t, n)
      → IsSound (record d { files = t; files_count = m })
  files_erased-IsSound test d t n m s e = record {
    sets_sorted = s.sets_sorted;
    sets_distinct = s.sets_distinct;
    files_distinct =
        erase_all_where-closed k.file_rb test (Distinct file_addr) (Distinct-others file_addr)
          d.files d.files_count t n s.files_distinct e;
    sets_known = s.sets_known;
    files_known =
        erase_all_where-closed k.file_rb test (All (λ e. e.addr < d.next_addr))
          (All-others file_addr (λ e. e.addr < d.next_addr)) d.files d.files_count t n s.files_known
          e;
  }

  sets_erased-IsSound :
      (test : SetEntry → Bool) (d : Driver) (t : Tree SetEntry) (n m : ℕ)
      → IsSound d
      → erase_all_where k.set_rb test d.sets d.sets_count ≡ ok (t, n)
      → IsSound (record d { sets = t; sets_count = m })
  sets_erased-IsSound test d t n m s e = record {
    sets_sorted =
        erase_all_where-closed k.set_rb test (IsSorted GuidBefore)
          (IsSorted-others set_addr GuidBefore) d.sets d.sets_count t n s.sets_sorted e;
    sets_distinct =
        erase_all_where-closed k.set_rb test (Distinct set_addr) (Distinct-others set_addr) d.sets
          d.sets_count t n s.sets_distinct e;
    files_distinct = s.files_distinct;
    sets_known =
        erase_all_where-closed k.set_rb test (All (λ e. e.addr < d.next_addr))
          (All-others set_addr (λ e. e.addr < d.next_addr)) d.sets d.sets_count t n s.sets_known e;
    files_known = s.files_known;
  }

  del_files_by_set_id-Keeps : (guid : ℕ) → Keeps (del_files_by_set_id k guid)
  unfolding del_files_by_set_id
  del_files_by_set_id-Keeps guid = record {
    run = λ d a u s e. go d a u s _ refl e;
    ends = λ d s e. ground (
      arith,
      erase_all_where-ends k.file_rb (λ e. e.guid == guid) d.files d.files_count s.files_distinct,
    );
  }
    where
      go :
          (d : Driver) (a : ℤ) (u : Driver)
          → IsSound d
          → (o : Outcome (Tree FileEntry × ℕ))
          → erase_all_where k.file_rb (λ e. e.guid == guid) d.files d.files_count ≡ o
          → del_files_by_set_id k guid d ≡ ok (a, u)
          → IsSound u
      go d a u s (ok (t, n)) h e =
          let q : u ≡ record d { files = t; files_count = n } = ground arith in
          rw q (files_erased-IsSound _ d t n n s h)
      go d a u s wild h e = absurd (ground arith)
      go d a u s unfinished h e = absurd (ground arith)

  del_sets_by_set_id-Keeps : (guid : ℕ) → Keeps (del_sets_by_set_id k guid)
  unfolding del_sets_by_set_id
  del_sets_by_set_id-Keeps guid = record {
    run = λ d a u s e. go d a u s _ refl e;
    ends = λ d s e. ground (
      arith,
      erase_all_where-ends k.set_rb (λ e. e.guid == guid) d.sets d.sets_count s.sets_distinct,
    );
  }
    where
      go :
          (d : Driver) (a : ℤ) (u : Driver)
          → IsSound d
          → (o : Outcome (Tree SetEntry × ℕ))
          → erase_all_where k.set_rb (λ e. e.guid == guid) d.sets d.sets_count ≡ o
          → del_sets_by_set_id k guid d ≡ ok (a, u)
          → IsSound u
      go d a u s (ok (t, n)) h e =
          let q : u ≡ record d { sets = t; sets_count = n } = ground arith in
          rw q (sets_erased-IsSound _ d t n n s h)
      go d a u s wild h e = absurd (ground arith)
      go d a u s unfinished h e = absurd (ground arith)

  pub del_monitor_set-Keeps : (guid : ℕ) → Keeps (del_monitor_set k guid)
  unfolding del_monitor_set
  del_monitor_set-Keeps guid =
      Keeps-bind (del_files_by_set_id k guid) _ (del_files_by_set_id-Keeps guid) λ status.
        Keeps-bind (del_sets_by_set_id k guid)
          (λ status1. pure (if is_nonzero status1 then status1 else status))
          (del_sets_by_set_id-Keeps guid) (λ status1. Keeps-pure _)

  pub del_all_monitor_set-Keeps : Keeps (del_all_monitor_set k)
  unfolding del_all_monitor_set
  del_all_monitor_set-Keeps = record {
    run = λ d a u s e. go d a u s _ refl _ refl e;
    ends = λ d s e. ground (
      arith,
      erase_all_where-ends k.file_rb (λ e. true) d.files d.files_count s.files_distinct,
      erase_all_where-ends k.set_rb (λ e. true) d.sets d.sets_count s.sets_distinct,
    );
  }
    where
      go :
          (d : Driver) (a : ℤ) (u : Driver)
          → IsSound d
          → (o : Outcome (Tree FileEntry × ℕ))
          → erase_all_where k.file_rb (λ e. true) d.files d.files_count ≡ o
          → (o' : Outcome (Tree SetEntry × ℕ))
          → erase_all_where k.set_rb (λ e. true) d.sets d.sets_count ≡ o'
          → del_all_monitor_set k d ≡ ok (a, u)
          → IsSound u
      go d a u s (ok (t, n)) h (ok (r, m)) h' e =
          let q : u ≡ record d { files = t; files_count = 0; sets = r; sets_count = 0 } =
            ground arith in
          rw q (
            sets_erased-IsSound (λ e. true) (record d { files = t; files_count = 0 }) r m 0
              (files_erased-IsSound (λ e. true) d t n 0 s h) h')
      go d a u s (ok (t, n)) h wild h' e = absurd (ground arith)
      go d a u s (ok (t, n)) h unfinished h' e = absurd (ground arith)
      go d a u s wild h o' h' e = absurd (ground arith)
      go d a u s unfinished h o' h' e = absurd (ground arith)
