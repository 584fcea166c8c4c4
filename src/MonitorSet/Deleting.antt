-- ===== src/MonitorSet/Deleting.antt =====
-- monitorset.c: what `DelMonitorSet` leaves and counts, and that it ends.
use github_upload.Base.{
  ◌≤◌, ℕ, ◌-◌, ◌≡◌, ◌≢◌, refl, arith, All, sym, ◌∙◌, Bool, false, not, Outcome, ok, wild,
  unfinished, ℤ, pos, keep, length, ◌==◌,
}
use github_upload.Entries.{SetEntry, FileEntry}
use github_upload.Rb.{Tree, to_list, erase_all_where}
use github_upload.Rb.Walk.{
  erase_all_where-ends, erase_all_where-kept, erase_all_where-misses, erase_all_where-counts,
}
use github_upload.Driver.{Driver, Kernel}
use github_upload.MonitorSet.{del_files_by_set_id, del_sets_by_set_id, del_monitor_set}
use github_upload.MonitorSet.Sound.{IsSound}

-- Does a file, or a set, belong to the set with this GUID?
abbrev pub file_of : ℕ → FileEntry → Bool
file_of guid e = e.guid == guid

abbrev pub set_of : ℕ → SetEntry → Bool
set_of guid e = e.guid == guid

module _ (k : Kernel) where
  -- `DelMonitorSet` written out over the outcomes of its two loops.
  both : Outcome (Tree FileEntry × ℕ) → Outcome (Tree SetEntry × ℕ) → Driver → Outcome (ℤ × Driver)
  both (ok (t, n)) (ok (r, m)) d =
      ok (pos 0, record d { files = t; files_count = n; sets = r; sets_count = m })
  both (ok (t, n)) wild d = wild
  both (ok (t, n)) unfinished d = unfinished
  both wild o d = wild
  both unfinished o d = unfinished

  del_monitor_set-both :
      (guid : ℕ) (d : Driver)
      → del_monitor_set k guid d
        ≡ both
            (erase_all_where k.file_rb (file_of guid) d.files d.files_count)
            (erase_all_where k.set_rb (set_of guid) d.sets d.sets_count)
            d
  unfolding del_monitor_set del_files_by_set_id del_sets_by_set_id both
  del_monitor_set-both guid d = go _ refl _ refl
    where
      go :
          (o : Outcome (Tree FileEntry × ℕ))
          → erase_all_where k.file_rb (file_of guid) d.files d.files_count ≡ o
          → (o' : Outcome (Tree SetEntry × ℕ))
          → erase_all_where k.set_rb (set_of guid) d.sets d.sets_count ≡ o'
          → del_monitor_set k guid d ≡ both o o' d
      go (ok (t, n)) h (ok (r, m)) h' = ground arith
      go (ok (t, n)) h wild h' = ground arith
      go (ok (t, n)) h unfinished h' = ground arith
      go wild h o' h' = ground arith
      go unfinished h o' h' = ground arith

  both-ok :
      (o : Outcome (Tree FileEntry × ℕ)) (o' : Outcome (Tree SetEntry × ℕ)) (d u : Driver) (r : ℤ)
      → both o o' d ≡ ok (r, u)
      → (r ≡ pos 0) × (o ≡ ok (u.files, u.files_count)) × (o' ≡ ok (u.sets, u.sets_count))
  unfolding both
  both-ok (ok (t, n)) (ok (r, m)) d u a e = ground arith
  both-ok (ok (t, n)) wild d u a e = absurd (ground arith)
  both-ok (ok (t, n)) unfinished d u a e = absurd (ground arith)
  both-ok wild o d u a e = absurd (ground arith)
  both-ok unfinished o d u a e = absurd (ground arith)

  both-cong :
      (o p : Outcome (Tree FileEntry × ℕ)) (o' p' : Outcome (Tree SetEntry × ℕ)) (d : Driver)
      → o ≡ p
      → o' ≡ p'
      → both o o' d ≡ both p p' d
  both-cong o p o' p' d e f = cc

  both-unfinished :
      (o : Outcome (Tree FileEntry × ℕ)) (o' : Outcome (Tree SetEntry × ℕ)) (d : Driver)
      → o ≢ unfinished
      → o' ≢ unfinished
      → both o o' d ≢ unfinished
  unfolding both
  both-unfinished (ok (t, n)) (ok (r, m)) d h h' e = cc
  both-unfinished (ok (t, n)) wild d h h' e = cc
  both-unfinished (ok (t, n)) unfinished d h h' e = h' refl
  both-unfinished wild o d h h' e = cc
  both-unfinished unfinished o d h h' e = h refl

  -- From a sound state `DelMonitorSet` ends, wherever the nodes that it has freed lead it.
  del_monitor_set-ends : (guid : ℕ) (d : Driver) → IsSound d → del_monitor_set k guid d ≢ unfinished
  del_monitor_set-ends guid d s e =
      both-unfinished _ _ d
        (erase_all_where-ends k.file_rb (file_of guid) d.files _ s.files_distinct)
        (erase_all_where-ends k.set_rb (set_of guid) d.sets _ s.sets_distinct)
        (sym (del_monitor_set-both guid d) ∙ e)

  -- Where `DelMonitorSet` comes back from a sound state, it returns 0, and the files and sets with other
  -- GUIDs are all still there in their order, wherever the nodes that it has freed led it.
  pub del_monitor_set-kept :
      (guid : ℕ) (d u : Driver) (r : ℤ)
      → IsSound d
      → del_monitor_set k guid d ≡ ok (r, u)
      → (r ≡ pos 0)
        × (keep (λ e. not (file_of guid e)) (to_list u.files)
            ≡ keep (λ e. not (file_of guid e)) (to_list d.files))
        × (keep (λ e. not (set_of guid e)) (to_list u.sets)
            ≡ keep (λ e. not (set_of guid e)) (to_list d.sets))
  del_monitor_set-kept guid d u r s e =
      let (z, f, g) = both-ok _ _ d u r (sym (del_monitor_set-both guid d) ∙ e) in
      (
        z,
        erase_all_where-kept k.file_rb (file_of guid) d.files _ u.files _ s.files_distinct f,
        erase_all_where-kept k.set_rb (set_of guid) d.sets _ u.sets _ s.sets_distinct g,
      )

  -- In a sound state `DelMonitorSet` of a GUID that no entry has returns 0 and changes nothing.
  del_monitor_set-misses :
      (guid : ℕ) (d : Driver)
      → IsSound d
      → All (λ e. file_of guid e ≡ false) (to_list d.files)
      → All (λ e. set_of guid e ≡ false) (to_list d.sets)
      → del_monitor_set k guid d ≡ ok (pos 0, d)
  unfolding both
  del_monitor_set-misses guid d s f g =
      del_monitor_set-both guid d
      ∙ both-cong _ _ _ _ d
          (erase_all_where-misses k.file_rb (file_of guid) d.files d.files_count s.files_distinct f)
          (erase_all_where-misses k.set_rb (set_of guid) d.sets d.sets_count s.sets_distinct g)

  -- Where `DelMonitorSet` comes back from a sound state, each of the two counts has gone down, as far as
  -- 0, by the number of entries that have gone from its tree, wherever the nodes that it has freed led
  -- it.
  pub del_monitor_set-counts :
      (guid : ℕ) (d u : Driver) (r : ℤ)
      → IsSound d
      → del_monitor_set k guid d ≡ ok (r, u)
      → (length (to_list u.files) ≤ length (to_list d.files))
        × (u.files_count ≡ d.files_count - (length (to_list d.files) - length (to_list u.files)))
        × (length (to_list u.sets) ≤ length (to_list d.sets))
        × (u.sets_count ≡ d.sets_count - (length (to_list d.sets) - length (to_list u.sets)))
  del_monitor_set-counts guid d u r s e =
      let (z, f, g) = both-ok _ _ d u r (sym (del_monitor_set-both guid d) ∙ e) in
      let (fewer, less) =
        erase_all_where-counts k.file_rb (file_of guid) d.files _ u.files _ s.files_distinct f in
      let (fewer', less') =
        erase_all_where-counts k.set_rb (set_of guid) d.sets _ u.sets _ s.sets_distinct g in
      (fewer, less, fewer', less')
