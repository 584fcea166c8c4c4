-- ===== src/MonitorSet/Adding.antt =====
-- monitorset.c: what `AddMonitorItem` and `AddMonitorSet` do, case by case.
use github_upload.Base.{
  ℕ, ◌+◌, Option, none, some, ◌≡◌, List, refl, arith, Bool, true, false, Outcome, ok, ℤ, pos,
  negsuc,
}
use github_upload.Entries.{SetEntry, FileEntry}
use github_upload.Rb.{Tree, to_list}
use github_upload.Rb.Attach.{Placed}
use github_upload.Rb.Sets.{ms_search, GuidBefore, ms_insert_new, ms_insert-none}
use github_upload.Rb.Files.{mi_search, mi_insert, mi_insert-none}
use github_upload.Driver.{Driver, Kernel, alloc, next_answer}
use github_upload.ConfigFile.{u32}
use github_upload.MonitorSet.{
  is_absolute, insert_item, add_monitor_item, get_monitor_set_entry, insert_set, add_monitor_set,
}
use github_upload.MonitorSet.Sound.{IsSound}
use github_upload.MonitorSet.AddingSound.{placed_item, placed_set, mi_insert-Placed}

-- What `AddMonitorItem` may come to for an item, case by case.
pub data ItemAdded (e : FileEntry) (d : Driver) : Outcome (ℤ × Driver) → Type 0 where
  not_absolute : is_absolute e.path ≡ false → ItemAdded e d (ok (negsuc 0, d))
  covered :
      (f : FileEntry)
      → is_absolute e.path ≡ true
      → mi_search d.files e.path ≡ some f
      → ItemAdded e d (ok (pos 0, d))
  no_memory :
      is_absolute e.path ≡ true
      → mi_search d.files e.path ≡ none
      → (next_answer d.allocs).0 ≡ false
      → ItemAdded e d (ok (negsuc 2, record d { allocs = (next_answer d.allocs).1 }))
  added :
      (t : Tree FileEntry)
      → is_absolute e.path ≡ true
      → mi_search d.files e.path ≡ none
      → Placed (λ a b. Unit {0}) (placed_item e d.next_addr) (to_list d.files) (to_list t)
      → ItemAdded e d (
          ok (
            pos 0,
            record d {
              files = t;
              files_count = u32 (d.files_count + 1);
              next_addr = d.next_addr + 1;
              allocs = (next_answer d.allocs).1;
            },
          ))

-- What `AddMonitorSet` may come to where sets are not to be replaced, in a sorted tree.
pub data SetAdded (guid : ℕ) (dir : List ℕ) (n : ℕ) (d : Driver)
    : Outcome (ℤ × Driver) → Type 0 where
  kept :
      (s : SetEntry)
      → get_monitor_set_entry guid d ≡ some s
      → SetAdded guid dir n d (ok (negsuc 1, d))
  no_set_memory :
      get_monitor_set_entry guid d ≡ none
      → (next_answer d.allocs).0 ≡ false
      → SetAdded guid dir n d (ok (negsuc 2, record d { allocs = (next_answer d.allocs).1 }))
  in_the_way :
      (s : SetEntry)
      → d.sets_count ≡ 0
      → ms_search d.sets guid ≡ some s
      → SetAdded guid dir n d (
          ok
            (negsuc 0, record d { next_addr = d.next_addr + 1; allocs = (next_answer d.allocs).1 }))
  set_added :
      (t : Tree SetEntry)
      → ms_search d.sets guid ≡ none
      → Placed GuidBefore (placed_set guid dir n d.next_addr) (to_list d.sets) (to_list t)
      → SetAdded guid dir n d (
          ok (
            pos 0,
            record d {
              sets = t;
              sets_count = u32 (d.sets_count + 1);
              next_addr = d.next_addr + 1;
              allocs = (next_answer d.allocs).1;
            },
          ))

module _ (k : Kernel) where
  insert_item-cases :
      (e : FileEntry) (d : Driver)
      → is_absolute e.path ≡ true
      → mi_search d.files e.path ≡ none
      → ItemAdded e d (insert_item k e d)
  unfolding insert_item alloc
  insert_item-cases e d a h = go (next_answer d.allocs).0 refl _ refl
    where
      go :
          (b : Bool)
          → (next_answer d.allocs).0 ≡ b
          → (o : Option (Tree FileEntry))
          → mi_insert k.file_rb d.files (placed_item e d.next_addr) ≡ o
          → ItemAdded e d (insert_item k e d)
      go false n o m =
          let out : insert_item k e d
              ≡ ok (negsuc 2, record d { allocs = (next_answer d.allocs).1 }) =
            ground arith in
          rw out (no_memory a h n)
      go true n none m =
          let (x, y) = (mi_insert-none k.file_rb d.files (placed_item e d.next_addr)).0 m in
          absurd (cc)
      go true n (some t) m =
          let out : insert_item k e d
              ≡ ok (
                pos 0,
                record d {
                  files = t;
                  files_count = u32 (d.files_count + 1);
                  next_addr = d.next_addr + 1;
                  allocs = (next_answer d.allocs).1;
                },
              ) =
            ground arith in
          rw out (added t a h (mi_insert-Placed k d.files t (placed_item e d.next_addr) m))

  -- `AddMonitorItem` comes to one of these. A path that is not absolute, or has no byte behind its slash,
  -- is -1; one that an entry covers is 0; both change nothing. Without memory the result is -3. Else it is
  -- 0, and the item is in between the others, monitored, without a set, and counted. A refused insertion,
  -- -2, does not come up.
  pub add_monitor_item-cases : (e : FileEntry) (d : Driver) → ItemAdded e d (add_monitor_item k e d)
  unfolding add_monitor_item
  add_monitor_item-cases e d = go (is_absolute e.path) refl _ refl
    where
      go :
          (b : Bool)
          → is_absolute e.path ≡ b
          → (o : Option FileEntry) → mi_search d.files e.path ≡ o
          → ItemAdded e d (add_monitor_item k e d)
      go false a o h = rw (a, add_monitor_item) (not_absolute a)
      go true a (some f) h = rw (a, add_monitor_item) (rw (h, add_monitor_item) (covered f a h))
      go true a none h =
          rw (a, add_monitor_item) (rw (h, add_monitor_item) (insert_item-cases e d a h))

  insert_set-cases :
      (guid : ℕ) (dir : List ℕ) (n : ℕ) (d : Driver)
      → IsSound d
      → get_monitor_set_entry guid d ≡ none
      → SetAdded guid dir n d (insert_set k guid dir n d)
  unfolding insert_set alloc get_monitor_set_entry
  insert_set-cases guid dir n d s h = go (next_answer d.allocs).0 refl _ refl
    where
      go :
          (b : Bool)
          → (next_answer d.allocs).0 ≡ b
          → (o : Option SetEntry) → ms_search d.sets guid ≡ o
          → SetAdded guid dir n d (insert_set k guid dir n d)
      go false m o f =
          let out : insert_set k guid dir n d
              ≡ ok (negsuc 2, record d { allocs = (next_answer d.allocs).1 }) =
            ground arith in
          rw out (no_set_memory h m)
      go true m none f =
          let (t, i, p, _) =
            ms_insert_new k.set_rb d.sets (placed_set guid dir n d.next_addr) s.sets_sorted f in
          let out : insert_set k guid dir n d
              ≡ ok (
                pos 0,
                record d {
                  sets = t;
                  sets_count = u32 (d.sets_count + 1);
                  next_addr = d.next_addr + 1;
                  allocs = (next_answer d.allocs).1;
                },
              ) =
            ground arith in
          rw out (set_added t f p)
      go true m (some x) f =
          let refused =
            (ms_insert-none k.set_rb d.sets (placed_set guid dir n d.next_addr)).1 (x, f) in
          let empty : d.sets_count ≡ 0 = ground arith in
          let out : insert_set k guid dir n d
              ≡ ok (
                negsuc 0,
                record d { next_addr = d.next_addr + 1; allocs = (next_answer d.allocs).1 },
              ) =
            ground arith in
          rw out (in_the_way x empty f)

  -- `AddMonitorSet` in a sound state, where sets are not to be replaced, comes to one of these. A GUID that
  -- is there is -2 and changes nothing; without memory the result is -3. A GUID that the tree holds while
  -- the count of sets is 0 is -1. Else it is 0, and the set is at its place in the tree, and counted.
  pub add_monitor_set-cases :
      (guid : ℕ) (dir : List ℕ) (n : ℕ) (d : Driver)
      → IsSound d
      → SetAdded guid dir n d (add_monitor_set k guid dir n false d)
  unfolding add_monitor_set
  add_monitor_set-cases guid dir n d s = go _ refl
    where
      go :
          (o : Option SetEntry)
          → get_monitor_set_entry guid d ≡ o
          → SetAdded guid dir n d (add_monitor_set k guid dir n false d)
      go (some x) h = rw (h, add_monitor_set) (kept x h)
      go none h = rw (h, add_monitor_set) (insert_set-cases guid dir n d s h)
