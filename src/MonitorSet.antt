-- ===== src/MonitorSet.antt =====
-- monitorset.c: backup sets and monitored files, and the requests that change them.
pub mod Sound
pub mod SaveSound
pub mod Sequence
pub mod Trees
pub mod Numbers
pub mod Deleting
pub mod Adding
pub mod DeletingSound
pub mod AddingSound
pub mod ConfigSound
pub mod Requests
use github_upload.Base.{
  ℕ, ◌+◌, List, [], ◌∷◌, Bool, true, false, Option, none, some, ok, wild, unfinished, ℤ, pos,
  negsuc, ltb, ◌==◌, if◌then◌else◌, is_nonzero,
}
use github_upload.Entries.{SetEntry, FileEntry}
use github_upload.Rb.{leaf, erase_all_where}
use github_upload.Rb.Sets.{ms_search, ms_insert}
use github_upload.Rb.Files.{mi_search, mi_insert}
use github_upload.Driver.{Driver, Kernel, M, pure, ◌>>=◌, ◌>>◌, alloc}
use github_upload.ConfigFile.{u32, load_config}

-- `MonitorSetEntryAlloc` and `MonitorFileEntryAlloc` are `alloc`; `EntryFree` leaves no trace, since
-- an entry that is in no tree cannot be reached here.

-- `checkneedtolog` and `GetMonitorFileEntryByabspath`.
unfoldable pub get_monitor_file_entry_by_abspath : List ℕ → Driver → Option FileEntry
unfolding mi_search
get_monitor_file_entry_by_abspath abspath d = mi_search d.files abspath

unfoldable check_need_to_log : List ℕ → Driver → Bool
unfolding mi_search
check_need_to_log path d = elim (mi_search d.files path) [ none ↦ false | some e ↦ true ]

-- `GetMonitorSetEntry`: it looks only while the count is above 0.
unfoldable get_monitor_set_entry : ℕ → Driver → Option SetEntry
unfolding ms_search
get_monitor_set_entry guid d = if ltb 0 d.sets_count then ms_search d.sets guid else none

-- The path test of `AddMonitorItem`: two bytes at least, the first of them '/'.
abbrev pub is_absolute : List ℕ → Bool
is_absolute [] = false
is_absolute (c ∷ []) = false
is_absolute (c ∷ b ∷ rest) = c == b'/'

module _ (k : Kernel) where
  -- `DelMonitorItemsBySetId` on the files and on the sets.
  unfoldable pub del_files_by_set_id : ℕ → M ℤ
  unfolding erase_all_where
  del_files_by_set_id guid d =
      elim (erase_all_where k.file_rb (λ e. e.guid == guid) d.files d.files_count) [
        | ok (t, n) ↦ ok (pos 0, record d { files = t; files_count = n })
        | wild ↦ wild
        | unfinished ↦ unfinished
      ]

  unfoldable pub del_sets_by_set_id : ℕ → M ℤ
  unfolding erase_all_where
  del_sets_by_set_id guid d =
      elim (erase_all_where k.set_rb (λ e. e.guid == guid) d.sets d.sets_count) [
        | ok (t, n) ↦ ok (pos 0, record d { sets = t; sets_count = n })
        | wild ↦ wild
        | unfinished ↦ unfinished
      ]

  -- `DelMonitorSet`: the second status stands where it is not 0.
  unfoldable pub del_monitor_set : ℕ → M ℤ
  unfolding del_files_by_set_id del_sets_by_set_id
  del_monitor_set guid = do
    status ← del_files_by_set_id guid
    status1 ← del_sets_by_set_id guid
    pure (if is_nonzero status1 then status1 else status)

  -- `DelAllMonitorSet`.
  unfoldable pub del_all_monitor_set : M ℤ
  unfolding erase_all_where
  del_all_monitor_set d = elim (erase_all_where k.file_rb (λ e. true) d.files d.files_count) [
    | wild ↦ wild
    | unfinished ↦ unfinished
    | ok (files, _) ↦ elim (erase_all_where k.set_rb (λ e. true) d.sets d.sets_count) [
      | wild ↦ wild
      | unfinished ↦ unfinished
      | ok (sets, _) ↦
          ok (pos 0, record d { files = files; files_count = 0; sets = sets; sets_count = 0 })
    ]
  ]

  -- `AddMonitorItem` with a path that no entry answers for.
  unfoldable insert_item : FileEntry → M ℤ
  unfolding alloc mi_insert
  insert_item entry = alloc >>= λ place. elim place [
    | none ↦ pure (negsuc 2)
    | some p ↦ λ d.
        elim (mi_insert k.file_rb d.files
          (record entry { addr = p; monitor = true; set_entry = none })) [
            | none ↦ ok (negsuc 1, d)
            | some t ↦ ok (pos 0, record d { files = t; files_count = u32 (d.files_count + 1) })
          ]
  ]

  -- `AddMonitorItem`, `AddMonitorFile`. A path that an entry already answers for is a success.
  unfoldable pub add_monitor_item : FileEntry → M ℤ
  unfolding insert_item mi_search
  add_monitor_item entry d = elim (is_absolute entry.path) [
    | false ↦ ok (negsuc 0, d)
    | true ↦ elim (mi_search d.files entry.path) [
      | some found ↦ ok (pos 0, d)
      | none ↦ insert_item entry d
    ]
  ]

  -- `AddMonitorSet` once there is no set in the way.
  unfoldable insert_set : ℕ → List ℕ → ℕ → M ℤ
  unfolding alloc ms_insert
  insert_set guid cache_dir seq_no = alloc >>= λ place. elim place [
    | none ↦ pure (negsuc 2)
    | some p ↦ λ d.
        elim (ms_insert k.set_rb d.sets (record {
          addr = p;
          guid = guid;
          cache_dir = cache_dir;
          seq_no = seq_no;
          file_count = 0;
        })) [
          | none ↦ ok (negsuc 0, d)
          | some t ↦ ok (pos 0, record d { sets = t; sets_count = u32 (d.sets_count + 1) })
        ]
  ]

  -- `AddMonitorSet`.
  unfoldable pub add_monitor_set : ℕ → List ℕ → ℕ → Bool → M ℤ
  unfolding get_monitor_set_entry del_monitor_set insert_set
  add_monitor_set guid cache_dir seq_no del_exist d = elim (get_monitor_set_entry guid d) [
    | none ↦ insert_set guid cache_dir seq_no d
    | some found ↦ elim del_exist [
      | true ↦ (del_monitor_set guid >> insert_set guid cache_dir seq_no) d
      | false ↦ ok (negsuc 1, d)
    ]
  ]

  -- `InitMonitorSet`: all is zeroed, the two caches are made, and the configuration is loaded.
  unfoldable pub init_monitor_set : M ℤ
  unfolding alloc load_config
  init_monitor_set d =
      (alloc >>= λ files_cache. elim files_cache [
        | none ↦ pure (negsuc 0)
        | some _ ↦ alloc >>= λ sets_cache. elim sets_cache [
          | none ↦ pure (negsuc 0)
          | some _ ↦ load_config k >> pure (pos 0)
        ]
      ])
        (record d {
          files = leaf;
          files_count = 0;
          sets = leaf;
          sets_count = 0;
          valid = true;
          normal_running = true;
          last_shutdown = 0;
          stop_task = false;
          queue = [];
        })

  -- `UninitMonitorSet`.
  unfoldable pub uninit_monitor_set : M ℤ
  unfolding del_all_monitor_set
  uninit_monitor_set d =
      (del_all_monitor_set >> pure (pos 0)) (record d { valid = false; stop_task = true })
