-- ===== src/MonitorSet/Requests.antt =====
-- monitorset.c: the requests of user space, `ConfigAddMonitorSet`, `ConfigDelMonitorSet`,
-- `ConfigDelMonitorItem`, `ConfigDelAllMonitorSet`.
use github_upload.Base.{
  ℕ, zero, suc, ◌+◌, ◌-◌, ◌^◌, List, [], ◌∷◌, Bool, true, false, Option, none, some, ok, wild, ℤ,
  pos, negsuc, ◌==◌, if◌then◌else◌, length, ltb, is_nonzero,
}
use github_upload.Entries.{SetEntry, FileEntry, set_addr}
use github_upload.Rb.Sets.{ms_search}
use github_upload.Rb.Files.{mi_remove}
use github_upload.Driver.{Driver, Kernel, M, pure, fault, ◌>>=◌, ◌>>◌}
use github_upload.ConfigFile.{u32, save_config}
use github_upload.MonitorSet.Sequence.{update_at}
use github_upload.MonitorSet.{
  del_monitor_set, del_all_monitor_set, add_monitor_item, add_monitor_set,
}

-- `FILTER_ITEM`.
pub record FilterItem : Type 0 where
  pub file_type : ℕ
  pub name : List ℕ

-- `REALTIME_BACKUP_DATA` of a request: `item_count` is `ulFilterItemCounts`, and `items` what the
-- message really holds; an item behind the last is read past the end of the message.
pub record BackupData : Type 0 where
  pub guid : ℕ
  pub item_count : ℕ
  pub cache_dir : List ℕ
  pub items : List FilterItem

-- `FILTER_TYPE_FILE`, `FILTER_TYPE_DIR`, and all else.
pub data ItemKind : Type 0 where
  file_item dir_item unknown_item : ItemKind

abbrev pub kind_of : ℕ → ItemKind
kind_of zero = file_item
kind_of (suc zero) = dir_item
kind_of (suc (suc n)) = unknown_item

-- The entry that `ConfigAddMonitorSet` fills in for an item.
abbrev pub item_entry : ℕ → ℕ → Bool → List ℕ → FileEntry
item_entry guid set directory name = record {
  addr = 0;
  guid = guid;
  inited = false;
  monitor = false;
  seq_no = 0;
  directory = directory;
  len = u32 (length name);
  path = name;
  set_entry = some set;
}

-- A string of a request that is copied into a `char[FILEREPL_MAX_PATH]`: where it has no room there for
-- its NUL, the copy runs into what is behind the field.
unfoldable pub in_field : {A : Type 0} → List ℕ → M A → M A
in_field s next = elim (ltb (length s) 260) [ false ↦ fault | true ↦ next ]

-- How the loop of `ConfigAddMonitorSet` ends: on to `SaveConfig`, or by `return status`.
pub data Leave : Type 0 where
  to_save : ℤ → Leave
  to_return : ℤ → Leave

-- Is the status that of a name collision, -5?
abbrev pub is_collision : ℤ → Bool
is_collision (pos n) = false
is_collision (negsuc n) = n == 4

-- May `ConfigAddMonitorSet` go on with this status of `AddMonitorSet`: 0, or -2 when sets are kept?
abbrev pub goes_on : ℤ → Bool → Bool
goes_on (pos n) del_exist = n == 0
goes_on (negsuc n) true = false
goes_on (negsuc n) false = n == 1

module _ (k : Kernel) where
  -- `mi_remove` and `EntryFree` for one item of `ConfigDelMonitorItem`. The count stays as it is.
  unfoldable pub del_item : FilterItem → Driver → Driver
  unfolding mi_remove
  del_item item d = elim (kind_of item.file_type) [
    | unknown_item ↦ d
    | _ ↦ record d { files = (mi_remove k.file_rb d.files item.name).1 }
  ]

  unfoldable pub del_items : ℕ → List FilterItem → M (Unit {0})
  unfolding del_item in_field
  del_items zero items d = ok (tt, d)
  del_items (suc n) [] d = wild
  del_items (suc n) (item ∷ items) d =
      in_field item.name (λ d. del_items n items (del_item item d)) d

  -- `ConfigDelMonitorItem`.
  unfoldable pub config_del_monitor_item : Option BackupData → M ℤ
  unfolding del_items save_config
  config_del_monitor_item none = pure (negsuc 0)
  config_del_monitor_item (some b) = do del_items b.item_count b.items; save_config; pure (pos 0)

  -- `ConfigDelMonitorSet`.
  unfoldable pub config_del_monitor_set : Option BackupData → M ℤ
  unfolding del_monitor_set save_config
  config_del_monitor_set none = pure (negsuc 0)
  config_del_monitor_set (some b) = do status ← del_monitor_set k b.guid; save_config; pure status

  -- `ConfigDelAllMonitorSet`.
  unfoldable pub config_del_all_monitor_set : M ℤ
  unfolding del_all_monitor_set save_config
  config_del_all_monitor_set = do ret ← del_all_monitor_set k; save_config; pure ret

  -- What an item's status leads to: `break`, `return`, or the set's count and the next item.
  -- `i` is the loop's counter.
  unfoldable pub after_item : BackupData → ℕ → ℕ → ℤ → M Leave → M Leave
  unfolding config_del_monitor_item update_at
  after_item b set i status next =
      if is_nonzero status
      then if is_collision status
        then config_del_monitor_item (some (record b { item_count = u32 (i + (2 ^ 32 - 1)) }))
          >> pure (to_save status)
        else pure (to_return status)
      else λ d. next (record d {
        sets =
            update_at set_addr set (λ s. record s { file_count = u32 (s.file_count + 1) }) d.sets;
      })

  -- The loop over the items: `n` rounds are left, and `status` is the variable of that name.
  unfoldable pub add_items : BackupData → ℕ → ℕ → ℕ → List FilterItem → ℤ → M Leave
  unfolding after_item add_monitor_item in_field
  add_items b set zero i items status = pure (to_save status)
  add_items b set (suc n) i [] status = fault
  add_items b set (suc n) i (item ∷ items) status =
      in_field item.name (elim (kind_of item.file_type) [
        | unknown_item ↦ add_items b set n (suc i) items k.buffer_status
        | file_item ↦ add_monitor_item k (item_entry b.guid set false item.name) >>= λ s.
            after_item b set i s (add_items b set n (suc i) items s)
        | dir_item ↦ add_monitor_item k (item_entry b.guid set true item.name) >>= λ s.
            after_item b set i s (add_items b set n (suc i) items s)
      ])

  -- `ConfigAddMonitorSet` with the set's entry: the loop, and `out`.
  unfoldable pub add_to_set : BackupData → ℤ → SetEntry → M ℤ
  unfolding add_items save_config
  add_to_set b status s = add_items b s.addr b.item_count 0 b.items status >>= λ leave. elim leave [
    | to_return r ↦ pure r
    | to_save r ↦ save_config >> pure r
  ]

  -- `ConfigAddMonitorSet` behind `AddMonitorSet`.
  unfoldable pub look_up_set : BackupData → ℤ → M ℤ
  unfolding ms_search add_to_set
  look_up_set b status d = elim (ms_search d.sets b.guid) [
    | none ↦ ok (negsuc 2, d)
    | some s ↦ add_to_set b status s d
  ]

  -- `ConfigAddMonitorSet`.
  unfoldable pub config_add_monitor_set : Option BackupData → Bool → M ℤ
  unfolding add_monitor_set look_up_set in_field
  config_add_monitor_set none del_exist = pure (negsuc 0)
  config_add_monitor_set (some b) del_exist = in_field b.cache_dir (
      add_monitor_set k b.guid b.cache_dir 0 del_exist >>= λ status.
      elim (goes_on status del_exist) [ false ↦ pure status | true ↦ look_up_set b status ])
