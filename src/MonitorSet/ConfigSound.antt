-- ===== src/MonitorSet/ConfigSound.antt =====
-- `ConfigDelMonitorItem`, `ConfigDelMonitorSet`, `ConfigDelAllMonitorSet` and `ConfigAddMonitorSet` keep
-- the invariant of the two trees.
use github_upload.Base.{
  ltb, length, ℕ, zero, suc, ◌+◌, ◌-◌, ◌^◌, ◌<◌, Option, none, some, ◌≡◌, List, [], ◌∷◌, refl,
  arith, All, inl, inr, Bool, true, false, ℤ, pos, negsuc, is_nonzero, Option-cases, Bool-cases,
}
use github_upload.Entries.{set_addr, SetEntry, FileEntry, file_addr}
use github_upload.Rb.Sets.{ms_search}
use github_upload.Rb.Files.{mi_search, mi_remove}
use github_upload.Rb.Erase.{Distinct, Distinct-others, All-others}
use github_upload.Rb.Closed.{erase-closed}
use github_upload.Driver.{Driver, Kernel, M, pure, ◌>>=◌, ◌>>◌}
use github_upload.ConfigFile.{u32, save_config}
use github_upload.MonitorSet.{
  del_monitor_set, del_all_monitor_set, add_monitor_item, add_monitor_set,
}
use github_upload.MonitorSet.Sequence.{update_at}
use github_upload.MonitorSet.Sound.{Keeps-after, Keeps-same, IsSound, Keeps, Keeps-bind, Keeps-pure}
use github_upload.MonitorSet.SaveSound.{save_config-Keeps}
use github_upload.MonitorSet.Trees.{patched_set-IsSound}
use github_upload.MonitorSet.DeletingSound.{del_monitor_set-Keeps, del_all_monitor_set-Keeps}
use github_upload.MonitorSet.AddingSound.{add_monitor_item-Keeps, add_monitor_set-Keeps}
use github_upload.MonitorSet.Requests.{
  FilterItem, BackupData, ItemKind, file_item, dir_item, unknown_item, kind_of, item_entry, Leave,
  to_save, to_return, in_field, is_collision, goes_on, del_item, del_items, config_del_monitor_item,
  config_del_monitor_set, config_del_all_monitor_set, after_item, add_items, add_to_set,
  look_up_set, config_add_monitor_set,
}

Keeps-in_field : {A : Type 0} (s : List ℕ) (next : M A) → Keeps next → Keeps (in_field s next)
unfolding in_field
Keeps-in_field s next h = elim (Bool-cases (ltb (length s) 260)) [
  | inl e ↦ rw (e, in_field) h
  | inr e ↦
      rw (e, in_field)
        (record { run = λ d a u s e. absurd (ground arith); ends = λ d s e. ground arith })
]

module _ (k : Kernel) where
  removed-IsSound :
      (d : Driver) (name : List ℕ)
      → IsSound d
      → IsSound (record d { files = (mi_remove k.file_rb d.files name).1 })
  unfolding mi_remove
  removed-IsSound d name s = elim (Option-cases (mi_search d.files name)) [
    | inl e ↦ rw (e, mi_remove) s
    | inr (x, e) ↦
        rw (e, mi_remove)
          (record {
            sets_sorted = s.sets_sorted;
            sets_distinct = s.sets_distinct;
            files_distinct =
                erase-closed k.file_rb (λ _. true) (Distinct file_addr) (Distinct-others file_addr)
                  x.addr d.files s.files_distinct;
            sets_known = s.sets_known;
            files_known =
                erase-closed k.file_rb (λ _. true) (All (λ e. e.addr < d.next_addr))
                  (All-others file_addr (λ e. e.addr < d.next_addr)) x.addr d.files s.files_known;
          })
  ]

  del_item-IsSound : (item : FilterItem) (d : Driver) → IsSound d → IsSound (del_item k item d)
  unfolding del_item
  del_item-IsSound item d s = go (kind_of item.file_type) refl
    where
      go : (kind : ItemKind) → kind_of item.file_type ≡ kind → IsSound (del_item k item d)
      go unknown_item e = rw (e, del_item) s
      go file_item e = rw (e, del_item) (removed-IsSound d item.name s)
      go dir_item e = rw (e, del_item) (removed-IsSound d item.name s)

  del_items-Keeps : (n : ℕ) (items : List FilterItem) → Keeps (del_items k n items)
  unfolding del_items
  del_items-Keeps zero items = Keeps-pure tt
  del_items-Keeps (suc n) [] = record {
    run = λ d a u s e. absurd (ground arith);
    ends = λ d s e. ground arith;
  }
  del_items-Keeps (suc n) (item ∷ items) =
      Keeps-in_field item.name (λ d. del_items k n items (del_item k item d))
        (Keeps-after (del_item k item) (del_items k n items) (del_item-IsSound item)
          (del_items-Keeps n items))

  saved-Keeps : (status : ℤ) → Keeps (save_config >> pure status)
  saved-Keeps status =
      Keeps-bind save_config (λ _. pure status) save_config-Keeps (λ _. Keeps-pure status)

  pub config_del_monitor_item-Keeps : (b : Option BackupData) → Keeps (config_del_monitor_item k b)
  unfolding config_del_monitor_item
  config_del_monitor_item-Keeps none = Keeps-pure (negsuc 0)
  config_del_monitor_item-Keeps (some b) =
      Keeps-bind (del_items k b.item_count b.items) (λ _. save_config >> pure (pos 0))
        (del_items-Keeps b.item_count b.items) (λ _. saved-Keeps (pos 0))

  pub config_del_monitor_set-Keeps : (b : Option BackupData) → Keeps (config_del_monitor_set k b)
  unfolding config_del_monitor_set
  config_del_monitor_set-Keeps none = Keeps-pure (negsuc 0)
  config_del_monitor_set-Keeps (some b) =
      Keeps-bind (del_monitor_set k b.guid) (λ status. save_config >> pure status)
        (del_monitor_set-Keeps k b.guid) saved-Keeps

  pub config_del_all_monitor_set-Keeps : Keeps (config_del_all_monitor_set k)
  unfolding config_del_all_monitor_set
  config_del_all_monitor_set-Keeps =
      Keeps-bind (del_all_monitor_set k) (λ ret. save_config >> pure ret)
        (del_all_monitor_set-Keeps k) saved-Keeps

  -- The count of a set's files goes up.
  count : SetEntry → SetEntry
  count s = record s { file_count = u32 (s.file_count + 1) }

  after_item-Keeps :
      (b : BackupData) (set i : ℕ) (status : ℤ) (next : M Leave)
      → Keeps next
      → Keeps (after_item k b set i status next)
  unfolding after_item count
  after_item-Keeps b set i status next h = elim (Bool-cases (is_nonzero status)) [
    | inr e ↦
        rw (e, after_item)
          (Keeps-after (λ d. record d { sets = update_at set_addr set count d.sets }) next
            (λ d s. patched_set-IsSound set count (λ x. refl) (λ x. refl) d s) h)
    | inl e ↦
        rw (e, after_item)
          (elim (Bool-cases (is_collision status)) [
            | inr c ↦ rw c (Keeps-pure (to_return status))
            | inl c ↦
                let done = some (record b { item_count = u32 (i + (2 ^ 32 - 1)) }) in
                rw c (
                  Keeps-bind (config_del_monitor_item k done) (λ _. pure (to_save status))
                    (config_del_monitor_item-Keeps done) (λ _. Keeps-pure (to_save status)))
          ])
  ]

  added-Keeps :
      (b : BackupData) (set i : ℕ) (entry : FileEntry) (rest : ℤ → M Leave)
      → ((s : ℤ) → Keeps (rest s))
      → Keeps (add_monitor_item k entry >>= λ s. after_item k b set i s (rest s))
  added-Keeps b set i entry rest h =
      Keeps-bind (add_monitor_item k entry) (λ s. after_item k b set i s (rest s))
        (add_monitor_item-Keeps k entry) (λ s. after_item-Keeps b set i s (rest s) (h s))

  add_items-Keeps :
      (b : BackupData) (set n i : ℕ) (items : List FilterItem) (status : ℤ)
      → Keeps (add_items k b set n i items status)
  unfolding add_items
  add_items-Keeps b set zero i items status = Keeps-pure (to_save status)
  add_items-Keeps b set (suc n) i [] status = record {
    run = λ d a u s e. absurd (ground arith);
    ends = λ d s e. ground arith;
  }
  add_items-Keeps b set (suc n) i (item ∷ items) status =
      go (add_items-Keeps b set n (suc i) items) (kind_of item.file_type) refl
    where
      go :
          ((s : ℤ) → Keeps (add_items k b set n (suc i) items s))
          → (kind : ItemKind) → kind_of item.file_type ≡ kind
          → Keeps (add_items k b set (suc n) i (item ∷ items) status)
      go h unknown_item e = rw (e, add_items) (Keeps-in_field item.name _ (h k.buffer_status))
      go h file_item e =
          rw (e, add_items)
            (Keeps-in_field item.name _ (
              added-Keeps b set i (item_entry b.guid set false item.name)
                (add_items k b set n (suc i) items) h))
      go h dir_item e =
          rw (e, add_items)
            (Keeps-in_field item.name _ (
              added-Keeps b set i (item_entry b.guid set true item.name)
                (add_items k b set n (suc i) items) h))

  add_to_set-Keeps : (b : BackupData) (status : ℤ) (s : SetEntry) → Keeps (add_to_set k b status s)
  unfolding add_to_set
  add_to_set-Keeps b status s =
      Keeps-bind (add_items k b s.addr b.item_count 0 b.items status) _
        (add_items-Keeps b s.addr b.item_count 0 b.items status)
        (elim [ to_return r ↦ Keeps-pure r | to_save r ↦ saved-Keeps r ])

  look_up_set-Keeps : (b : BackupData) (status : ℤ) → Keeps (look_up_set k b status)
  unfolding look_up_set
  look_up_set-Keeps b status = Keeps-same (look_up_set k b status) λ d.
      elim (Option-cases (ms_search d.sets b.guid)) [
        | inl e ↦ (pure (negsuc 2), Keeps-pure (negsuc 2), rw (e, look_up_set) refl)
        | inr (x, e) ↦
            (add_to_set k b status x, add_to_set-Keeps b status x, rw (e, look_up_set) refl)
      ]

  pub config_add_monitor_set-Keeps :
      (b : Option BackupData) (del : Bool) → Keeps (config_add_monitor_set k b del)
  unfolding config_add_monitor_set
  config_add_monitor_set-Keeps none del = Keeps-pure (negsuc 0)
  config_add_monitor_set-Keeps (some b) del = Keeps-in_field b.cache_dir _ (
      Keeps-bind (add_monitor_set k b.guid b.cache_dir 0 del)
        (λ status. elim (goes_on status del) as (λ _. M ℤ) [
          | false ↦ pure status
          | true ↦ look_up_set k b status
        ])
        (add_monitor_set-Keeps k b.guid b.cache_dir 0 del)
        (λ status. go status (goes_on status del)))
    where
      go :
          (status : ℤ) (g : Bool)
          → Keeps (elim g as (λ _. M ℤ) [ false ↦ pure status | true ↦ look_up_set k b status ])
      go status false = Keeps-pure status
      go status true = look_up_set-Keeps b status
