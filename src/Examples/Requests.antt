-- ===== src/Examples/Requests.antt =====
-- The theorems on the requests of monitorset.c, on its configuration file and on rtbnetlink.c, run on
-- the small driver.
use github_upload.Base.{
  ◌≤◌, ℕ, ◌-◌, List, [], ◌∷◌, false, not, some, ◌≡◌, refl, arith, inl, ok, pos, keep, length,
}
use github_upload.Rb.{leaf, to_list, entry_at, rb_first, erase_where, erase_all_where}
use github_upload.Driver.{Driver, Block}
use github_upload.ConfigFile.{save_config, load_config}
use github_upload.ConfigFile.Saved.{Configured, save_config-saves}
use github_upload.ConfigFile.RoundTrip.{LoadedFrom, load_config-save_config}
use github_upload.MonitorSet.{
  add_monitor_item, add_monitor_set, del_monitor_set, del_files_by_set_id, del_sets_by_set_id,
}
use github_upload.MonitorSet.Adding.{
  ItemAdded, SetAdded, add_monitor_item-cases, add_monitor_set-cases,
}
use github_upload.MonitorSet.Deleting.{
  file_of, set_of, del_monitor_set-kept, del_monitor_set-counts,
}
use github_upload.MonitorSet.Numbers.{numbers_follow}
use github_upload.MonitorSet.Requests.{BackupData}
use github_upload.MonitorSet.Sequence.{u64, log_time, get_monitor_file_seq_no}
use github_upload.Netlink.{netlink_recv_packet}
use github_upload.Netlink.Commands.{netlink_recv_packet-ignores}
use github_upload.Examples.{
  kernel, driver, driver-IsSound, set_7, file_a, file_b, fresh, noon, join, erase,
}

-- Set 7 and its file are deleted.
abbrev emptied : Driver
emptied = record driver { files = leaf; files_count = 0; sets = leaf; sets_count = 0 }

del_monitor_set-kept_example :
    (pos 0 ≡ pos 0)
    × (keep (λ e. not (file_of 7 e)) (to_list emptied.files)
        ≡ keep (λ e. not (file_of 7 e)) (to_list driver.files))
    × (keep (λ e. not (set_of 7 e)) (to_list emptied.sets)
        ≡ keep (λ e. not (set_of 7 e)) (to_list driver.sets))
unfolding del_monitor_set del_files_by_set_id del_sets_by_set_id erase_all_where erase_where
    entry_at rb_first to_list erase join
del_monitor_set-kept_example =
    del_monitor_set-kept kernel 7 driver emptied (pos 0) driver-IsSound refl

del_monitor_set-counts_example :
    (length (to_list emptied.files) ≤ length (to_list driver.files))
    × (emptied.files_count ≡ 1 - (length (to_list driver.files) - length (to_list emptied.files)))
    × (length (to_list emptied.sets) ≤ length (to_list driver.sets))
    × (emptied.sets_count ≡ 1 - (length (to_list driver.sets) - length (to_list emptied.sets)))
unfolding del_monitor_set del_files_by_set_id del_sets_by_set_id erase_all_where erase_where
    entry_at rb_first to_list erase join
del_monitor_set-counts_example =
    del_monitor_set-counts kernel 7 driver emptied (pos 0) driver-IsSound refl

add_monitor_item-cases_example : ItemAdded file_b driver (add_monitor_item kernel file_b driver)
add_monitor_item-cases_example = add_monitor_item-cases kernel file_b driver

add_monitor_set-cases_example :
    SetAdded 9 (b'/' ∷ []) 0 driver (add_monitor_set kernel 9 (b'/' ∷ []) 0 false driver)
add_monitor_set-cases_example = add_monitor_set-cases kernel 9 (b'/' ∷ []) 0 driver driver-IsSound

numbers_follow_example :
    (u : Driver) × (get_monitor_file_seq_no 2 noon driver
      ≡ ok (
        (
          pos 0,
          record {
            seq_no = 3;
            global_seq_no = 5;
            time = log_time noon;
            iologdir = b'/' ∷ b'l' ∷ [];
          },
        ),
        u,
      ))
    × ((v : Driver) × (get_monitor_file_seq_no 2 noon u
          ≡ ok (
            (
              pos 0,
              record {
                seq_no = u64 4;
                global_seq_no = u64 6;
                time = log_time noon;
                iologdir = b'/' ∷ b'l' ∷ [];
              },
            ),
            v,
          )))
unfolding to_list entry_at
numbers_follow_example = numbers_follow driver 2 1 file_a set_7 noon noon refl refl refl

save_config-saves_example :
    (g : List (ℕ × Block)) × (save_config driver ≡ ok (pos 0, record driver { cnf = some g }))
    × Configured 0 (to_list driver.sets) (to_list driver.files) g
unfolding to_list
save_config-saves_example = save_config-saves driver [] refl refl (omega arith)

load_config-save_config_example :
    (g : List (ℕ × Block)) × (save_config driver ≡ ok (pos 0, record driver { cnf = some g }))
    × ((u : Driver) × (load_config kernel (record fresh { cnf = some g }) ≡ ok (pos 0, u))
        × LoadedFrom kernel 0 (to_list driver.sets) (to_list driver.files) fresh u)
unfolding to_list
load_config-save_config_example =
    load_config-save_config kernel driver fresh [] refl refl (omega arith) (tt, tt) (tt, tt)
      (inl refl, tt) refl refl refl refl

abbrev request : BackupData
request = record { guid = 7; item_count = 0; cache_dir = []; items = [] }

netlink_recv_packet-ignores_example :
    netlink_recv_packet kernel 100 1 100 0x4008 request driver ≡ ok (tt, driver)
netlink_recv_packet-ignores_example =
    netlink_recv_packet-ignores kernel 100 1 100 0x4008 request driver refl refl
