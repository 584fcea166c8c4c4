-- ===== src/Examples/Calls.antt =====
-- The theorems on the hooks of hookvfs.c, on the write thread of iowritethread.c and on the driver at
-- work, run on the small driver.
use github_upload.Base.{
  ◌≢◌, ℕ, List, [], ◌∷◌, true, false, some, ◌≡◌, refl, arith, ok, wild, unfinished, Outcome, ℤ, pos,
  negsuc,
}
use github_upload.Rb.{
  to_list, entry_at, search, rb_first, rb_next, next_after, erase_where, erase_all_where,
}
use github_upload.Rb.Files.{mi_search}
use github_upload.Text.{strncmp}
use github_upload.Driver.{Driver, IoWriteContext, Block, M, pure, next_io}
use github_upload.ConfigFile.{
  clear, open_cnf, file_write, write_all, save_header, save_files, save_config,
}
use github_upload.MonitorSet.{
  get_monitor_file_entry_by_abspath, del_files_by_set_id, del_sets_by_set_id, del_monitor_set,
}
use github_upload.MonitorSet.Sequence.{Stamp, update_at, take_numbers, get_monitor_file_seq_no}
use github_upload.MonitorSet.Requests.{BackupData, config_del_monitor_set}
use github_upload.MonitorSet.Sound.{IsSound, Keeps-pure}
use github_upload.IoLog.WriteThread.{drain_queue}
use github_upload.IoLog.Accounted.{Accounted, drain_queue-Accounted}
use github_upload.IoLog.Drain.{drain_queue-writes}
use github_upload.Hooks.{rtb_vfs_write}
use github_upload.Hooks.Calls.{unlinking, hook, change_log, error_log}
use github_upload.Hooks.Logging.{later, queued, with_log, hook_watched}
use github_upload.Hooks.Sizes.{IsSized, logs-IsSized}
use github_upload.Hooks.Writing.{write_log, write_watched}
use github_upload.Paths.{
  Dentry, root, child, slash, get_abs_full_path_from_dentry, differs_from_slash,
}
use github_upload.Netlink.{
  netlink_recv_packet, netlink_process_packet, process_netlink_cmd, run_command,
}
use github_upload.System.{
  unlink, mkdir, run_hook, packet, hooked, Reaches, here, then_step, Reaches-IsSound, reached_ends,
}
use github_upload.Examples.{
  kernel, driver, driver-IsSound, set_7, file_a, path_a, dentry_a, noon, join, erase,
}

-- A call that succeeds, and one that fails with -5.
abbrev succeeds : M ℤ
succeeds = pure (pos 0)

abbrev fails : M ℤ
fails = pure (negsuc 4)

abbrev stopped : Driver
stopped = record driver { normal_running = false }

abbrev dentry_c : Dentry
dentry_c = child (b'c' ∷ []) (root slash)

-- The driver when the numbers of "/a" have been handed out, `n` allocations later.
numbered_driver : ℕ → Driver
unfolding take_numbers
numbered_driver n = (take_numbers file_a set_7 noon (later n driver)).0

abbrev stamp_a : Stamp
stamp_a = record { seq_no = 3; global_seq_no = 5; time = 20000003; iologdir = b'/' ∷ b'l' ∷ [] }

unlink_fails :
    hook (unlinking dentry_a) noon fails driver
    ≡ ok (
      negsuc 4,
      with_log (queued stamp_a (error_log (unlinking dentry_a) stamp_a)) (numbered_driver 2),
    )
unfolding get_monitor_file_entry_by_abspath mi_search search strncmp get_abs_full_path_from_dentry
    differs_from_slash get_monitor_file_seq_no take_numbers entry_at to_list numbered_driver
unlink_fails =
    hook_watched (unlinking dentry_a) noon fails driver (numbered_driver 2) (numbered_driver 2)
      file_a (pos 0) (negsuc 4) stamp_a refl tt refl refl refl

hook_watched_example :
    hook (unlinking dentry_a) noon fails driver
    ≡ ok (
      negsuc 4,
      with_log (queued stamp_a (error_log (unlinking dentry_a) stamp_a)) (numbered_driver 2),
    )
unfolding get_monitor_file_entry_by_abspath mi_search search strncmp get_abs_full_path_from_dentry
    differs_from_slash get_monitor_file_seq_no take_numbers entry_at to_list numbered_driver
hook_watched_example =
    hook_watched (unlinking dentry_a) noon fails driver (numbered_driver 2) (numbered_driver 2)
      file_a (pos 0) (negsuc 4) stamp_a refl tt refl refl refl

abbrev bytes : List ℕ
bytes = b'x' ∷ b'y' ∷ b'z' ∷ []

-- Two of the three bytes are written.
write_watched_example :
    rtb_vfs_write 2 path_a bytes 3 0 noon (pure (pos 2)) driver
    ≡ ok (pos 2, with_log (queued stamp_a (write_log path_a bytes 3 0 stamp_a)) (numbered_driver 3))
unfolding get_monitor_file_entry_by_abspath mi_search search strncmp get_monitor_file_seq_no
    take_numbers entry_at to_list numbered_driver
write_watched_example =
    write_watched 2 path_a bytes 3 0 noon (pure (pos 2)) driver (numbered_driver 3)
      (numbered_driver 3) file_a (pos 0) (pos 2) stamp_a refl refl (omega arith) refl refl refl

logs-IsSized_example :
    IsSized (change_log (unlinking dentry_a) stamp_a)
    × IsSized (error_log (unlinking dentry_a) stamp_a)
    × IsSized (write_log path_a bytes 2 0 stamp_a)
logs-IsSized_example = logs-IsSized (unlinking dentry_a) stamp_a path_a bytes 2 0 (omega arith)

abbrev log_a : IoWriteContext
log_a = queued stamp_a (change_log (unlinking dentry_a) stamp_a)

abbrev log_b : IoWriteContext
log_b = queued stamp_a (error_log (unlinking dentry_a) stamp_a)

abbrev waiting : Driver
waiting = record driver { queue = log_a ∷ log_b ∷ [] }

drain_queue-writes_example :
    (g : List (ℕ × Block)) × (drain_queue kernel waiting
      ≡ ok (tt, record driver { logs = log_b ∷ log_a ∷ []; cnf = some g }))
unfolding to_list
drain_queue-writes_example = drain_queue-writes kernel waiting [] refl refl (omega arith)

-- The first log is written short, the file of the second cannot be opened.
abbrev failing_disk : Driver
failing_disk = record waiting { io = true ∷ false ∷ false ∷ [] }

drain_queue-Accounted_example :
    (u : Driver) × (drain_queue kernel failing_disk ≡ ok (tt, u))
    × (u.queue ≡ [])
    × Accounted kernel (log_a ∷ log_b ∷ []) [] [] u.logs u.sent
drain_queue-Accounted_example = drain_queue-Accounted kernel failing_disk refl

-- "/a" is removed by a hooked call, and then set 7 is deleted by a packet.
abbrev request : BackupData
request = record { guid = 7; item_count = 0; cache_dir = []; items = [] }

state_of : Outcome (Unit {0} × Driver) → Driver
state_of (ok (a, u)) = u
state_of wild = driver
state_of unfinished = driver

after_call : Driver
after_call = with_log (queued stamp_a (error_log (unlinking dentry_a) stamp_a)) (numbered_driver 2)

after_packet : Driver
unfolding state_of numbered_driver after_call
after_packet = state_of (netlink_recv_packet kernel 600 1 600 0x4008 request after_call)

reached : Reaches kernel driver after_packet
unfolding get_monitor_file_seq_no take_numbers entry_at to_list numbered_driver after_call
    after_packet netlink_recv_packet netlink_process_packet process_netlink_cmd run_command
    config_del_monitor_set del_monitor_set del_files_by_set_id del_sets_by_set_id erase_all_where
    erase_where rb_first rb_next next_after erase join save_config open_cnf file_write write_all
    save_files save_header next_io clear state_of update_at run_hook hook
reached =
    then_step after_call after_packet
      (then_step driver after_call here
        (hooked (unlink dentry_a) noon fails (negsuc 4) (Keeps-pure (negsuc 4)) removed))
      (packet 600 1 600 0x4008 request tt refl)
  where
    removed : hook (unlinking dentry_a) noon fails driver ≡ ok (negsuc 4, after_call)
    removed = unlink_fails

Reaches-IsSound_example : IsSound after_packet
Reaches-IsSound_example = Reaches-IsSound kernel driver after_packet driver-IsSound reached

reached_ends_example :
    (netlink_recv_packet kernel 600 1 600 0x400a request after_packet ≢ unfinished)
    × (drain_queue kernel after_packet ≢ unfinished)
    × (run_hook (mkdir dentry_a) noon succeeds after_packet ≢ unfinished)
reached_ends_example =
    reached_ends kernel driver after_packet 600 1 600 0x400a request (mkdir dentry_a) noon succeeds
      driver-IsSound reached (Keeps-pure (pos 0))
