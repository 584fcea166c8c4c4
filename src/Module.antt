-- ===== src/Module.antt =====
-- module.c: the start and the stop of the driver, and what it does at a reboot. What the kernel answers
-- to `kernfunc_init`, `netlink_kernel_create` and `kthread_run` are arguments.
pub mod Life
use github_upload.Base.{
  Bool, true, false, Outcome, ok, wild, unfinished, ℤ, pos, negsuc, if◌then◌else◌,
}
use github_upload.Driver.{Driver, Kernel, M, pure, ◌>>◌}
use github_upload.ConfigFile.{save_config}
use github_upload.MonitorSet.{init_monitor_set, uninit_monitor_set}
use github_upload.Symbols.{is_error}
use github_upload.IoLog.WriteThread.{drain_queue}

-- The driver and what it has registered with the kernel: the reboot notifier, the netlink socket, the
-- write thread and the hooks.
pub record Registered : Type 0 where
  pub driver : Driver
  pub notifier : Bool
  pub netlink : Bool
  pub thread : Bool
  pub hooked : Bool

-- `systemshutdown`, which `myreboot` writes as 2.
unfoldable pub myreboot : M ℤ
myreboot d = (save_config >> pure (pos 1)) (record d { last_shutdown = 2 })

module _ (k : Kernel) where
  -- `init_rtbackup` behind `InitMonitorSet`.
  unfoldable pub start_thread : Bool → Registered → ℤ × Driver → Outcome (ℤ × Registered)
  start_thread thread r (ret, d) =
      let r' : Registered = record r { driver = d } in
      if is_error ret
      then ok (ret, r')
      else if thread
      then ok (ret, record r' { thread = true; hooked = true })
      else ok (negsuc 1, r')

  -- `init_rtbackup`.
  unfoldable pub init_rtbackup : ℤ → Bool → Bool → Registered → Outcome (ℤ × Registered)
  init_rtbackup found netlink thread r =
      let r1 : Registered = record r { notifier = true } in
      let r2 : Registered = record r1 { netlink = true } in
      if is_error found
      then ok (found, r)
      else if netlink
      then elim (init_monitor_set k r.driver) [
        | ok p ↦ start_thread thread r2 p
        | wild ↦ wild
        | unfinished ↦ unfinished
      ]
      else ok (negsuc 0, r1)

  -- `exit_rtbackup`: whether the write thread goes through its queue once more before it sees that it
  -- is to stop is up to the scheduler.
  unfoldable exit_rtbackup : Bool → Registered → Outcome Registered
  exit_rtbackup once_more r =
      let stopped : M ℤ =
        if once_more then drain_queue k >> uninit_monitor_set k else uninit_monitor_set k in
      elim (stopped r.driver) [
        | ok (ret, d) ↦ ok (record {
          driver = d;
          notifier = false;
          netlink = false;
          thread = false;
          hooked = false;
        })
        | wild ↦ wild
        | unfinished ↦ unfinished
      ]
