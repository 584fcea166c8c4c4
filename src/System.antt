-- ===== src/System.antt =====
-- The driver at work: packets from user space, hooked calls, the write thread and the reboot hook, in any
-- order. hookvfs.c, monitorset.c, rtbnetlink.c, createiolog.c, iowritethread.c and module.c meet in the
-- two trees and the queue.
use github_upload.Base.{ℕ, List, Bool, Option, ok, unfinished, ℤ, ◌≡◌, ◌≢◌}
use github_upload.Driver.{Driver, Kernel, M}
use github_upload.MonitorSet.Sequence.{Timespec}
use github_upload.MonitorSet.Requests.{BackupData}
use github_upload.MonitorSet.Sound.{IsSound, Keeps}
use github_upload.Paths.{Dentry}
use github_upload.IoLog.WriteThread.{drain_queue}
use github_upload.IoLog.Sound.{drain_queue-Keeps}
use github_upload.Module.{myreboot}
use github_upload.Module.Life.{myreboot-Keeps}
use github_upload.Netlink.{netlink_recv_packet}
use github_upload.Netlink.Sound.{netlink_recv_packet-Keeps}
use github_upload.Hooks.{
  rtb_vfs_rename, rtb_vfs_unlink, rtb_vfs_rmdir, rtb_vfs_create, rtb_vfs_symlink, rtb_vfs_link,
  rtb_vfs_mkdir, rtb_vfs_write,
}
use github_upload.Hooks.Sound.{
  rtb_vfs_unlink-Keeps, rtb_vfs_mkdir-Keeps, rtb_vfs_rmdir-Keeps, rtb_vfs_rename-Keeps,
  rtb_vfs_link-Keeps,
}
use github_upload.Hooks.PathsSound.{
  rtb_vfs_create-Keeps, rtb_vfs_symlink-Keeps, rtb_vfs_write-Keeps,
}

-- A call of one of the eight hooks, with its arguments.
pub data HookCall : Type 0 where
  rename link : Dentry → Dentry → HookCall
  unlink rmdir mkdir : Dentry → HookCall
  create : Bool → Option (List ℕ) → List ℕ → HookCall
  symlink : Dentry → List ℕ → Option Dentry → HookCall
  write : ℕ → List ℕ → List ℕ → ℕ → ℕ → HookCall

unfoldable pub run_hook : HookCall → Timespec → M ℤ → M ℤ
unfolding rtb_vfs_rename rtb_vfs_unlink rtb_vfs_rmdir rtb_vfs_create rtb_vfs_symlink rtb_vfs_link
    rtb_vfs_mkdir rtb_vfs_write
run_hook (rename old new) = rtb_vfs_rename old new
run_hook (link old new) = rtb_vfs_link old new
run_hook (unlink dentry) = rtb_vfs_unlink dentry
run_hook (rmdir dentry) = rtb_vfs_rmdir dentry
run_hook (mkdir dentry) = rtb_vfs_mkdir dentry
run_hook (create exists looked_up name) = rtb_vfs_create exists looked_up name
run_hook (symlink dentry oldname looked_up) = rtb_vfs_symlink dentry oldname looked_up
run_hook (write f_flags d_path buf count position) = rtb_vfs_write f_flags d_path buf count position

run_hook-Keeps : (c : HookCall) (ts : Timespec) (run : M ℤ) → Keeps run → Keeps (run_hook c ts run)
unfolding run_hook
run_hook-Keeps (rename old new) ts run r = rtb_vfs_rename-Keeps ts run r old new
run_hook-Keeps (link old new) ts run r = rtb_vfs_link-Keeps ts run r old new
run_hook-Keeps (unlink dentry) ts run r = rtb_vfs_unlink-Keeps ts run r dentry
run_hook-Keeps (rmdir dentry) ts run r = rtb_vfs_rmdir-Keeps ts run r dentry
run_hook-Keeps (mkdir dentry) ts run r = rtb_vfs_mkdir-Keeps ts run r dentry
run_hook-Keeps (create exists looked_up name) ts run r =
    rtb_vfs_create-Keeps ts run r exists looked_up name
run_hook-Keeps (symlink dentry oldname looked_up) ts run r =
    rtb_vfs_symlink-Keeps ts run r dentry oldname looked_up
run_hook-Keeps (write f_flags d_path buf count position) ts run r =
    rtb_vfs_write-Keeps ts run r f_flags d_path buf count position

module _ (k : Kernel) where
  -- One thing that the driver does to its end. A hooked call is of a function that keeps the trees as
  -- they are to be; it may make hooked calls of its own.
  pub data Step (d u : Driver) : Type 0 where
    packet :
        (skb_len nlmsg_type nlmsg_len type : ℕ) (b : BackupData) (a : Unit {0})
        → netlink_recv_packet k skb_len nlmsg_type nlmsg_len type b d ≡ ok (a, u)
        → Step d u
    hooked :
        (c : HookCall) (ts : Timespec) (run : M ℤ) (a : ℤ)
        → Keeps run
        → run_hook c ts run d ≡ ok (a, u)
        → Step d u
    drained : (a : Unit {0}) → drain_queue k d ≡ ok (a, u) → Step d u
    rebooted : (a : ℤ) → myreboot d ≡ ok (a, u) → Step d u

  -- Steps one after the other.
  pub data Reaches (d : Driver) : Driver → Type 0 where
    here : Reaches d d
    then_step : (u v : Driver) → Reaches d u → Step u v → Reaches d v

  Step-IsSound : (d u : Driver) → IsSound d → Step d u → IsSound u
  Step-IsSound d u s (packet skb_len nlmsg_type nlmsg_len type b a e) =
      (netlink_recv_packet-Keeps k skb_len nlmsg_type nlmsg_len type b).run d a u s e
  Step-IsSound d u s (hooked c ts run a r e) = (run_hook-Keeps c ts run r).run d a u s e
  Step-IsSound d u s (drained a e) = (drain_queue-Keeps k).run d a u s e
  Step-IsSound d u s (rebooted a e) = (myreboot-Keeps k).run d a u s e

  -- Whatever packets come, calls are hooked, logs are written and reboots announced, in any order and with
  -- any allocation or file operation failing: in every state that is reached from a sound one, the GUIDs
  -- of the sets rise along the tree, and the entries of each tree stand at different addresses that have
  -- been handed out.
  pub Reaches-IsSound : (d u : Driver) → IsSound d → Reaches d u → IsSound u
  Reaches-IsSound d u s here = s
  Reaches-IsSound d u s (then_step w v r e) = Step-IsSound w v (Reaches-IsSound d w s r) e

  -- In every state that is reached from a sound one, the handling of any packet ends, and so do the
  -- writing of the queue and every hook of a call that does, though the loops over the trees go on from
  -- nodes that they have freed.
  pub reached_ends :
      (d u : Driver) (skb_len nlmsg_type nlmsg_len type : ℕ) (b : BackupData) (c : HookCall)
      (ts : Timespec) (run : M ℤ)
      → IsSound d
      → Reaches d u
      → Keeps run
      → (netlink_recv_packet k skb_len nlmsg_type nlmsg_len type b u ≢ unfinished)
        × (drain_queue k u ≢ unfinished)
        × (run_hook c ts run u ≢ unfinished)
  reached_ends d u skb_len nlmsg_type nlmsg_len type b c ts run s r f =
      let t = Reaches-IsSound d u s r in
      (
        (netlink_recv_packet-Keeps k skb_len nlmsg_type nlmsg_len type b).ends u t,
        (drain_queue-Keeps k).ends u t,
        (run_hook-Keeps c ts run f).ends u t,
      )
