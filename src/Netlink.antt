-- ===== src/Netlink.antt =====
-- rtbnetlink.c: the packets from user space, and the commands in them.
pub mod Sound
pub mod Commands
use github_upload.Base.{
  ℕ, Bool, true, false, ◌&&◌, Option, none, some, ok, ℤ, pos, ltb, leb, ◌==◌, if◌then◌else◌,
}
use github_upload.Driver.{Kernel, M, pure, fault, ◌>>◌}
use github_upload.IoLog.WriteThread.{notify_user_status}
use github_upload.MonitorSet.Requests.{
  BackupData, config_add_monitor_set, config_del_monitor_set, config_del_monitor_item,
  config_del_all_monitor_set,
}

-- `NOTIFY_TYPE_...`, from 0x4005 on.
pub data Command : Type 0 where
  query_running_status add_set add_item del_set del_item del_all : Command
  query_last_shutdown_status reset_last_shutdown_status other : Command

abbrev pub command_of : ℕ → Command
command_of type =
    if type == 0x4006
    then add_set
    else if type == 0x4007
    then add_item
    else if type == 0x4008
    then del_set
    else if type == 0x4009
    then del_item
    else if type == 0x400a
    then del_all
    else if type == 0x4005
    then query_running_status
    else if type == 0x400b
    then query_last_shutdown_status
    else if type == 0x400c
    then reset_last_shutdown_status
    else other

-- `sizeof(FILEREPL_NOTIFICATION)` and `sizeof(struct nlmsghdr)`.
abbrev pub notification_size : ℕ
notification_size = 556

abbrev pub header_length : ℕ
header_length = 16

-- `NET_OK` and `NET_PARAM`.
abbrev pub net_ok : ℤ
net_ok = pos 1

abbrev pub net_param : ℤ
net_param = pos 2

-- `systemrunning`.
abbrev pub system_running : ℕ
system_running = 1

-- A BOOL as the int that `notify_user_status` takes.
abbrev pub bool_status : Bool → ℤ
bool_status true = pos 1
bool_status false = pos 0

module _ (k : Kernel) where
  -- The `switch` of `process_netlink_cmd`.
  unfoldable pub run_command : Command → BackupData → M ℤ
  unfolding config_add_monitor_set config_del_monitor_set config_del_monitor_item
      config_del_all_monitor_set notify_user_status
  run_command add_set b d = config_add_monitor_set k (some b) true d
  run_command add_item b d = config_add_monitor_set k (some b) false d
  run_command del_set b d = config_del_monitor_set k (some b) d
  run_command del_item b d = config_del_monitor_item k (some b) d
  run_command del_all b d = config_del_all_monitor_set k d
  run_command query_running_status b d =
      (notify_user_status 0x4005 (bool_status d.normal_running) >> pure net_ok) d
  run_command query_last_shutdown_status b d =
      (notify_user_status 0x400b (pos system_running) >> pure net_ok)
        (record d { last_shutdown = system_running })
  run_command reset_last_shutdown_status b d =
      ok (net_ok, record d { last_shutdown = system_running })
  run_command other b d = ok (net_ok, d)

  -- `process_netlink_cmd`: `none` is a NULL buffer.
  unfoldable pub process_netlink_cmd : ℕ → Option BackupData → ℕ → M ℤ
  unfolding run_command
  process_netlink_cmd type none len = pure net_param
  process_netlink_cmd type (some b) len =
      if ltb len notification_size then pure net_param else run_command (command_of type) b

  -- `netlink_process_packet`: RTB_GET is 1 and RTB_SET 0. The answer to RTB_SET copies 13 bytes out of
  -- a literal of 7.
  unfoldable pub netlink_process_packet : ℕ → ℕ → ℕ → BackupData → M (Unit {0})
  unfolding process_netlink_cmd
  netlink_process_packet nlmsg_type nlmsg_len type b =
      if nlmsg_type == 1
      then process_netlink_cmd type (some b) nlmsg_len >> pure tt
      else if nlmsg_type == 0
      then fault
      else pure tt

  -- `netlink_recv_packet`: a socket buffer of `skb_len` bytes.
  unfoldable pub netlink_recv_packet : ℕ → ℕ → ℕ → ℕ → BackupData → M (Unit {0})
  unfolding netlink_process_packet
  netlink_recv_packet skb_len nlmsg_type nlmsg_len type b =
      if leb header_length skb_len
      then (if leb header_length nlmsg_len && leb nlmsg_len skb_len
          then netlink_process_packet nlmsg_type nlmsg_len type b
          else pure tt)
      else pure tt
