-- ===== src/Netlink/Sound.antt =====
-- Whatever packet comes from user space, the invariant of the two trees is kept.
use github_upload.Base.{
  ℕ, ◌==◌, true, false, ◌&&◌, Option, none, some, ℤ, pos, ltb, leb, arith, Bool-cases, inl, inr,
  refl,
}
use github_upload.Driver.{Kernel, pure, fault, ◌>>◌}
use github_upload.IoLog.WriteThread.{notify_user_status}
use github_upload.MonitorSet.Sound.{Keeps-after, Keeps, Keeps-bind, Keeps-pure, same_trees}
use github_upload.MonitorSet.SaveSound.{notify_user_status-Keeps}
use github_upload.MonitorSet.Requests.{BackupData}
use github_upload.MonitorSet.ConfigSound.{
  config_add_monitor_set-Keeps, config_del_monitor_set-Keeps, config_del_monitor_item-Keeps,
  config_del_all_monitor_set-Keeps,
}
use github_upload.Netlink.{
  Command, add_set, add_item, del_set, del_item, del_all, query_running_status,
  query_last_shutdown_status, reset_last_shutdown_status, other, net_ok, net_param, system_running,
  bool_status, run_command, process_netlink_cmd, netlink_process_packet, netlink_recv_packet,
  command_of, notification_size, header_length,
}

pub fault-Keeps : {A : Type 0} → Keeps (fault {A = A})
fault-Keeps = record { run = λ d a u s e. absurd (ground arith); ends = λ d s e. ground arith }

module _ (k : Kernel) where
  told-Keeps : (type : ℕ) (status : ℤ) → Keeps (notify_user_status type status >> pure net_ok)
  told-Keeps type status =
      Keeps-bind (notify_user_status type status) (λ _. pure net_ok)
        (notify_user_status-Keeps type status) (λ _. Keeps-pure net_ok)

  run_command-Keeps : (c : Command) (b : BackupData) → Keeps (run_command k c b)
  unfolding run_command
  run_command-Keeps add_set b = config_add_monitor_set-Keeps k (some b) true
  run_command-Keeps add_item b = config_add_monitor_set-Keeps k (some b) false
  run_command-Keeps del_set b = config_del_monitor_set-Keeps k (some b)
  run_command-Keeps del_item b = config_del_monitor_item-Keeps k (some b)
  run_command-Keeps del_all b = config_del_all_monitor_set-Keeps k
  run_command-Keeps query_running_status b = record {
    run = λ d. (told-Keeps 0x4005 (bool_status d.normal_running)).run d;
    ends = λ d. (told-Keeps 0x4005 (bool_status d.normal_running)).ends d;
  }
  run_command-Keeps query_last_shutdown_status b =
      Keeps-after (λ d. record d { last_shutdown = system_running }) _
        (λ d s.
          same_trees d (record d { last_shutdown = system_running }) refl refl (omega arith) s)
        (told-Keeps 0x400b (pos system_running))
  run_command-Keeps reset_last_shutdown_status b = record {
    run = λ d a u s e. same_trees d u (ground arith) (ground arith) (ground arith) s;
    ends = λ d s e. ground arith;
  }
  run_command-Keeps other b = Keeps-pure net_ok

  process_netlink_cmd-Keeps :
      (type : ℕ) (b : Option BackupData) (len : ℕ) → Keeps (process_netlink_cmd k type b len)
  unfolding process_netlink_cmd
  process_netlink_cmd-Keeps type none len = Keeps-pure net_param
  process_netlink_cmd-Keeps type (some b) len = elim (Bool-cases (ltb len notification_size)) [
    | inl e ↦ rw (e, process_netlink_cmd) (Keeps-pure net_param)
    | inr e ↦ rw (e, process_netlink_cmd) (run_command-Keeps (command_of type) b)
  ]

  netlink_process_packet-Keeps :
      (nlmsg_type nlmsg_len type : ℕ) (b : BackupData)
      → Keeps (netlink_process_packet k nlmsg_type nlmsg_len type b)
  unfolding netlink_process_packet
  netlink_process_packet-Keeps nlmsg_type nlmsg_len type b = elim (Bool-cases (nlmsg_type == 1)) [
    | inl e ↦
        rw (e, netlink_process_packet)
          (Keeps-bind (process_netlink_cmd k type (some b) nlmsg_len) (λ _. pure tt)
            (process_netlink_cmd-Keeps type (some b) nlmsg_len) (λ _. Keeps-pure tt))
    | inr e ↦
        rw (e, netlink_process_packet)
          (elim (Bool-cases (nlmsg_type == 0)) [
            | inl z ↦ rw (z, netlink_process_packet) fault-Keeps
            | inr z ↦ rw (z, netlink_process_packet) (Keeps-pure tt)
          ])
  ]

  pub netlink_recv_packet-Keeps :
      (skb_len nlmsg_type nlmsg_len type : ℕ) (b : BackupData)
      → Keeps (netlink_recv_packet k skb_len nlmsg_type nlmsg_len type b)
  unfolding netlink_recv_packet
  netlink_recv_packet-Keeps skb_len nlmsg_type nlmsg_len type b =
      elim (Bool-cases (leb header_length skb_len)) [
        | inr e ↦ rw (e, netlink_recv_packet) (Keeps-pure tt)
        | inl e ↦
            rw (e, netlink_recv_packet)
              (elim (Bool-cases (leb header_length nlmsg_len && leb nlmsg_len skb_len)) [
                | inl h ↦
                    rw (h, netlink_recv_packet)
                      (netlink_process_packet-Keeps nlmsg_type nlmsg_len type b)
                | inr h ↦ rw (h, netlink_recv_packet) (Keeps-pure tt)
              ])
      ]
