-- ===== src/Netlink/Commands.antt =====
-- rtbnetlink.c: which packets the driver passes over.
use github_upload.Base.{ℕ, true, false, ◌||◌, ok, ltb, ◌==◌, ◌≡◌, arith}
use github_upload.Driver.{Driver, Kernel}
use github_upload.MonitorSet.Requests.{BackupData}
use github_upload.Netlink.{
  header_length, notification_size, process_netlink_cmd, netlink_process_packet,
  netlink_recv_packet,
}

module _ (k : Kernel) where
  -- A packet of another type than 0 (RTB_SET) is passed over without a trace where it is shorter than a
  -- netlink header, or than the length in its header, or where that length is below that of a
  -- notification.
  pub netlink_recv_packet-ignores :
      (skb_len nlmsg_type nlmsg_len type : ℕ) (b : BackupData) (d : Driver)
      → (nlmsg_type == 0) ≡ false
      → (ltb skb_len header_length || ltb skb_len nlmsg_len || ltb nlmsg_len notification_size)
        ≡ true
      → netlink_recv_packet k skb_len nlmsg_type nlmsg_len type b d ≡ ok (tt, d)
  unfolding netlink_recv_packet netlink_process_packet process_netlink_cmd
  netlink_recv_packet-ignores skb_len nlmsg_type nlmsg_len type b d z h = ground arith
