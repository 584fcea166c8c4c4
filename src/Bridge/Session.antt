-- ===== src/Bridge/Session.antt =====
-- communicate.c: the connection is made and closed, and its thread hands the driver's notices to the
-- program's callback.
use github_upload.Base.{
  ◌>>=◌, le32, ◌-◌, ◌==◌, ℕ, ◌+◌, ◌%◌, ◌^◌, ◌<◌, List, [], ◌∷◌, ◌++◌, Bool, true, false, not,
  Option, none, some, Outcome, ok, wild, if◌then◌else◌, drop, length, replicate, ℤ, pos, negsuc,
  ◌≡◌, refl, arith, sym, ap, ◌∙◌, append-nil,
}
use github_upload.Driver.{Notice}
use github_upload.Bridge.{int_at, store, copy}
use github_upload.Bridge.Blocks.{int_at-le32, store-at, copy-store}
use github_upload.Bridge.Client.{
  Packet, Client, C, malloc, call, net_ok, net_mem, net_sock, notification_size,
}

abbrev is_net_ok : ℤ → Bool
is_net_ok (pos n) = n == 1
is_net_ok (negsuc n) = false

-- `RegisterUserAppNotify`.
unfoldable register_user_app_notify : Client → Client
register_user_app_notify c = record c { registered = true }

-- `netlink_sock_init`: `socket` and `bind`.
unfoldable pub netlink_sock_init : Client → ℤ × Client
netlink_sock_init c =
    let (opened, c1) = call c in
    let (bound, c2) = call c1 in
    if opened then (if bound then (net_ok, c2) else (net_sock, c2)) else (net_sock, c1)

-- `pthread_create`.
unfoldable pub start_thread : Client → Client
start_thread c =
    let (started, c1) = call c in if started then record c1 { threads = c.threads + 1 } else c1

-- `InitCommunicate`: the socket is written through `p_sock` also where `malloc` gave NULL, and the
-- thread is started also where there is no socket.
unfoldable pub init_communicate : C ℤ
init_communicate c =
    if c.connected
    then ok (net_ok, c)
    else (let (memory, c1) = malloc c in
        let (ret, c2) = netlink_sock_init c1 in
        if memory then ok (ret, start_thread (record c2 { connected = is_net_ok ret })) else wild)

-- `UnInitCommunicate`, with `netlink_sock_deinit`.
unfoldable un_init_communicate : Client → Client
un_init_communicate c = record c { connected = false }

-- `netlink_recv` into `replnotify`: `none` is a `recvmsg` that failed.
unfoldable pub netlink_recv : Option Packet → C ℤ
netlink_recv message c =
    let (memory, c1) = malloc c in
    if not memory then ok (net_mem, c1) else if not c.connected then wild else elim message [
      | none ↦ ok (net_sock, c1)
      | some m ↦ do
        filled ← copy 0 m.payload 0 m.nlmsg_len c.notification
        ok (net_ok, record c1 { notification = filled })
    ]

-- `ProcessRecvMessage` and `OnNotifyUserApp`.
unfoldable pub process_recv_message : Client → Outcome Client
process_recv_message c = do
  type ← int_at c.notification 0
  status ← int_at c.notification 4
  ok (if c.registered then record c { told = (type, status) ∷ c.told } else c)

-- A round of `thread_entry`.
unfoldable pub thread_round : Option Packet → Client → Outcome Client
thread_round message c = do
  (ret, c1) ← netlink_recv message c
  if is_net_ok ret then process_recv_message c1 else ok c1

-- An `int` as its 32 bits.
abbrev bits32 : ℤ → ℕ
bits32 (pos n) = n % 2 ^ 32
bits32 (negsuc n) = (2 ^ 32 - 1) - n % 2 ^ 32

bits32-lt : (x : ℤ) → bits32 x < 2 ^ 32
bits32-lt (pos n) = omega arith
bits32-lt (negsuc n) = omega arith

-- The message that `netlink_to_user` makes of a notice: its length leaves out the header.
unfoldable pub netlink_to_user : Notice → Packet
netlink_to_user n = record {
  nlmsg_len = notification_size;
  nlmsg_type = 0;
  payload = le32 n.type ++ (le32 (bits32 n.status) ++ replicate 548 0);
}

process_recv_message-tells :
    (c : Client) (type status : ℕ) (rest : List ℕ)
    → c.notification ≡ le32 type ++ (le32 status ++ rest)
    → type < 2 ^ 32
    → status < 2 ^ 32
    → c.registered ≡ true
    → process_recv_message c ≡ ok (record c { told = (type, status) ∷ c.told })
unfolding process_recv_message
process_recv_message-tells c type status rest e t b r =
    let type_read : int_at c.notification 0 ≡ ok type = int_at-le32 c.notification _ 0 type t e in
    let status_read : int_at c.notification 4 ≡ ok status =
      int_at-le32 c.notification rest 4 status b (ap (drop 4) e) in
    rw (type_read, status_read, r) refl

-- A notice of the driver reaches the callback as it was sent: its type, and the bits of its status.
pub thread_round-netlink_to_user :
    (n : Notice) (c : Client)
    → n.type < 2 ^ 32
    → c.connected ≡ true
    → c.registered ≡ true
    → c.allocs ≡ []
    → length c.notification ≡ notification_size
    → (u : Client) × (thread_round (some (netlink_to_user n)) c ≡ ok u)
      × (u.told ≡ (n.type, bits32 n.status) ∷ c.told)
unfolding thread_round netlink_recv malloc netlink_to_user
thread_round-netlink_to_user n c t h r a l =
    let zeros : List ℕ = replicate 548 0 in
    let bytes : List ℕ = le32 n.type ++ (le32 (bits32 n.status) ++ zeros) in
    let received : copy 0 bytes 0 notification_size c.notification ≡ ok bytes =
      copy-store bytes bytes [] c.notification 0 0 (omega arith) (sym (append-nil bytes))
      ∙ ap (store 0 bytes) (sym (append-nil c.notification))
      ∙ store-at [] c.notification bytes [] 0 refl (sym l)
      ∙ ap ok (append-nil bytes) in
    let c1 : Client = record c { connected = true; notification = bytes; allocs = [] } in
    (
      record c1 { told = (n.type, bits32 n.status) ∷ c.told },
      rw (a, h, received)
          (process_recv_message-tells c1 n.type (bits32 n.status) zeros refl t (bits32-lt n.status)
            r),
      refl,
    )
