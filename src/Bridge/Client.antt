-- ===== src/Bridge/Client.antt =====
-- communicate.c: a program's connection to the driver, and the requests that it sends over it.
use github_upload.Base.{
  ◌>>=◌, le32, ℕ, zero, suc, ◌+◌, ◌-◌, ◌*◌, ◌/◌, ◌%◌, ◌^◌, List, [], ◌∷◌, ◌++◌, Bool, not, ◌&&◌,
  Option, none, some, Outcome, ok, wild, ltb, ◌==◌, if◌then◌else◌, length, drop, replicate, ℤ, pos,
  negsuc,
}
use github_upload.Driver.{next_answer}
use github_upload.Bridge.{int_at, store, copy, get_back_set_info, cache_dir_offset}

-- A netlink message: the bytes from `NLMSG_DATA` on.
pub record Packet : Type 0 where
  pub nlmsg_len : ℕ
  pub nlmsg_type : ℕ
  pub payload : List ℕ

-- `p_sock` (is it other than NULL?), the threads started, what has been sent, the latest first, whether
-- a callback is registered, what it has been told, the latest first, and the `replnotify` of the
-- receiving thread. `allocs` and `calls` are the outcomes of the allocations and system calls to come:
-- an empty list means that they succeed.
pub record Client : Type 0 where
  pub connected : Bool
  pub threads : ℕ
  pub sent : List Packet
  pub registered : Bool
  pub told : List (ℕ × ℕ)
  pub notification : List ℕ
  pub allocs : List Bool
  pub calls : List Bool

abbrev pub C : Type 0 → Type 0
C A = Client → Outcome (A × Client)

unfoldable pub malloc : Client → Bool × Client
malloc c = let (b, rest) = next_answer c.allocs in (b, record c { allocs = rest })

unfoldable pub call : Client → Bool × Client
call c = let (b, rest) = next_answer c.calls in (b, record c { calls = rest })

-- `NET_OK`, `NET_MEM` and `NET_SOCK`.
abbrev pub net_ok : ℤ
net_ok = pos 1

abbrev pub net_mem : ℤ
net_mem = pos 3

abbrev pub net_sock : ℤ
net_sock = pos 4

-- `sizeof(FILEREPL_NOTIFICATION)`, and the offset of `AddOrDel.BackupData` in it.
abbrev pub notification_size : ℕ
notification_size = 556

abbrev pub backup_data_offset : ℕ
backup_data_offset = 8

-- `MAXMSGLEN`, `RTB_CMD`, and `NLMSG_SPACE`, which rounds up to a multiple of 4.
abbrev pub max_msg_len : ℕ
max_msg_len = 1024 * 1024

abbrev pub rtb_cmd : ℕ
rtb_cmd = 1

abbrev pub nlmsg_space : ℕ → ℕ
nlmsg_space len = (len + 16 + 3) / 4 * 4

-- `strlen`: a block with no NUL is read past its end.
unfoldable pub strlen : List ℕ → Outcome ℕ
strlen [] = wild
strlen (zero ∷ rest) = ok 0
strlen (suc c ∷ rest) = strlen rest >>= λ n. ok (suc n)

-- One byte of a block.
unfoldable pub byte_at : List ℕ → ℕ → Outcome ℕ
byte_at block offset = elim (drop offset block) [ [] ↦ wild | c ∷ rest ↦ ok c ]

-- `netlink_send`: the message is zeroed memory of `NLMSG_SPACE(MAXMSGLEN)` bytes.
unfoldable pub netlink_send : ℕ → List ℕ → C ℤ
netlink_send type sbuf c =
    let slen : ℕ = length sbuf in
    let len : ℕ = nlmsg_space slen in
    let packet : Packet = record {
      nlmsg_len = len;
      nlmsg_type = type;
      payload = sbuf ++ replicate (len - 16 - slen) 0;
    } in
    let (memory, c1) = malloc c in
    let (sent, c2) = call c1 in
    if not memory
    then ok (net_mem, c1)
    else if ltb max_msg_len slen
    then wild
    else if sent
    then ok (net_ok, record c2 { sent = packet ∷ c.sent })
    else ok (net_sock, c2)

-- The test for a '/' at the end of `wszBakCacheDir`, which looks at the byte behind its end, and the
-- '/' that is written there.
unfoldable pub end_with_slash : List ℕ → Outcome (List ℕ)
end_with_slash block = do
  len ← strlen (drop cache_dir_offset block)
  last ← byte_at block (cache_dir_offset + len)
  if last == b'/' then ok block else store (cache_dir_offset + len) (b'/' ∷ []) block

-- What a new block of memory holds is up to the C library.
module _ (fresh : ℕ → List ℕ) where
  -- `SendConfig` from the allocation of the message on, with the caller's `REALTIME_BACKUP_DATA`,
  -- which it changes, and without one.
  unfoldable pub send_data : List ℕ → ℕ → C (ℤ × List ℕ)
  send_data block type c = do
    size ← int_at block 0
    let fn_size : ℕ = (size + backup_data_offset) % 2 ^ 32
    let (memory, c1) = malloc c
    if memory && ltb fn_size (2 ^ 31)
        then (do
          typed ← store 0 (le32 type) (fresh fn_size)
          slashed ← end_with_slash block
          size ← int_at slashed 0
          filled ← copy backup_data_offset slashed 0 size typed
          (ret, c2) ← netlink_send rtb_cmd filled c1
          ok ((ret, slashed), c2))
        else ok ((negsuc 2, block), c1)

  unfoldable pub send_bare : ℕ → C ℤ
  send_bare type c =
      let (memory, c1) = malloc c in
      if memory
      then (do typed ← store 0 (le32 type) (fresh notification_size); netlink_send rtb_cmd typed c1)
      else ok (negsuc 2, c1)

  -- `SendConfig`: the result, and the caller's data as it leaves it.
  unfoldable pub send_config : Option (List ℕ) → ℕ → C (ℤ × Option (List ℕ))
  send_config config type c =
      if c.connected
      then elim config [
        | none ↦ do (ret, c1) ← send_bare type c; ok ((ret, none), c1)
        | some block ↦ do
          ((ret, slashed), c1) ← send_data block type c
          ok ((ret, some slashed), c1)
      ]
      else ok ((negsuc 1, config), c)

  unfoldable pub add_backup_set : List ℕ → C (ℤ × Option (List ℕ))
  add_backup_set block = send_config (some block) 0x4006

  unfoldable pub add_backup_items : List ℕ → C (ℤ × Option (List ℕ))
  add_backup_items block = send_config (some block) 0x4007

  unfoldable pub del_backup_set : List ℕ → C (ℤ × Option (List ℕ))
  del_backup_set block = send_config (some block) 0x4008

  unfoldable pub del_backup_items : List ℕ → C (ℤ × Option (List ℕ))
  del_backup_items block = send_config (some block) 0x4009

  unfoldable del_all_backup : C (ℤ × Option (List ℕ))
  del_all_backup = send_config none 0x400a

  unfoldable query_driver_status : C (ℤ × Option (List ℕ))
  query_driver_status = send_config none 0x4005

  unfoldable query_last_shut_down_status : C (ℤ × Option (List ℕ))
  query_last_shut_down_status = send_config none 0x400b

  unfoldable reset_last_shut_down_status : C (ℤ × Option (List ℕ))
  reset_last_shut_down_status = send_config none 0x400c

  -- The four functions of rtcommunicate.c that take a backup set, over one of communicate.c.
  unfoldable pub java_request : (List ℕ → C (ℤ × Option (List ℕ))) → List ℕ → Bool → C ℤ
  java_request request array elements c = do
    let (memory, c1) = malloc c
    info ← get_back_set_info array elements memory
    elim info [
      | none ↦ ok (negsuc 0, c)
      | some block ↦ do ((ret, left), c2) ← request block c1; ok (ret, c2)
    ]

  unfoldable pub java_add_backup_set : List ℕ → Bool → C ℤ
  java_add_backup_set = java_request add_backup_set

  unfoldable pub java_add_backup_items : List ℕ → Bool → C ℤ
  java_add_backup_items = java_request add_backup_items

  unfoldable pub java_del_backup_set : List ℕ → Bool → C ℤ
  java_del_backup_set = java_request del_backup_set

  unfoldable pub java_del_backup_items : List ℕ → Bool → C ℤ
  java_del_backup_items = java_request del_backup_items
