-- ===== src/Bridge/Delivered.antt =====
-- rtcommunicate.c, communicate.c and rtbnetlink.c: what Java asks for is the request that the driver
-- runs.
use github_upload.Base.{
  le32, ℕ, ◌+◌, ◌^◌, ◌<◌, ◌≤◌, List, [], ◌∷◌, ◌++◌, Bool, true, false, ok, some, none, Option, leb,
  ◌==◌, drop, length, All, ◌≡◌, refl, arith, ap, sym, ◌∙◌, length-append, drop-append, ℤ, negsuc,
  inl, inr, ◌⊎◌, Bool-cases, All-append, All-imp,
}
use github_upload.Driver.{Kernel, Driver, pure, ◌>>◌}
use github_upload.MonitorSet.Requests.{FilterItem, BackupData}
use github_upload.Netlink.{
  Command, add_set, add_item, del_set, del_item, run_command, process_netlink_cmd,
  netlink_process_packet, netlink_recv_packet,
}
use github_upload.Bridge.{get_back_set_info, int_at, max_path}
use github_upload.Bridge.Layout.{spell, lay, block_size, Fits}
use github_upload.Bridge.RoundTrip.{get_back_set_info-spell}
use github_upload.Bridge.Client.{
  Client, Packet, C, net_ok, max_msg_len, backup_data_offset, java_request, malloc, send_config,
  java_add_backup_set, java_add_backup_items, java_del_backup_set, java_del_backup_items,
  add_backup_set, add_backup_items, del_backup_set, del_backup_items,
}
use github_upload.Bridge.Message.{
  IsChar, FitsString, guid_number, no_item, word, word-le32, receive, backup_data_of,
  backup_data_of-lay,
}
use github_upload.Bridge.Slash.{slash}
use github_upload.Bridge.Sending.{data_packet, send_config-lay, malloc-done}

-- The four requests that carry a backup set.
pub data SetRequest : Type 0 where
  adds_set adds_items deletes_set deletes_items : SetRequest

-- Their codes, and the driver's commands.
abbrev code_of : SetRequest → ℕ
code_of adds_set = 0x4006
code_of adds_items = 0x4007
code_of deletes_set = 0x4008
code_of deletes_items = 0x4009

abbrev pub asked : SetRequest → Command
asked adds_set = add_set
asked adds_items = add_item
asked deletes_set = del_set
asked deletes_items = del_item

-- The function of rtcommunicate.c for each.
abbrev pub java : (ℕ → List ℕ) → SetRequest → List ℕ → Bool → C ℤ
java fresh adds_set = java_add_backup_set fresh
java fresh adds_items = java_add_backup_items fresh
java fresh deletes_set = java_del_backup_set fresh
java fresh deletes_items = java_del_backup_items fresh

java-send_config :
    (fresh : ℕ → List ℕ) (x : SetRequest) (array : List ℕ) (elements : Bool) (c : Client)
    → java fresh x array elements c
      ≡ java_request fresh (λ block. send_config fresh (some block) (code_of x)) array elements c
unfolding java_add_backup_set java_add_backup_items java_del_backup_set java_del_backup_items
    add_backup_set add_backup_items del_backup_set del_backup_items
java-send_config fresh adds_set array elements c = refl
java-send_config fresh adds_items array elements c = refl
java-send_config fresh deletes_set array elements c = refl
java-send_config fresh deletes_items array elements c = refl

-- A packet that holds a request is long enough to be run.
netlink_recv_packet-runs :
    (k : Kernel) (len : ℕ) (x : SetRequest) (b : BackupData) (d : Driver)
    → 556 ≤ len
    → netlink_recv_packet k len 1 len (code_of x) b d ≡ (run_command k (asked x) b >> pure tt) d
unfolding netlink_recv_packet netlink_process_packet process_netlink_cmd
netlink_recv_packet-runs k len adds_set b d h = ground arith
netlink_recv_packet-runs k len adds_items b d h = ground arith
netlink_recv_packet-runs k len deletes_set b d h = ground arith
netlink_recv_packet-runs k len deletes_items b d h = ground arith

FitsString-Fits : (i : FilterItem) → FitsString i → Fits i
FitsString-Fits i f = (f.0, omega (arith, f.1))

code_of-lt : (x : SetRequest) → code_of x < 2 ^ 32
code_of-lt adds_set = omega arith
code_of-lt adds_items = omega arith
code_of-lt deletes_set = omega arith
code_of-lt deletes_items = omega arith

receive-data_packet :
    (k : Kernel) (x : SetRequest) (left block : List ℕ) (d : Driver)
    → length left ≡ 4
    → 532 ≤ length block
    → receive k (data_packet (code_of x) left block) d
      ≡ (run_command k (asked x) (backup_data_of block) >> pure tt) d
unfolding receive
receive-data_packet k x left block d four h =
    let len : ℕ = length block + 24 in
    let body : drop backup_data_offset (le32 (code_of x) ++ (left ++ block)) ≡ block =
      ap (λ m. drop m (left ++ block)) (sym four) ∙ drop-append left block in
    let type : word (le32 (code_of x) ++ (left ++ block)) ≡ code_of x =
      word-le32 (code_of x) (left ++ block) (code_of-lt x) in
    ap
      (λ b.
        netlink_recv_packet k len 1 len (word (le32 (code_of x) ++ (left ++ block)))
          (backup_data_of b) d)
      body
    ∙ ap (λ n. netlink_recv_packet k len 1 len n (backup_data_of block) d) type
    ∙ netlink_recv_packet-runs k len x (backup_data_of block) d (omega arith)

java_request-sends :
    (fresh : ℕ → List ℕ) (request : List ℕ → C (ℤ × Option (List ℕ))) (array block : List ℕ)
    (ret : ℤ) (left : Option (List ℕ)) (c u : Client)
    → c.allocs ≡ []
    → get_back_set_info array true true ≡ ok (some block)
    → request block c ≡ ok ((ret, left), u)
    → java_request fresh request array true c ≡ ok (ret, u)
unfolding java_request
java_request-sends fresh request array block ret left c u a g r =
    let memory : (malloc c).0 ≡ true = ap (λ p. p.0) (malloc-done c a) in
    let same : (malloc c).1 ≡ c = ap (λ p. p.1) (malloc-done c a) in rw (memory, g, same, r) refl

java_request-refuses :
    (fresh : ℕ → List ℕ) (request : List ℕ → C (ℤ × Option (List ℕ))) (array : List ℕ) (c : Client)
    → ((memory : Bool) → get_back_set_info array true memory ≡ ok none)
    → java_request fresh request array true c ≡ ok (negsuc 0, c)
unfolding java_request
java_request-refuses fresh request array c h = rw (h (malloc c).0) refl

get_back_set_info-none :
    (array : List ℕ) (n : ℕ) (memory : Bool)
    → (length array ≤ 4) ⊎ (int_at array 0 ≡ ok n) × (length array == n ≡ false)
    → get_back_set_info array true memory ≡ ok none
unfolding get_back_set_info
get_back_set_info-none array n memory (inl h) =
    let short : leb (length array) 4 ≡ true = ground arith in rw short refl
get_back_set_info-none array n memory (inr (r, d)) = elim (Bool-cases (leb (length array) 4)) [
  | inl short ↦ rw short refl
  | inr long ↦ rw (long, r, d) refl
]

-- A backup set that Java spells for one of the four functions is sent in one packet, and the driver
-- runs the command of that function on it: with the same GUID, count and items, a '/' more at the end
-- of the directory, and an item of no name behind the counted ones. The GUID has 16 bytes, the strings
-- leave room for that '/' and for their NULs, the packet fits a message, the client is connected, and
-- memory and the sending do not fail.
pub java-delivered :
    (fresh : ℕ → List ℕ) (k : Kernel) (x : SetRequest) (guid cache_dir : List ℕ)
    (items : List FilterItem) (c : Client) (d : Driver)
    → ((n : ℕ) → length (fresh n) ≡ n)
    → length guid ≡ 16
    → length cache_dir + 1 < max_path
    → All IsChar cache_dir
    → All FitsString items
    → backup_data_offset + block_size items ≤ max_msg_len
    → length (spell guid cache_dir items) < 2 ^ 31
    → c.connected ≡ true
    → c.allocs ≡ []
    → c.calls ≡ []
    → (packet : Packet) × (java fresh x (spell guid cache_dir items) true c
        ≡ ok (net_ok, record c { sent = packet ∷ c.sent }))
      × (receive k packet d
          ≡ (run_command k (asked x) (record {
            guid = guid_number 0 guid;
            item_count = length items;
            cache_dir = cache_dir ++ slash;
            items = items ++ (no_item ∷ []);
          })
                >> pure tt)
              d)
java-delivered fresh k x guid cache_dir items c d sizes g l h f b short s a i =
    let request : List ℕ → C (ℤ × Option (List ℕ)) =
      λ block. send_config fresh (some block) (code_of x) in
    let slashed : List ℕ = lay guid (cache_dir ++ slash) items in
    let laid =
      get_back_set_info-spell guid cache_dir items g (omega arith)
        (All-imp FitsString Fits items FitsString-Fits f) (omega arith) short in
    let (left, four, size, sent) =
      send_config-lay fresh sizes guid cache_dir items (code_of x) c g (omega arith) h f b s a i in
    let read =
      backup_data_of-lay guid (cache_dir ++ slash) items g
        (omega (arith, length-append cache_dir slash))
        (All-append IsChar cache_dir slash h (omega arith, tt)) f (omega arith) in
    (
      data_packet (code_of x) left slashed,
      java-send_config fresh x (spell guid cache_dir items) true c
          ∙ java_request-sends fresh request (spell guid cache_dir items) (lay guid cache_dir items)
              net_ok (some slashed) c _ a laid sent,
      receive-data_packet k x left slashed d four (omega (arith, size))
          ∙ ap (λ r. (run_command k (asked x) r >> pure tt) d) read,
    )

-- An array of at most four bytes, or one whose first four bytes do not spell its length, is refused
-- with -1: nothing is allocated, sent or changed.
java-refuses :
    (fresh : ℕ → List ℕ) (x : SetRequest) (array : List ℕ) (n : ℕ) (c : Client)
    → (length array ≤ 4) ⊎ (int_at array 0 ≡ ok n) × (length array == n ≡ false)
    → java fresh x array true c ≡ ok (negsuc 0, c)
java-refuses fresh x array n c h =
    java-send_config fresh x array true c
    ∙ java_request-refuses fresh _ array c (λ memory. get_back_set_info-none array n memory h)
