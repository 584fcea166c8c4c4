-- ===== src/Bridge/Message.antt =====
-- usrlink.h and rtbnetlink.c: the driver's view of a packet, and the `REALTIME_BACKUP_DATA` in it.
use github_upload.Base.{
  le32, ℕ, zero, suc, ◌+◌, ◌-◌, ◌*◌, ◌/◌, ◌^◌, ◌<◌, ◌≤◌, List, [], ◌∷◌, ◌++◌, drop, take, length,
  replicate, All, ◌≡◌, refl, arith, ap, sym, ◌∙◌, append_assoc, drop-append, take-append,
  length-append,
}
use github_upload.Driver.{Kernel, M}
use github_upload.MonitorSet.Requests.{FilterItem, BackupData}
use github_upload.Netlink.{netlink_recv_packet}
use github_upload.Bridge.{
  cache_dir_offset, guid_offset, counts_offset, items_offset, filter_item_size, max_path,
}
use github_upload.Bridge.Blocks.{padded, drop_past, length-padded}
use github_upload.Bridge.Layout.{lay_items, lay}
use github_upload.Bridge.Client.{Packet, backup_data_offset}

-- A `ULONG` at the start of some bytes.
abbrev pub word : List ℕ → ℕ
word (a ∷ b ∷ c ∷ d ∷ rest) = a + b * 256 + c * 65536 + d * 16777216
word bytes = 0

-- A string up to its NUL.
abbrev c_string : List ℕ → List ℕ
c_string [] = []
c_string (zero ∷ rest) = []
c_string (suc c ∷ rest) = suc c ∷ c_string rest

-- The 16 bytes of a GUID, the first highest.
abbrev pub guid_number : ℕ → List ℕ → ℕ
guid_number acc [] = acc
guid_number acc (b ∷ bytes) = guid_number (acc * 256 + b) bytes

-- So many `FILTER_ITEM`s.
abbrev items_of : ℕ → List ℕ → List FilterItem
items_of zero bytes = []
items_of (suc n) bytes =
    record { file_type = word bytes; name = c_string (drop 4 bytes) }
    ∷ items_of n (drop filter_item_size bytes)

-- The bytes of a `REALTIME_BACKUP_DATA` as its fields. A string goes on to its NUL, wherever that is.
unfoldable pub backup_data_of : List ℕ → BackupData
backup_data_of block = record {
  guid = guid_number 0 (take 16 (drop guid_offset block));
  item_count = word (drop counts_offset block);
  cache_dir = c_string (drop cache_dir_offset block);
  items = items_of ((length block - items_offset) / filter_item_size) (drop items_offset block);
}

-- `netlink_recv_packet` on a packet from user space: `nlmsghdr` gives the length and the type, and the
-- payload is a `FILEREPL_NOTIFICATION`.
unfoldable pub receive : Kernel → Packet → M (Unit {0})
receive k p =
    netlink_recv_packet k p.nlmsg_len p.nlmsg_type p.nlmsg_len (word p.payload)
      (backup_data_of (drop backup_data_offset p.payload))

-- A byte that does not end a string.
abbrev pub IsChar : ℕ → Type 0
IsChar c = 0 < c

pub word-le32 : (n : ℕ) (rest : List ℕ) → n < 2 ^ 32 → word (le32 n ++ rest) ≡ n
word-le32 n rest h = omega arith

c_string-zero : (s rest : List ℕ) → All IsChar s → c_string (s ++ (0 ∷ rest)) ≡ s
c_string-zero [] rest h = refl
c_string-zero (zero ∷ s) rest h = absurd (omega (arith, h.0))
c_string-zero (suc c ∷ s) rest h = ap (λ t. suc c ∷ t) (c_string-zero s rest h.1)

-- A field that is longer than its string holds just that string.
c_string-padded :
    (n : ℕ) (s rest : List ℕ) → All IsChar s → length s < n → c_string (padded n s ++ rest) ≡ s
c_string-padded n s rest h l =
    let more : n - length s ≡ suc (n - length s - 1) = omega arith in
    ap c_string (append_assoc s _ rest)
    ∙ ap (λ m. c_string (s ++ (replicate m 0 ++ rest))) more
    ∙ c_string-zero s (replicate (n - length s - 1) 0 ++ rest) h

-- An item with a name that leaves room for its NUL.
abbrev pub FitsString : FilterItem → Type 0
FitsString i = (i.file_type < 2 ^ 32) × (length i.name < max_path) × All IsChar i.name

-- The room at the end of the block reads as an item with no name.
abbrev pub no_item : FilterItem
no_item = record { file_type = 0; name = [] }

drop_item :
    (i : FilterItem) (rest : List ℕ)
    → length i.name ≤ max_path
    → drop filter_item_size (le32 i.file_type ++ (padded max_path i.name ++ rest)) ≡ rest
drop_item i rest l =
    let named = padded max_path i.name in
    ap (λ m. drop m (named ++ rest)) (sym (length-padded max_path i.name l))
    ∙ drop-append named rest

items_of-lay_items :
    (items : List FilterItem)
    → All FitsString items
    → items_of (suc (length items)) (lay_items items ++ replicate filter_item_size 0)
      ≡ items ++ (no_item ∷ [])
items_of-lay_items [] f = refl
items_of-lay_items (i ∷ is) f =
    let (t, l, h) = f.0 in
    let rest : List ℕ = lay_items is ++ replicate filter_item_size 0 in
    let typed : List ℕ = le32 i.file_type in
    let named : List ℕ = padded max_path i.name in
    let whole : lay_items (i ∷ is) ++ replicate filter_item_size 0 ≡ typed ++ (named ++ rest) =
      ap (λ z. typed ++ z) (append_assoc named (lay_items is) _) in
    let type_read : word (typed ++ (named ++ rest)) ≡ i.file_type =
      word-le32 i.file_type (named ++ rest) t in
    ap (items_of (suc (suc (length is)))) whole
    ∙ ap
        (λ n.
          record { file_type = n; name = c_string (named ++ rest) }
          ∷ items_of (suc (length is)) (drop filter_item_size (typed ++ (named ++ rest))))
        type_read
    ∙ ap
        (λ s.
          record { file_type = i.file_type; name = s }
          ∷ items_of (suc (length is)) (drop filter_item_size (typed ++ (named ++ rest))))
        (c_string-padded max_path i.name rest h l)
    ∙ ap (λ z. i ∷ items_of (suc (length is)) z) (drop_item i rest (omega arith))
    ∙ ap (λ z. i ∷ z) (items_of-lay_items is f.1)

pub length-lay_items :
    (items : List FilterItem)
    → All FitsString items
    → length (lay_items items) ≡ filter_item_size * length items
length-lay_items [] f = refl
length-lay_items (i ∷ is) f = omega (
  arith,
  length-lay_items is f.1,
  length-append (padded max_path i.name) (lay_items is),
  length-padded max_path i.name (omega (arith, f.0.1)),
)

-- What a program lays out for a backup set reads as that set, with one item of no name behind the
-- others.
pub backup_data_of-lay :
    (guid cache_dir : List ℕ) (items : List FilterItem)
    → length guid ≡ 16
    → length cache_dir < max_path
    → All IsChar cache_dir
    → All FitsString items
    → length items < 2 ^ 32
    → backup_data_of (lay guid cache_dir items) ≡ record {
      guid = guid_number 0 guid;
      item_count = length items;
      cache_dir = cache_dir;
      items = items ++ (no_item ∷ []);
    }
unfolding backup_data_of
backup_data_of-lay guid cache_dir items g l c f b =
    let n : ℕ = length items in
    let block : List ℕ = lay guid cache_dir items in
    let rest : List ℕ = lay_items items ++ replicate filter_item_size 0 in
    let dir : List ℕ = padded max_path cache_dir in
    let behind : List ℕ = le32 n ++ (dir ++ rest) in
    let guid_read : take 16 (drop guid_offset block) ≡ guid =
      ap (λ m. take m (guid ++ behind)) (sym g) ∙ take-append guid behind in
    let h20 : drop counts_offset block ≡ behind =
      ap (λ m. drop m (guid ++ behind)) (sym g) ∙ drop-append guid behind in
    let count_read : word (drop counts_offset block) ≡ n =
      ap word h20 ∙ word-le32 n (dir ++ rest) b in
    let h24 : drop cache_dir_offset block ≡ dir ++ rest =
      drop_past block (le32 n) (dir ++ rest) counts_offset h20 in
    let dir_read : c_string (drop cache_dir_offset block) ≡ cache_dir =
      ap c_string h24 ∙ c_string-padded max_path cache_dir rest c l in
    let dir_size : length dir ≡ max_path = length-padded max_path cache_dir (omega arith) in
    let h284 : drop items_offset block ≡ rest =
      ap (λ m. drop (cache_dir_offset + m) block) (sym dir_size)
      ∙ drop_past block dir rest cache_dir_offset h24 in
    let size : (length block - items_offset) / filter_item_size ≡ suc n = omega (
      arith,
      length-append guid behind,
      length-append dir rest,
      dir_size,
      length-lay_items items f,
      length-append (lay_items items) (replicate filter_item_size 0),
    ) in
    let items_read : items_of ((length block - items_offset) / filter_item_size)
          (drop items_offset block)
        ≡ items ++ (no_item ∷ []) =
      ap (λ m. items_of m (drop items_offset block)) size
      ∙ ap (items_of (suc n)) h284
      ∙ items_of-lay_items items f in
    λ i. record {
      guid = guid_number 0 (guid_read i);
      item_count = count_read i;
      cache_dir = dir_read i;
      items = items_read i;
    }
