-- ===== src/Bridge.antt =====
-- rtcommunicate.c: the Java side of the bridge hands over a backup set as an array of bytes, which
-- `GetBackSetInfo` lays out as a `REALTIME_BACKUP_DATA` (comwrapper.h) for communicate.c. A block of
-- memory is the list of its bytes; a read or write outside of a block is wild.
pub mod Blocks
pub mod Layout
pub mod RoundTrip
pub mod Client
pub mod Session
pub mod Message
pub mod Slash
pub mod Sending
pub mod Delivered
use github_upload.Base.{
  ◌>>=◌, le32, ℕ, zero, suc, ◌+◌, ◌-◌, ◌*◌, ◌%◌, ◌^◌, List, ◌∷◌, ◌++◌, Bool, ◌&&◌, Option, none,
  some, Outcome, ok, wild, ltb, leb, ◌==◌, if◌then◌else◌, length, take, drop, replicate,
}

-- `GetIntFromBuffer`: the `int` as its 32 bits; `none` is NULL.
unfoldable pub get_int_from_buffer : Option (List ℕ) → Outcome ℕ
get_int_from_buffer none = ok 0
get_int_from_buffer (some (a ∷ b ∷ c ∷ d ∷ rest)) = ok (a + b * 256 + c * 65536 + d * 16777216)
get_int_from_buffer (some bytes) = wild

-- `GetIntFromBuffer(szData + iOffset)`.
abbrev pub int_at : List ℕ → ℕ → Outcome ℕ
int_at array offset = get_int_from_buffer (some (drop offset array))

-- Bytes written to a place in a block.
unfoldable pub store : ℕ → List ℕ → List ℕ → Outcome (List ℕ)
store to bytes block =
    if leb (to + length bytes) (length block)
    then ok (take to block ++ (bytes ++ drop (to + length bytes) block))
    else wild

-- `memcpy` of `n` bytes of `array`, from `offset` on. A count below 0, which is one of 2 ^ 31 or more
-- here, is far more than any block has.
unfoldable pub copy : ℕ → List ℕ → ℕ → ℕ → List ℕ → Outcome (List ℕ)
copy to array offset n block =
    if ltb n (2 ^ 31) && leb n (length (drop offset array))
    then store to (take n (drop offset array)) block
    else wild

-- `sizeof(REALTIME_BACKUP_DATA)`, which has room for one item, and `sizeof(FILTER_ITEM)`.
abbrev pub backup_data_size : ℕ
backup_data_size = 548

abbrev pub filter_item_size : ℕ
filter_item_size = 264

-- `FILEREPL_MAX_PATH`.
abbrev pub max_path : ℕ
max_path = 260

-- The offsets of `guidSetId`, `ulFilterItemCounts`, `wszBakCacheDir` and `FilterItems`.
abbrev pub guid_offset : ℕ
guid_offset = 4

abbrev pub counts_offset : ℕ
counts_offset = 20

abbrev pub cache_dir_offset : ℕ
cache_dir_offset = 24

abbrev pub items_offset : ℕ
items_offset = 284

-- The loop over the items: `iItemLen` counts the type with the name.
unfoldable pub copy_items : ℕ → ℕ → ℕ → List ℕ → List ℕ → Outcome (List ℕ)
copy_items zero to offset array block = ok block
copy_items (suc n) to offset array block = do
  item_len ← int_at array offset
  file_type ← int_at array (offset + 4)
  typed ← store to (le32 file_type) block
  named ← (if leb 4 item_len then copy (to + 4) array (offset + 8) (item_len - 4) typed else wild)
  copy_items n (to + filter_item_size) (offset + 8 + (item_len - 4)) array named

-- `GetBackSetInfo` from the allocation on: `memset` is called on NULL where there is no memory, and a
-- size below 0 leaves none.
unfoldable pub fill_back_set : ℕ → List ℕ → Bool → Outcome (Option (List ℕ))
fill_back_set item_count array memory =
    let size = (backup_data_size + filter_item_size * item_count) % 2 ^ 32 in
    if memory && ltb size (2 ^ 31)
    then (do
      sized ← store 0 (le32 size) (replicate size 0)
      counted ← store counts_offset (le32 item_count) sized
      guid_len ← int_at array 8
      with_guid ← copy guid_offset array 12 guid_len counted
      cache_len ← int_at array (12 + guid_len)
      with_dir ← copy cache_dir_offset array (16 + guid_len) cache_len with_guid
      filled ←
          copy_items (if ltb item_count (2 ^ 31) then item_count else 0) items_offset
            (16 + guid_len + cache_len) array with_dir
      ok (some filled))
    else wild

-- `GetBackSetInfo`: the array, whether the JVM gives its elements (NULL is read as 0), and whether
-- there is memory for the result.
unfoldable pub get_back_set_info : List ℕ → Bool → Bool → Outcome (Option (List ℕ))
get_back_set_info array elements memory = if leb (length array) 4 then ok none else (do
  info_size ← get_int_from_buffer (if elements then some array else none)
  if length array == info_size
      then (do item_count ← int_at array 4; fill_back_set item_count array memory)
      else ok none)
