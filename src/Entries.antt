-- ===== src/Entries.antt =====
-- fruk.h: the two kinds of entry that the driver monitors by, each a node of a search tree. `addr` is
-- the entry's own address. The 16 bytes of a GUID are the number that they spell, the first byte
-- highest, so that `memcmp` of two GUIDs is the order of the numbers.
use github_upload.Base.{ℕ, Bool, List, Option}

-- `MONITOR_SET_ENTRY`: a backup set and the directory for its logs.
pub record SetEntry : Type 0 where
  pub addr : ℕ
  pub guid : ℕ
  pub cache_dir : List ℕ
  pub seq_no : ℕ
  pub file_count : ℕ

-- `MONITOR_FILE_ENTRY`: a file or directory of a set. `set_entry` is `pSetEntry`, `none` for NULL.
pub record FileEntry : Type 0 where
  pub addr : ℕ
  pub guid : ℕ
  pub inited : Bool
  pub monitor : Bool
  pub seq_no : ℕ
  pub directory : Bool
  pub len : ℕ
  pub path : List ℕ
  pub set_entry : Option ℕ

abbrev pub set_addr : SetEntry → ℕ
set_addr e = e.addr

abbrev pub file_addr : FileEntry → ℕ
file_addr e = e.addr
