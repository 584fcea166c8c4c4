-- ===== src/LogFile.antt =====
-- fruk.h: `LOG_FILE`, an io log in memory. `file_path` is `wszFilePath`, of at most 260 bytes, and
-- `payload` the bytes of `Data`; `write_length` and `byte_offset` are those of the union's `write`.
use github_upload.Base.{ℕ, List}

pub record LogFile : Type 0 where
  pub header_size : ℕ
  pub type : ℕ
  pub seq_no : ℕ
  pub global_seq_no : ℕ
  pub log_size : ℕ
  pub is_dir : ℕ
  pub file_path : List ℕ
  pub system_time : ℕ
  pub write_length : ℕ
  pub byte_offset : ℕ
  pub payload : List ℕ

-- `LOG_FILE_TYPE_...`
abbrev pub write_type : ℕ
write_type = 1

abbrev pub newfile_type : ℕ
newfile_type = 4

abbrev pub deletefile_type : ℕ
deletefile_type = 5

abbrev pub renamefile_type : ℕ
renamefile_type = 6

abbrev pub hardlink_type : ℕ
hardlink_type = 8

abbrev pub softlink_type : ℕ
softlink_type = 9

abbrev pub error_type : ℕ
error_type = 10

-- Under `#pragma pack(1)`: 32 bytes of numbers, the path of 260, the time of 8 and the union of 12.
abbrev pub log_file_header_size : ℕ
log_file_header_size = 312

-- The header padded to `LOG_FILE_HEADER_SIZE`, and one `ULONG` of `Data`.
abbrev pub log_file_size : ℕ
log_file_size = 1028
