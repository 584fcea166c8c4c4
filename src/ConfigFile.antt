-- ===== src/ConfigFile.antt =====
-- monitorset.c: `LoadConfig` and `SaveConfig`, over the driver's file functions of fileop.c. The file
-- is the list of the blocks in it, at their offsets: of two writes that overlap the later one stands,
-- and a read is complete where exactly one block was written. Sizes are those of x86-64.
pub mod Blocks
pub mod Frame
pub mod Saved
pub mod Loaded
pub mod RoundTrip
use github_upload.Base.{
  ℕ, zero, suc, ◌+◌, ◌*◌, ◌/◌, ◌%◌, ◌^◌, List, [], ◌∷◌, Bool, true, false, ◌&&◌, ◌||◌, Option, none,
  some, ok, ℤ, pos, leb, ◌==◌, if◌then◌else◌,
}
use github_upload.Entries.{SetEntry, FileEntry}
use github_upload.Rb.{Tree, to_list}
use github_upload.Rb.Sets.{ms_search, ms_insert}
use github_upload.Rb.Files.{mi_insert}
use github_upload.Driver.{
  Kernel, M, pure, fault, ◌>>=◌, ◌>>◌, check_or, ConfigHeader, Block, header_block, set_block,
  file_block, alloc, next_io,
}

-- `sizeof(CONFIG_FILE_HEADER)`, `sizeof(MONITOR_SET_ENTRY)`, `sizeof(MONITOR_FILE_ENTRY)`.
abbrev pub header_size : ℕ
header_size = 24

abbrev pub set_size : ℕ
set_size = 312

abbrev pub file_size : ℕ
file_size = 332

abbrev pub u32 : ℕ → ℕ
u32 n = n % 2 ^ 32

abbrev pub size_of : Block → ℕ
size_of (header_block h) = header_size
size_of (set_block e) = set_size
size_of (file_block e) = file_size

-- The blocks that writing `size` bytes at `offset` leaves alone.
unfoldable pub clear : ℕ → ℕ → List (ℕ × Block) → List (ℕ × Block)
clear offset size [] = []
clear offset size ((o, b) ∷ f) =
    if leb (o + size_of b) offset || leb (offset + size) o
    then (o, b) ∷ clear offset size f
    else clear offset size f

unfoldable read_at : ℕ → List (ℕ × Block) → Option Block
read_at offset [] = none
read_at offset ((o, b) ∷ f) = if o == offset then some b else read_at offset f

-- Is there a file once it has been opened, and what does it hold?
abbrev present : Bool → Option (List (ℕ × Block)) → Bool
present creates none = creates
present creates (some f) = true

abbrev contents : Option (List (ℕ × Block)) → List (ℕ × Block)
contents none = []
contents (some f) = f

-- `file_open` of /etc/rtb.cnf: did it give a file? Only with O_CREAT is a missing file made.
unfoldable pub open_cnf : Bool → M Bool
unfolding next_io
open_cnf creates = next_io >>= λ done d. elim (done && present creates d.cnf) [
  | true ↦ ok (true, record d { cnf = some (contents d.cnf) })
  | false ↦ ok (false, d)
]

-- `file_write` of a block: a write that comes out short spoils the place.
unfoldable pub file_write : ℕ → Block → M Bool
unfolding next_io clear
file_write offset b = next_io >>= λ done d. elim d.cnf [
  | none ↦ ok (false, d)
  | some f ↦
      let rest = clear offset (size_of b) f in
      elim done [
        | true ↦ ok (true, record d { cnf = some ((offset, b) ∷ rest) })
        | false ↦ ok (false, record d { cnf = some rest })
      ]
]

-- `file_read`: the block at an offset, `none` for a read that comes out short.
unfoldable file_read : ℕ → M (Option Block)
unfolding next_io read_at
file_read offset = next_io >>= λ done d. elim d.cnf [
  | none ↦ ok (none, d)
  | some f ↦ elim done [ true ↦ ok (read_at offset f, d) | false ↦ ok (none, d) ]
]

-- One of the two loops of `SaveConfig`: the offset and the size that they end with, or `none` for
-- `goto out`.
unfoldable pub write_all : {A : Type 0} → (A → Block) → ℕ → List A → ℕ → ℕ → M (Option (ℕ × ℕ))
unfolding file_write
write_all mk size [] offset total = pure (some (offset, total))
write_all mk size (x ∷ xs) offset total = file_write offset (mk x) >>= λ done. elim done [
  | true ↦ write_all mk size xs (u32 (offset + size)) (u32 (total + size))
  | false ↦ pure none
]

-- The header as `SaveConfig` writes it first, with no sizes.
abbrev pub bare_header : ℕ → ConfigHeader
bare_header shutdown = record {
  header_size = header_size;
  offset_set = 0;
  size_set = 0;
  offset_files = 0;
  size_files = 0;
  last_shutdown = shutdown;
}

-- The header as it is written again at the end.
abbrev pub full_header : ℕ → ℕ → ℕ → ℕ → ConfigHeader
full_header shutdown size_set offset_files size_files = record {
  header_size = header_size;
  offset_set = header_size;
  size_set = size_set;
  offset_files = offset_files;
  size_files = size_files;
  last_shutdown = shutdown;
}

-- `SaveConfig` behind its second loop.
unfoldable pub save_header : ℕ → ℕ → ℕ → Option (ℕ × ℕ) → M ℤ
unfolding file_write
save_header shutdown size_set offset_files none = pure (pos 0)
save_header shutdown size_set offset_files (some (end, size_files)) =
    file_write 0 (header_block (full_header shutdown size_set offset_files size_files))
    >> pure (pos 0)

-- `SaveConfig` behind its first loop.
unfoldable pub save_files : ℕ → Tree FileEntry → Option (ℕ × ℕ) → M ℤ
unfolding write_all save_header to_list
save_files shutdown files none = pure (pos 0)
save_files shutdown files (some (offset_files, size_set)) =
    write_all file_block file_size (to_list files) offset_files 0
    >>= save_header shutdown size_set offset_files

-- `SaveConfig`. Its result is 0 on every path.
unfoldable pub save_config : M ℤ
unfolding open_cnf file_write write_all save_files to_list
save_config d =
    check_or (open_cnf false) (pos 0)
      (check_or (file_write 0 (header_block (bare_header d.last_shutdown))) (pos 0) (
        write_all set_block set_size (to_list d.sets) header_size 0
        >>= save_files d.last_shutdown d.files))
      d

-- What an insertion leaves where its result is not looked at.
abbrev pub tree_or : {A : Type 0} → Tree A → Option (Tree A) → Tree A
tree_or t none = t
tree_or t (some u) = u

-- `LoadConfig` takes the entries from the file with the addresses that it has allocated for them. The
-- loops return `false` for `goto out`.
module _ (k : Kernel) where
  -- The body of the loop over the sets behind `file_read` and behind the allocation; `next` is the rest
  -- of the loop.
  unfoldable set_read : ℕ → M Bool → Option Block → M Bool
  unfolding ms_insert
  set_read p next none = pure false
  set_read p next (some (header_block h)) = pure false
  set_read p next (some (file_block e)) = pure false
  set_read p next (some (set_block e)) = λ d.
      next (record d { sets = tree_or d.sets (ms_insert k.set_rb d.sets (record e { addr = p })) })

  unfoldable set_alloc : ℕ → M Bool → Option ℕ → M Bool
  unfolding file_read set_read
  set_alloc offset next none = pure false
  set_alloc offset next (some p) = file_read offset >>= set_read p next

  unfoldable load_sets : ℕ → ℕ → ℕ → M Bool
  unfolding alloc set_alloc
  load_sets zero i offset = pure true
  load_sets (suc n) i offset =
      alloc >>= set_alloc (offset + i * set_size) (load_sets n (suc i) offset)

  -- The same for the files. A file whose set is not there is freed again.
  unfoldable file_linked : ℕ → FileEntry → M Bool → Option SetEntry → M Bool
  unfolding mi_insert
  file_linked p e next none = next
  file_linked p e next (some s) = λ d. next (record d {
    files =
        tree_or d.files
          (mi_insert k.file_rb d.files (record e { addr = p; set_entry = some s.addr }));
  })

  unfoldable entry_read : ℕ → M Bool → Option Block → M Bool
  unfolding ms_search file_linked
  entry_read p next none = pure false
  entry_read p next (some (header_block h)) = pure false
  entry_read p next (some (set_block e)) = pure false
  entry_read p next (some (file_block e)) = λ d. file_linked p e next (ms_search d.sets e.guid) d

  unfoldable file_alloc : ℕ → M Bool → Option ℕ → M Bool
  unfolding file_read entry_read
  file_alloc offset next none = pure false
  file_alloc offset next (some p) = file_read offset >>= entry_read p next

  unfoldable load_files : ℕ → ℕ → ℕ → M Bool
  unfolding alloc file_alloc
  load_files zero i offset = pure true
  load_files (suc n) i offset =
      alloc >>= file_alloc (offset + i * file_size) (load_files n (suc i) offset)

  -- `LoadConfig` behind its first `file_read`.
  unfoldable load_body : Option Block → M ℤ
  unfolding load_sets load_files
  load_body none = pure (pos 0)
  load_body (some (set_block e)) = pure (pos 0)
  load_body (some (file_block e)) = pure (pos 0)
  load_body (some (header_block h)) = λ d.
      check_or (load_sets (h.size_set / set_size) 0 h.offset_set) (pos 0)
        (check_or (load_files (h.size_files / file_size) 0 h.offset_files) (pos 0) (pure (pos 0)))
        (record d { last_shutdown = h.last_shutdown })

  -- `LoadConfig`. When the file cannot be opened, `out` closes the error pointer: `if(filep)` is no
  -- test for that.
  unfoldable pub load_config : M ℤ
  unfolding open_cnf file_read load_body
  load_config =
      open_cnf true >>= λ opened. elim opened [ false ↦ fault | true ↦ file_read 0 >>= load_body ]
