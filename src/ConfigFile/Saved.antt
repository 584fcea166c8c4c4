-- ===== src/ConfigFile/Saved.antt =====
-- monitorset.c: the file that a `SaveConfig` leaves whose operations all succeed.
use github_upload.Base.{
  ℕ, ◌+◌, ◌*◌, ◌^◌, ◌<◌, List, [], Bool, true, false, some, ok, ℤ, pos, ◌≡◌, refl, arith, length,
  ◌∙◌,
}
use github_upload.Entries.{SetEntry, FileEntry}
use github_upload.Rb.{to_list}
use github_upload.Driver.{
  Driver, Block, header_block, set_block, file_block, M, pure, ◌>>=◌, bind-ok, next_io, check_or,
}
use github_upload.ConfigFile.{
  header_size, set_size, file_size, read_at, open_cnf, file_write, write_all, bare_header,
  full_header, save_header, save_files, save_config,
}
use github_upload.ConfigFile.Blocks.{
  written, write_blocks, Stored, read_at-written_self, write_blocks-Stored, Stored-written,
  write_all-blocks_0, Stored-write_blocks, file_write-done,
}

pub open_cnf-done :
    (creates : Bool) (d : Driver) (f : List (ℕ × Block))
    → d.io ≡ []
    → d.cnf ≡ some f
    → open_cnf creates d ≡ ok (true, record d { cnf = some f })
unfolding open_cnf next_io
open_cnf-done creates d f i c = ground arith

-- The sets and the files as the configuration holds them.
abbrev pub SetsStored : List SetEntry → ℕ → List (ℕ × Block) → Type 0
SetsStored = Stored set_block set_size

abbrev pub FilesStored : List FileEntry → ℕ → List (ℕ × Block) → Type 0
FilesStored = Stored file_block file_size

abbrev write_sets : List SetEntry → ℕ → List (ℕ × Block) → List (ℕ × Block)
write_sets = write_blocks set_block set_size

abbrev write_files : List FileEntry → ℕ → List (ℕ × Block) → List (ℕ × Block)
write_files = write_blocks file_block file_size

-- The configuration of these sets and files.
pub record Configured (shutdown : ℕ) (sets : List SetEntry) (files : List FileEntry)
    (g : List (ℕ × Block)) : Type 0 where
  pub header :
      read_at 0 g
      ≡ some (
          header_block (
            full_header shutdown
              (set_size * length sets)
              (header_size + set_size * length sets)
              (file_size * length files)))
  pub sets_stored : SetsStored sets header_size g
  pub files_stored : FilesStored files (header_size + set_size * length sets) g

module _ (d : Driver) (f : List (ℕ × Block)) (i : d.io ≡ []) (c : d.cnf ≡ some f)
    (fits : header_size + set_size * length (to_list d.sets) + file_size * length (to_list d.files)
      < 2 ^ 32) where
  sets : List SetEntry
  sets = to_list d.sets

  files : List FileEntry
  files = to_list d.files

  behind_sets : ℕ
  behind_sets = header_size + set_size * length sets

  with_sets : List (ℕ × Block)
  with_sets = write_sets sets header_size (written 0 (header_block (bare_header d.last_shutdown)) f)

  with_files : List (ℕ × Block)
  with_files = write_files files behind_sets with_sets

  saved : List (ℕ × Block)
  saved =
      written 0
        (header_block (
          full_header d.last_shutdown (set_size * length sets) behind_sets
            (file_size * length files)))
        with_files

  -- Every entry can be read at its place.
  saved-Configured : Configured d.last_shutdown sets files saved
  unfolding saved with_files with_sets behind_sets sets files
  saved-Configured = record {
    header = read_at-written_self 0 _ with_files;
    sets_stored =
        Stored-written set_block set_size (λ e. refl) (omega arith) sets header_size 0 _ with_files
          (omega arith) (omega arith)
          (Stored-write_blocks set_block set_size (λ e. refl) (omega arith) file_block file_size
            (λ e. refl) (omega arith) sets files header_size behind_sets with_sets (omega arith)
            (write_blocks-Stored set_block set_size (λ e. refl) (omega arith) sets header_size _));
    files_stored =
        Stored-written file_block file_size (λ e. refl) (omega arith) files behind_sets 0 _
          with_files (omega arith) (omega arith)
          (write_blocks-Stored file_block file_size (λ e. refl) (omega arith) files behind_sets
            with_sets);
  }

  on_disk : List (ℕ × Block) → Driver
  on_disk g = record d { cnf = some g }

  bare : Block
  bare = header_block (bare_header d.last_shutdown)

  full : Block
  full =
      header_block (
        full_header d.last_shutdown (set_size * length sets) behind_sets (file_size * length files))

  -- `SaveConfig` behind its first and its second step.
  from_sets : M ℤ
  from_sets = write_all set_block set_size sets header_size 0 >>= save_files d.last_shutdown d.files

  save_config-run : save_config d ≡ ok (pos 0, on_disk saved)
  unfolding save_config save_files save_header saved with_files with_sets behind_sets sets files
      on_disk bare full from_sets
  save_config-run =
      bind-ok (open_cnf false)
        (elim [ true ↦ check_or (file_write 0 bare) (pos 0) from_sets | false ↦ pure (pos 0) ]) d
        (on_disk f) true (open_cnf-done false d f i c)
      ∙ bind-ok (file_write 0 bare) (elim [ true ↦ from_sets | false ↦ pure (pos 0) ]) (on_disk f)
          (on_disk (written 0 bare f)) true (file_write-done 0 bare (on_disk f) f i refl)
      ∙ bind-ok (write_all set_block set_size sets header_size 0)
          (save_files d.last_shutdown d.files) (on_disk (written 0 bare f)) (on_disk with_sets)
          (some (behind_sets, set_size * length sets))
          (write_all-blocks_0 set_block set_size (λ e. refl) (omega arith) sets header_size
            (on_disk (written 0 bare f)) (written 0 bare f) i refl (omega arith))
      ∙ bind-ok (write_all file_block file_size files behind_sets 0)
          (save_header d.last_shutdown (set_size * length sets) behind_sets) (on_disk with_sets)
          (on_disk with_files)
          (some (behind_sets + file_size * length files, file_size * length files))
          (write_all-blocks_0 file_block file_size (λ e. refl) (omega arith) files behind_sets
            (on_disk with_sets) with_sets i refl (omega arith))
      ∙ bind-ok (file_write 0 full) (λ _. pure (pos 0)) (on_disk with_files) (on_disk saved) true
          (file_write-done 0 full (on_disk with_files) with_files i refl)

-- A `SaveConfig` whose operations all succeed, on a file that is there and with sizes that fit their 32
-- bits, returns 0 and leaves the header, the sets and the files at their places in the file.
pub save_config-saves :
    (d : Driver) (f : List (ℕ × Block))
    → d.io ≡ []
    → d.cnf ≡ some f
    → header_size + set_size * length (to_list d.sets) + file_size * length (to_list d.files)
      < 2 ^ 32
    → (g : List (ℕ × Block)) × (save_config d ≡ ok (pos 0, record d { cnf = some g }))
      × Configured d.last_shutdown (to_list d.sets) (to_list d.files) g
unfolding saved on_disk sets files
save_config-saves d f i c fits =
    (saved d f i c fits, save_config-run d f i c fits, saved-Configured d f i c fits)
