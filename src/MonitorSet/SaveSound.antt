-- ===== src/MonitorSet/SaveSound.antt =====
-- What only saves the configuration, allocates, logs or notifies keeps the invariant of the trees.
use github_upload.Base.{ℕ, Option, none, some, List, [], ◌∷◌, arith, Bool, true, false, ℤ, pos}
use github_upload.Rb.{Tree, to_list}
use github_upload.Driver.{
  Driver, Block, M, pure, alloc, next_io, check_or, set_block, file_block, header_block,
}
use github_upload.Entries.{FileEntry}
use github_upload.IoLog.WriteThread.{notify_user_status}
use github_upload.ConfigFile.{
  open_cnf, file_write, write_all, save_config, save_files, save_header, bare_header, full_header,
  set_size, file_size, header_size,
}
use github_upload.MonitorSet.Sound.{Keeps, Keeps-bind, Keeps-pure, same_trees}

pub alloc-Keeps : Keeps alloc
unfolding alloc
alloc-Keeps = record {
  run = λ d a u s e. same_trees d u (ground arith) (ground arith) (ground arith) s;
  ends = λ d s e. ground arith;
}

pub next_io-Keeps : Keeps next_io
unfolding next_io
next_io-Keeps = record {
  run = λ d a u s e. same_trees d u (ground arith) (ground arith) (ground arith) s;
  ends = λ d s e. ground arith;
}

open_cnf-Keeps : (creates : Bool) → Keeps (open_cnf creates)
unfolding open_cnf
open_cnf-Keeps creates = record {
  run = λ d a u s e. same_trees d u (ground arith) (ground arith) (ground arith) s;
  ends = λ d s e. ground arith;
}

file_write-Keeps : (offset : ℕ) (b : Block) → Keeps (file_write offset b)
unfolding file_write
file_write-Keeps offset b = record {
  run = λ d a u s e. same_trees d u (ground arith) (ground arith) (ground arith) s;
  ends = λ d s e. ground arith;
}

write_all-Keeps :
    {A : Type 0} (mk : A → Block) (size : ℕ) (xs : List A) (offset total : ℕ)
    → Keeps (write_all mk size xs offset total)
unfolding write_all
write_all-Keeps mk size [] offset total = Keeps-pure (some (offset, total))
write_all-Keeps mk size (x ∷ xs) offset total =
    Keeps-bind (file_write offset (mk x)) _ (file_write-Keeps offset (mk x))
      (elim [ true ↦ write_all-Keeps mk size xs _ _ | false ↦ Keeps-pure none ])

check_or-Keeps :
    {A : Type 0} (test : M Bool) (exit : A) (rest : M A)
    → Keeps test
    → Keeps rest
    → Keeps (check_or test exit rest)
check_or-Keeps test exit rest t r =
    Keeps-bind test _ t (elim [ true ↦ r | false ↦ Keeps-pure exit ])

-- `m` may look at the state before it runs.
pub Keeps-at : {A : Type 0} (m : Driver → M A) → ((d : Driver) → Keeps (m d)) → Keeps (λ d. m d d)
Keeps-at m h = record { run = λ d. (h d).run d; ends = λ d. (h d).ends d }

save_header-Keeps : (n s o : ℕ) (r : Option (ℕ × ℕ)) → Keeps (save_header n s o r)
unfolding save_header
save_header-Keeps n s o none = Keeps-pure (pos 0)
save_header-Keeps n s o (some (end, m)) =
    Keeps-bind (file_write 0 (header_block (full_header n s o m))) (λ _. pure (pos 0))
      (file_write-Keeps 0 (header_block (full_header n s o m))) (λ _. Keeps-pure (pos 0))

save_files-Keeps : (n : ℕ) (t : Tree FileEntry) (r : Option (ℕ × ℕ)) → Keeps (save_files n t r)
unfolding save_files
save_files-Keeps n t none = Keeps-pure (pos 0)
save_files-Keeps n t (some (o, s)) =
    Keeps-bind (write_all file_block file_size (to_list t) o 0) (save_header n s o)
      (write_all-Keeps file_block file_size (to_list t) o 0) (save_header-Keeps n s o)

pub save_config-Keeps : Keeps save_config
unfolding save_config
save_config-Keeps = Keeps-at _ λ d.
    check_or-Keeps (open_cnf false) (pos 0) _ (open_cnf-Keeps false) (
      check_or-Keeps (file_write 0 (header_block (bare_header d.last_shutdown))) (pos 0) _
        (file_write-Keeps 0 (header_block (bare_header d.last_shutdown)))
        (Keeps-bind (write_all set_block set_size (to_list d.sets) header_size 0)
          (save_files d.last_shutdown d.files)
          (write_all-Keeps set_block set_size (to_list d.sets) header_size 0)
          (save_files-Keeps d.last_shutdown d.files)))

pub notify_user_status-Keeps : (type : ℕ) (status : ℤ) → Keeps (notify_user_status type status)
unfolding notify_user_status
notify_user_status-Keeps type status = record {
  run = λ d a u s e. same_trees d u (ground arith) (ground arith) (ground arith) s;
  ends = λ d s e. ground arith;
}
