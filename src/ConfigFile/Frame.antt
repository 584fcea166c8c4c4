-- ===== src/ConfigFile/Frame.antt =====
-- monitorset.c and fileop.c: `SaveConfig` comes back whatever the file operations come to, and changes
-- nothing but the configuration file.
use github_upload.Base.{
  ℕ, Option, none, some, List, [], ◌∷◌, Bool, true, false, ◌&&◌, pos, ok, Outcome, ◌≡◌, refl, ◌∙◌,
  inl, inr, Bool-cases,
}
use github_upload.Rb.{Tree, to_list}
use github_upload.Entries.{FileEntry}
use github_upload.Driver.{
  Driver, Block, M, pure, ◌>>=◌, bind-ok, next_answer, next_io, check_or, set_block, file_block,
  header_block,
}
use github_upload.ConfigFile.{
  open_cnf, present, contents, file_write, write_all, save_config, save_files, save_header,
  bare_header, full_header, set_size, file_size, header_size, clear, size_of,
}

-- It comes back, with the state as it was but for the file and the operations that are left.
abbrev pub OnlyFile : {A : Type 0} → M A → Type 0
OnlyFile {A} m =
    (d : Driver)
    → (a : A) × (io : List Bool) × (f : Option (List (ℕ × Block))) × (m d
        ≡ ok (a, record d { io = io; cnf = f }))

OnlyFile-pure : {A : Type 0} (a : A) → OnlyFile (pure a)
OnlyFile-pure a d = (a, d.io, d.cnf, refl)

OnlyFile-bind :
    {A B : Type 0} (m : M A) (next : A → M B)
    → OnlyFile m
    → ((a : A) → OnlyFile (next a))
    → OnlyFile (m >>= next)
OnlyFile-bind m next h n d =
    let (a, io, f, e) = h d in
    let (b, io', f', e') = n a (record d { io = io; cnf = f }) in
    (b, io', f', bind-ok m next d (record d { io = io; cnf = f }) a e ∙ e')

next_io-OnlyFile : OnlyFile next_io
unfolding next_io
next_io-OnlyFile d = ((next_answer d.io).0, (next_answer d.io).1, d.cnf, refl)

open_cnf-OnlyFile : (creates : Bool) → OnlyFile (open_cnf creates)
unfolding open_cnf
open_cnf-OnlyFile creates =
    OnlyFile-bind next_io
      (λ done d. elim (done && present creates d.cnf) as (λ _. Outcome (Bool × Driver)) [
        | true ↦ ok (true, record d { cnf = some (contents d.cnf) })
        | false ↦ ok (false, d)
      ])
      next_io-OnlyFile
      λ done d. elim (Bool-cases (done && present creates d.cnf)) [
        | inl e ↦ (true, d.io, some (contents d.cnf), rw e refl)
        | inr e ↦ (false, d.io, d.cnf, rw e refl)
      ]

-- `file_write` behind the outcome of the operation.
written_to : ℕ → Block → Bool → Driver → Option (List (ℕ × Block)) → Outcome (Bool × Driver)
written_to offset b done d none = ok (false, d)
written_to offset b done d (some f) =
    let rest = clear offset (size_of b) f in
    elim done [
      | true ↦ ok (true, record d { cnf = some ((offset, b) ∷ rest) })
      | false ↦ ok (false, record d { cnf = some rest })
    ]

written_to-OnlyFile :
    (offset : ℕ) (b : Block) (done : Bool) (d : Driver) (o : Option (List (ℕ × Block)))
    → (a : Bool) × (io : List Bool) × (f : Option (List (ℕ × Block))) × (written_to offset b done d
          o
        ≡ ok (a, record d { io = io; cnf = f }))
unfolding written_to
written_to-OnlyFile offset b done d none = (false, d.io, d.cnf, refl)
written_to-OnlyFile offset b true d (some f) = (true, d.io, _, refl)
written_to-OnlyFile offset b false d (some f) = (false, d.io, _, refl)

written_to-elim :
    (offset : ℕ) (b : Block) (done : Bool) (d : Driver) (o : Option (List (ℕ × Block)))
    → elim o as (λ _. Outcome (Bool × Driver)) [
      | none ↦ ok (false, d)
      | some f ↦ elim done as (λ _. Outcome (Bool × Driver)) [
        | true ↦ ok (true, record d { cnf = some ((offset, b) ∷ clear offset (size_of b) f) })
        | false ↦ ok (false, record d { cnf = some (clear offset (size_of b) f) })
      ]
    ]
      ≡ written_to offset b done d o
unfolding written_to
written_to-elim offset b done d none = refl
written_to-elim offset b done d (some f) = refl

file_write-to :
    (offset : ℕ) (b : Block) (d : Driver)
    → file_write offset b d ≡ (next_io >>= λ done u. written_to offset b done u u.cnf) d
unfolding file_write next_io
file_write-to offset b d =
    written_to-elim offset b (next_answer d.io).0 (record d { io = (next_answer d.io).1 }) d.cnf

file_write-OnlyFile : (offset : ℕ) (b : Block) → OnlyFile (file_write offset b)
file_write-OnlyFile offset b d =
    let (a, io, f, e) =
      OnlyFile-bind next_io (λ done u. written_to offset b done u u.cnf) next_io-OnlyFile
        (λ done u. written_to-OnlyFile offset b done u u.cnf) d in
    (a, io, f, file_write-to offset b d ∙ e)

write_all-OnlyFile :
    {A : Type 0} (mk : A → Block) (size : ℕ) (xs : List A) (offset total : ℕ)
    → OnlyFile (write_all mk size xs offset total)
unfolding write_all
write_all-OnlyFile mk size [] offset total = OnlyFile-pure (some (offset, total))
write_all-OnlyFile mk size (x ∷ xs) offset total =
    OnlyFile-bind (file_write offset (mk x)) _ (file_write-OnlyFile offset (mk x))
      (elim [ true ↦ write_all-OnlyFile mk size xs _ _ | false ↦ OnlyFile-pure none ])

check_or-OnlyFile :
    {A : Type 0} (test : M Bool) (exit : A) (rest : M A)
    → OnlyFile test
    → OnlyFile rest
    → OnlyFile (check_or test exit rest)
check_or-OnlyFile test exit rest t r =
    OnlyFile-bind test _ t (elim [ true ↦ r | false ↦ OnlyFile-pure exit ])

save_header-OnlyFile : (n s o : ℕ) (r : Option (ℕ × ℕ)) → OnlyFile (save_header n s o r)
unfolding save_header
save_header-OnlyFile n s o none = OnlyFile-pure (pos 0)
save_header-OnlyFile n s o (some (end, m)) =
    OnlyFile-bind (file_write 0 (header_block (full_header n s o m))) (λ _. pure (pos 0))
      (file_write-OnlyFile 0 (header_block (full_header n s o m))) (λ _. OnlyFile-pure (pos 0))

save_files-OnlyFile :
    (n : ℕ) (t : Tree FileEntry) (r : Option (ℕ × ℕ)) → OnlyFile (save_files n t r)
unfolding save_files
save_files-OnlyFile n t none = OnlyFile-pure (pos 0)
save_files-OnlyFile n t (some (o, s)) =
    OnlyFile-bind (write_all file_block file_size (to_list t) o 0) (save_header n s o)
      (write_all-OnlyFile file_block file_size (to_list t) o 0) (save_header-OnlyFile n s o)

pub save_config-OnlyFile : OnlyFile save_config
unfolding save_config
save_config-OnlyFile d =
    check_or-OnlyFile (open_cnf false) (pos 0) _ (open_cnf-OnlyFile false)
      (check_or-OnlyFile (file_write 0 (header_block (bare_header d.last_shutdown))) (pos 0) _
        (file_write-OnlyFile 0 (header_block (bare_header d.last_shutdown)))
        (OnlyFile-bind (write_all set_block set_size (to_list d.sets) header_size 0)
          (save_files d.last_shutdown d.files)
          (write_all-OnlyFile set_block set_size (to_list d.sets) header_size 0)
          (save_files-OnlyFile d.last_shutdown d.files)))
      d
