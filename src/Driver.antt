-- ===== src/Driver.antt =====
-- The driver's state, `FileReplData` of fruk.h and what it reaches, and the monad over it.
use github_upload.Base.{
  ℕ, ◌+◌, List, [], ◌∷◌, Bool, true, false, Option, none, some, Outcome, ok, wild, unfinished, ℤ,
  ◌≡◌, ap,
}
use github_upload.Entries.{SetEntry, FileEntry, set_addr, file_addr}
use github_upload.Rb.{Tree, RbOps}
use github_upload.LogFile.{LogFile}

-- `IOWRITE_CONTEXT`: a log file that waits to be written.
pub record IoWriteContext : Type 0 where
  pub iologpath : List ℕ
  pub logfile : LogFile

-- `CONFIG_FILE_HEADER` of /etc/rtb.cnf.
pub record ConfigHeader : Type 0 where
  pub header_size : ℕ
  pub offset_set : ℕ
  pub size_set : ℕ
  pub offset_files : ℕ
  pub size_files : ℕ
  pub last_shutdown : ℕ

-- What the driver writes to /etc/rtb.cnf, each in one `file_write`.
pub data Block : Type 0 where
  header_block : ConfigHeader → Block
  set_block : SetEntry → Block
  file_block : FileEntry → Block

-- A `FILEREPL_NOTIFICATION` sent to user space by `notify_user_status`: its type and status.
pub record Notice : Type 0 where
  pub type : ℕ
  pub status : ℤ

-- `FILEREPL_DATA` with its `FILEREPL_CONFIG`, and the part of the system that the driver works on:
-- `allocs` and `io` are the outcomes of the allocations and file operations to come (an empty list
-- means that they succeed), `next_addr` the next address that an allocation gives, `cnf` the file
-- /etc/rtb.cnf by its blocks at their offsets, `logs` the io logs on disk, the latest first, and
-- `sent` the notices to user space, the latest first.
pub record Driver : Type 0 where
  pub files : Tree FileEntry
  pub files_count : ℕ
  pub sets : Tree SetEntry
  pub sets_count : ℕ
  pub valid : Bool
  pub normal_running : Bool
  pub last_shutdown : ℕ
  pub stop_task : Bool
  pub queue : List IoWriteContext
  pub next_addr : ℕ
  pub allocs : List Bool
  pub io : List Bool
  pub cnf : Option (List (ℕ × Block))
  pub logs : List IoWriteContext
  pub sent : List Notice

-- The kernel: its two red-black trees, and the `int` to which `ConfigAddMonitorSet` cuts the address
-- of its local buffer, `status = strncat(mfe.wcsMonitorFile, ...)`; and the error that a failed open
-- comes back with.
pub record Kernel : Type 0 where
  pub set_rb : RbOps set_addr
  pub file_rb : RbOps file_addr
  pub buffer_status : ℤ
  pub open_status : ℤ

abbrev pub M : Type 0 → Type 0
M A = Driver → Outcome (A × Driver)

abbrev pub pure : {A : Type 0} → A → M A
pure a d = ok (a, d)

abbrev pub fault : {A : Type 0} → M A
fault d = wild

infixl 5 ◌>>=◌ ◌>>◌
abbrev pub ◌>>=◌ : {A B : Type 0} → M A → (A → M B) → M B
◌>>=◌ m f d = elim (m d) [ ok (a, d') ↦ f a d' | wild ↦ wild | unfinished ↦ unfinished ]

abbrev pub ◌>>◌ : {A B : Type 0} → M A → M B → M B
m >> k = m >>= λ _. k

-- `if (!test) goto out;` where `out` returns `exit`.
abbrev pub check_or : {A : Type 0} → M Bool → A → M A → M A
check_or test exit rest = test >>= λ b. elim b [ true ↦ rest | false ↦ pure exit ]

-- The next outcome of a list that stands for the system's answers.
abbrev pub next_answer : List Bool → Bool × List Bool
next_answer [] = (true, [])
next_answer (b ∷ bs) = (b, bs)

-- `kmem_cache_zalloc`, `kmalloc`, `kzalloc`, `vmalloc`: the address, or `none` for NULL.
unfoldable pub alloc : M (Option ℕ)
alloc d =
    let (b, rest) = next_answer d.allocs in
    elim b [
      | true ↦ ok (some d.next_addr, record d { next_addr = d.next_addr + 1; allocs = rest })
      | false ↦ ok (none, record d { allocs = rest })
    ]

-- The outcome of the file operation that comes next.
unfoldable pub next_io : M Bool
next_io d = let (b, rest) = next_answer d.io in ok (b, record d { io = rest })

-- A computation goes on from the value and the state that its first part comes to.
pub bind-ok :
    {A B : Type 0} (m : M A) (f : A → M B) (d u : Driver) (a : A)
    → m d ≡ ok (a, u)
    → (m >>= f) d ≡ f a u
bind-ok m f d u a h =
    ap (λ o. elim o [ ok (a, d') ↦ f a d' | wild ↦ wild | unfinished ↦ unfinished ]) h
