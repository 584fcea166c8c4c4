-- ===== src/MonitorSet/Sequence.antt =====
-- monitorset.c: `GetMonitorFileSeqNoByMonitorFileEntry`, the numbers and the time of an io log.
use github_upload.Base.{
  ℕ, ◌+◌, ◌*◌, ◌/◌, ◌%◌, ◌^◌, List, [], none, some, ok, wild, ℤ, pos, negsuc, ◌==◌, if◌then◌else◌,
  ltb,
}
use github_upload.Entries.{SetEntry, FileEntry, set_addr, file_addr}
use github_upload.Rb.{Tree, leaf, node, entry_at, to_list}
use github_upload.Rb.Sets.{ms_search}
use github_upload.Driver.{Driver, M}

abbrev pub u64 : ℕ → ℕ
u64 n = n % 2 ^ 64

-- `struct timespec`.
pub record Timespec : Type 0 where
  pub sec : ℕ
  pub nsec : ℕ

-- What the call hands out: the file's number, the set's number, the time and the log directory.
pub record Stamp : Type 0 where
  pub seq_no : ℕ
  pub global_seq_no : ℕ
  pub time : ℕ
  pub iologdir : List ℕ

-- The callers' variables before the call.
abbrev no_stamp : Stamp
no_stamp = record { seq_no = 0; global_seq_no = 0; time = 0; iologdir = [] }

-- A write through a pointer to an entry of the tree.
unfoldable pub update_at : {A : Type 0} → (A → ℕ) → ℕ → (A → A) → Tree A → Tree A
update_at addr p f leaf = leaf
update_at addr p f (node l a r) =
    node (update_at addr p f l) (if addr a == p then f a else a) (update_at addr p f r)

-- The time in units of 100 nanoseconds.
abbrev pub log_time : Timespec → ℕ
log_time ts = u64 (u64 (u64 (ts.sec * 1000) * 10000) + ts.nsec / 100)

-- The two numbers are handed out and counted up, with the set entry at hand.
unfoldable pub take_numbers : FileEntry → SetEntry → Timespec → Driver → Driver × Stamp
unfolding update_at
take_numbers e s ts d = (
  record d {
    files =
        update_at file_addr e.addr
          (λ x. record x { seq_no = u64 (e.seq_no + 1); set_entry = some s.addr }) d.files;
    sets = update_at set_addr s.addr (λ x. record x { seq_no = u64 (s.seq_no + 1) }) d.sets;
  },
  record {
    seq_no = e.seq_no;
    global_seq_no = s.seq_no;
    time = log_time ts;
    iologdir = s.cache_dir;
  },
)

-- `GetMonitorFileSeqNoByMonitorFileEntry` with the file entry at `p`. A pointer that leads to no
-- entry of its tree is `wild`; a NULL `pSetEntry` is looked up by GUID, as `GetMonitorSetEntry` does.
unfoldable pub get_monitor_file_seq_no : ℕ → Timespec → M (ℤ × Stamp)
unfolding take_numbers entry_at ms_search to_list
get_monitor_file_seq_no p ts d = elim (entry_at file_addr p (to_list d.files)) [
  | none ↦ wild
  | some e ↦ elim e.set_entry [
    | some q ↦ elim (entry_at set_addr q (to_list d.sets)) [
      | none ↦ wild
      | some s ↦ let (d', stamp) = take_numbers e s ts d in ok ((pos 0, stamp), d')
    ]
    | none ↦ elim (if ltb 0 d.sets_count then ms_search d.sets e.guid else none) [
      | none ↦ ok ((negsuc 2, no_stamp), d)
      | some s ↦ let (d', stamp) = take_numbers e s ts d in ok ((pos 0, stamp), d')
    ]
  ]
]
