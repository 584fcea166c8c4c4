-- ===== src/MonitorSet/Numbers.antt =====
-- monitorset.c: the numbers that `GetMonitorFileSeqNoByMonitorFileEntry` hands out.
use github_upload.Base.{
  subst, ℕ, ◌+◌, List, [], ◌∷◌, some, ok, pos, ◌==◌, ◌≡◌, refl, arith, ap, sym, ◌∙◌, Bool-cases,
  inl, inr,
}
use github_upload.Entries.{SetEntry, FileEntry, set_addr, file_addr}
use github_upload.Rb.{Tree, to_list, entry_at}
use github_upload.Driver.{Driver}
use github_upload.MonitorSet.Sequence.{
  u64, Timespec, update_at, take_numbers, get_monitor_file_seq_no, log_time,
}
use github_upload.MonitorSet.Trees.{to_list-update_at, patched}

entry_at-patched :
    {A : Type 0} (addr : A → ℕ) (p : ℕ) (f : A → A) (xs : List A) (a : A)
    → addr (f a) ≡ p
    → entry_at addr p xs ≡ some a
    → entry_at addr p (patched addr p f xs) ≡ some (f a)
unfolding entry_at
entry_at-patched addr p f [] a k h = cc
entry_at-patched addr p f (x ∷ xs) a k h = elim (Bool-cases (addr x == p)) [
  | inl e ↦ let q : x ≡ a = ground arith in rw e (rw q (ground arith))
  | inr e ↦ rw e (ground (arith, entry_at-patched addr p f xs a k))
]

entry_at_addr :
    {A : Type 0} (addr : A → ℕ) (p : ℕ) (xs : List A) (a : A)
    → entry_at addr p xs ≡ some a
    → addr a ≡ p
unfolding entry_at
entry_at_addr addr p [] a h = cc
entry_at_addr addr p (x ∷ xs) a h = ground (arith, entry_at_addr addr p xs a)

-- What is read at an address after a write through the pointer to the entry that is there.
entry_at-update_at :
    {A : Type 0} (addr : A → ℕ) (p : ℕ) (f : A → A) (t : Tree A) (a : A)
    → addr (f a) ≡ addr a
    → entry_at addr p (to_list t) ≡ some a
    → entry_at addr p (to_list (update_at addr (addr a) f t)) ≡ some (f a)
entry_at-update_at addr p f t a same h =
    let pa : addr a ≡ p = entry_at_addr addr p (to_list t) a h in
    subst (λ q. entry_at addr p (to_list (update_at addr q f t)) ≡ some (f a)) (sym pa)
      (ap (entry_at addr p) (to_list-update_at addr p f t)
        ∙ entry_at-patched addr p f (to_list t) a (same ∙ pa) h)

-- The call for an entry that is linked to its set.
linked :
    (d : Driver) (p q : ℕ) (e : FileEntry) (s : SetEntry) (ts : Timespec)
    → entry_at file_addr p (to_list d.files) ≡ some e
    → e.set_entry ≡ some q
    → entry_at set_addr q (to_list d.sets) ≡ some s
    → get_monitor_file_seq_no p ts d
      ≡ ok ((pos 0, (take_numbers e s ts d).1), (take_numbers e s ts d).0)
unfolding get_monitor_file_seq_no
linked d p q e s ts at link set =
    rw (at, get_monitor_file_seq_no)
      (rw (link, get_monitor_file_seq_no) (rw (set, get_monitor_file_seq_no) refl))

-- For an entry that is linked to its set, the numbers handed out are those in the two entries, with the
-- set's directory; and the call that comes next for the entry hands out the numbers that follow these in
-- 64 bits.
pub numbers_follow :
    (d : Driver) (p q : ℕ) (e : FileEntry) (s : SetEntry) (ts ts' : Timespec)
    → entry_at file_addr p (to_list d.files) ≡ some e
    → e.set_entry ≡ some q
    → entry_at set_addr q (to_list d.sets) ≡ some s
    → (u : Driver) × (get_monitor_file_seq_no p ts d
        ≡ ok (
          (
            pos 0,
            record {
              seq_no = e.seq_no;
              global_seq_no = s.seq_no;
              time = log_time ts;
              iologdir = s.cache_dir;
            },
          ),
          u,
        ))
      × ((v : Driver) × (get_monitor_file_seq_no p ts' u
            ≡ ok (
              (
                pos 0,
                record {
                  seq_no = u64 (e.seq_no + 1);
                  global_seq_no = u64 (s.seq_no + 1);
                  time = log_time ts';
                  iologdir = s.cache_dir;
                },
              ),
              v,
            )))
unfolding get_monitor_file_seq_no take_numbers
numbers_follow d p q e s ts ts' at link set = (
  (take_numbers e s ts d).0,
  linked d p q e s ts at link set,
  (
    (take_numbers (record e { seq_no = u64 (e.seq_no + 1); set_entry = some s.addr })
        (record s { seq_no = u64 (s.seq_no + 1) }) ts' (take_numbers e s ts d).0).0,
    linked (take_numbers e s ts d).0 p q
        (record e { seq_no = u64 (e.seq_no + 1); set_entry = some s.addr })
        (record s { seq_no = u64 (s.seq_no + 1) }) ts'
        (entry_at-update_at file_addr p
          (λ x. record x { seq_no = u64 (e.seq_no + 1); set_entry = some s.addr }) d.files e refl
          at)
        (ap some (entry_at_addr set_addr q (to_list d.sets) s set))
        (entry_at-update_at set_addr q (λ x. record x { seq_no = u64 (s.seq_no + 1) }) d.sets s refl
          set),
  ),
)
