-- ===== src/MonitorSet/AddingSound.antt =====
-- What `AddMonitorItem` and `AddMonitorSet` add keeps the invariant of the two trees.
use mathlib.Core.Option
use github_upload.Base.{
  pos, negsuc, Bool-cases, ℕ, ◌+◌, ◌<◌, Option, none, some, ◌≡◌, List, refl, arith, All, All-imp,
  inl, inr, sym, subst, Bool, true, false, ok, ℤ, Option-cases, ◌⊎◌,
}
use github_upload.Entries.{SetEntry, FileEntry, set_addr, file_addr}
use github_upload.Rb.{Tree, to_list, RbOps, attach}
use github_upload.Rb.Attach.{Placed, attach_inserts, Placed-All}
use github_upload.Rb.Sets.{SetsSorted, ms_search, ms_insert, ms_insert_new, ms_insert-none}
use github_upload.Rb.Files.{mi_search, mi_insert}
use github_upload.Rb.Closed.{Placed-Distinct}
use github_upload.Driver.{pure, ◌>>◌, Driver, Kernel, ◌>>◌, alloc, next_answer}
use github_upload.ConfigFile.{u32}
use github_upload.MonitorSet.{
  is_absolute, get_monitor_set_entry, del_monitor_set, insert_item, add_monitor_item, insert_set,
  add_monitor_set,
}
use github_upload.MonitorSet.Sound.{Keeps-pure, Keeps-same, IsSound, Keeps, Keeps-bind, same_trees}
use github_upload.MonitorSet.DeletingSound.{del_monitor_set-Keeps}

module _ {A : Type 0} {addr : A → ℕ} (rb : RbOps addr) where
  -- An insertion that succeeds has put the entry in between the others, sorted or not.
  pub inserted :
      (o : Option (Tree A)) (x : A) (t t' : Tree A)
      → ((u : Tree A) → o ≡ some u → Placed (λ a b. Unit {0}) x (to_list t) (to_list u))
      → Option.map rb.rb_insert_color o ≡ some t'
      → Placed (λ a b. Unit {0}) x (to_list t) (to_list t')
  inserted none x t t' h e = cc
  inserted (some u) x t t' h e =
      let q : t' ≡ rb.rb_insert_color u = ground arith in
      rw q (
        subst (Placed (λ a b. Unit {0}) x (to_list t)) (sym (rb.to_list-rb_insert_color u))
          (h u refl))

-- The item as it is put into the tree, at address `p`.
abbrev pub placed_item : FileEntry → ℕ → FileEntry
placed_item entry p = record entry { addr = p; monitor = true; set_entry = none }

abbrev pub placed_set : ℕ → List ℕ → ℕ → ℕ → SetEntry
placed_set guid cache_dir seq_no p = record {
  addr = p;
  guid = guid;
  cache_dir = cache_dir;
  seq_no = seq_no;
  file_count = 0;
}

module _ (k : Kernel) where
  pub mi_insert-Placed :
      (t t' : Tree FileEntry) (e : FileEntry)
      → mi_insert k.file_rb t e ≡ some t'
      → Placed (λ a b. Unit {0}) e (to_list t) (to_list t')
  unfolding mi_insert
  mi_insert-Placed t t' e h =
      inserted k.file_rb (attach _ e t) e t t' (λ u q. attach_inserts _ e t u q) h

  ms_insert-Placed :
      (t t' : Tree SetEntry) (e : SetEntry)
      → ms_insert k.set_rb t e ≡ some t'
      → Placed (λ a b. Unit {0}) e (to_list t) (to_list t')
  unfolding ms_insert
  ms_insert-Placed t t' e h =
      inserted k.set_rb (attach _ e t) e t t' (λ u q. attach_inserts _ e t u q) h

  known_after :
      {A : Type 0} (addr : A → ℕ) (n : ℕ) (xs : List A)
      → All (λ e. addr e < n) xs
      → All (λ e. addr e < n + 1) xs
  known_after addr n xs = All-imp _ _ xs (λ e h. omega arith)

  -- A file entry at the address that was just handed out.
  file_added-IsSound :
      (d : Driver) (e : FileEntry) (t : Tree FileEntry) (m : ℕ) (bs : List Bool)
      → IsSound d
      → e.addr ≡ d.next_addr
      → mi_insert k.file_rb d.files e ≡ some t
      → IsSound (record d { files = t; files_count = m; next_addr = d.next_addr + 1; allocs = bs })
  file_added-IsSound d e t m bs s at h =
      let p = mi_insert-Placed d.files t e h in
      let below : All (λ a. a.addr < e.addr) (to_list d.files) = rw at s.files_known in
      record {
        sets_sorted = s.sets_sorted;
        sets_distinct = s.sets_distinct;
        files_distinct = Placed-Distinct file_addr e _ _ p below s.files_distinct;
        sets_known = known_after set_addr d.next_addr _ s.sets_known;
        files_known =
            Placed-All p (λ e. e.addr < d.next_addr + 1) (omega arith)
              (known_after file_addr d.next_addr _ s.files_known);
      }

  set_added-IsSound :
      (d : Driver) (e : SetEntry) (t : Tree SetEntry) (m : ℕ) (bs : List Bool)
      → IsSound d
      → e.addr ≡ d.next_addr
      → ms_insert k.set_rb d.sets e ≡ some t
      → IsSound (record d { sets = t; sets_count = m; next_addr = d.next_addr + 1; allocs = bs })
  set_added-IsSound d e t m bs s at h =
      let p = ms_insert-Placed d.sets t e h in
      let below : All (λ a. a.addr < e.addr) (to_list d.sets) = rw at s.sets_known in
      record {
        sets_sorted = sorted (Option-cases (ms_search d.sets e.guid));
        sets_distinct = Placed-Distinct set_addr e _ _ p below s.sets_distinct;
        files_distinct = s.files_distinct;
        sets_known =
            Placed-All p (λ e. e.addr < d.next_addr + 1) (omega arith)
              (known_after set_addr d.next_addr _ s.sets_known);
        files_known = known_after file_addr d.next_addr _ s.files_known;
      }
    where
      sorted :
          (ms_search d.sets e.guid ≡ none) ⊎ ((a : SetEntry) × (ms_search d.sets e.guid ≡ some a))
          → SetsSorted t
      sorted (inl n) =
          let (u, eq, _, r) = ms_insert_new k.set_rb d.sets e s.sets_sorted n in
          let q : t ≡ u = cc in rw q r
      sorted (inr found) = absurd (cc ((ms_insert-none k.set_rb d.sets e).1 found, h))

  insert_item-Keeps : (entry : FileEntry) → Keeps (insert_item k entry)
  unfolding insert_item alloc
  insert_item-Keeps entry = record {
    run = λ d a u s e. go d a u s _ refl _ refl e;
    ends = λ d s e. ground arith;
  }
    where
      go :
          (d : Driver) (a : ℤ) (u : Driver)
          → IsSound d
          → (b : Bool × List Bool) → next_answer d.allocs ≡ b
          → (o : Option (Tree FileEntry))
          → mi_insert k.file_rb d.files (placed_item entry d.next_addr) ≡ o
          → insert_item k entry d ≡ ok (a, u)
          → IsSound u
      go d a u s (false, bs) h o h' e =
          same_trees d u (ground arith) (ground arith) (ground arith) s
      go d a u s (true, bs) h none h' e =
          same_trees d u (ground arith) (ground arith) (ground arith) s
      go d a u s (true, bs) h (some t) h' e =
          let q : u ≡ record d {
            files = t;
            files_count = u32 (d.files_count + 1);
            next_addr = d.next_addr + 1;
            allocs = bs;
          } =
            ground arith in
          rw q (
            file_added-IsSound d (placed_item entry d.next_addr) t (u32 (d.files_count + 1)) bs s
              refl h')

  pub add_monitor_item-Keeps : (entry : FileEntry) → Keeps (add_monitor_item k entry)
  unfolding add_monitor_item
  add_monitor_item-Keeps entry = Keeps-same (add_monitor_item k entry) λ d.
      elim (Bool-cases (is_absolute entry.path)) [
        | inr a ↦ (pure (negsuc 0), Keeps-pure (negsuc 0), rw (a, add_monitor_item) refl)
        | inl a ↦ elim (Option-cases (mi_search d.files entry.path)) [
          | inr (f, h) ↦ (
            pure (pos 0),
            Keeps-pure (pos 0),
            rw (a, add_monitor_item) (rw (h, add_monitor_item) refl),
          )
          | inl h ↦ (
            insert_item k entry,
            insert_item-Keeps entry,
            rw (a, add_monitor_item) (rw (h, add_monitor_item) refl),
          )
        ]
      ]

  insert_set-Keeps : (guid : ℕ) (dir : List ℕ) (seq_no : ℕ) → Keeps (insert_set k guid dir seq_no)
  unfolding insert_set alloc
  insert_set-Keeps guid dir seq_no = record {
    run = λ d a u s e. go d a u s _ refl _ refl e;
    ends = λ d s e. ground arith;
  }
    where
      go :
          (d : Driver) (a : ℤ) (u : Driver)
          → IsSound d
          → (b : Bool × List Bool) → next_answer d.allocs ≡ b
          → (o : Option (Tree SetEntry))
          → ms_insert k.set_rb d.sets (placed_set guid dir seq_no d.next_addr) ≡ o
          → insert_set k guid dir seq_no d ≡ ok (a, u)
          → IsSound u
      go d a u s (false, bs) h o h' e =
          same_trees d u (ground arith) (ground arith) (ground arith) s
      go d a u s (true, bs) h none h' e =
          same_trees d u (ground arith) (ground arith) (ground arith) s
      go d a u s (true, bs) h (some t) h' e =
          let q : u ≡ record d {
            sets = t;
            sets_count = u32 (d.sets_count + 1);
            next_addr = d.next_addr + 1;
            allocs = bs;
          } =
            ground arith in
          rw q (
            set_added-IsSound d (placed_set guid dir seq_no d.next_addr) t (u32 (d.sets_count + 1))
              bs s refl h')

  pub add_monitor_set-Keeps :
      (guid : ℕ) (dir : List ℕ) (seq_no : ℕ) (del : Bool)
      → Keeps (add_monitor_set k guid dir seq_no del)
  unfolding add_monitor_set
  add_monitor_set-Keeps guid dir seq_no del =
      Keeps-same (add_monitor_set k guid dir seq_no del) λ d.
        elim (Option-cases (get_monitor_set_entry guid d)) [
          | inl h ↦ (
            insert_set k guid dir seq_no,
            insert_set-Keeps guid dir seq_no,
            rw (h, add_monitor_set) refl,
          )
          | inr (x, h) ↦ elim (Bool-cases del) [
            | inr b ↦ (
              pure (negsuc 1),
              Keeps-pure (negsuc 1),
              rw (h, add_monitor_set) (rw (b, add_monitor_set) refl),
            )
            | inl b ↦ (
              del_monitor_set k guid >> insert_set k guid dir seq_no,
              Keeps-bind (del_monitor_set k guid) (λ _. insert_set k guid dir seq_no)
                  (del_monitor_set-Keeps k guid) (λ _. insert_set-Keeps guid dir seq_no),
              rw (h, add_monitor_set) (rw (b, add_monitor_set) refl),
            )
          ]
        ]
