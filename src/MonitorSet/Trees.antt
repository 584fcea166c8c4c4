-- ===== src/MonitorSet/Trees.antt =====
-- The steps that change a tree - erase, insert, write through a pointer - keep the invariant.
use github_upload.Base.{
  ltb, ℤ, ℕ, ◌<◌, Option, none, some, ◌≡◌, ◌≢◌, List, [], ◌∷◌, refl, arith, All, sym, subst, ok,
  ◌==◌, if◌then◌else◌, map,
}
use mathlib.Core.List.{map-append}
use github_upload.Entries.{SetEntry, FileEntry, set_addr, file_addr}
use github_upload.Rb.{Tree, leaf, node, to_list, entry_at}
use github_upload.Rb.Split.{IsSorted}
use github_upload.Rb.Sets.{ms_search, GuidBefore}
use github_upload.Rb.Erase.{Distinct}
use github_upload.Driver.{Driver}
use github_upload.MonitorSet.Sequence.{
  update_at, Timespec, Stamp, take_numbers, get_monitor_file_seq_no,
}
use github_upload.MonitorSet.Sound.{IsSound, Keeps}

-- What a write through a pointer does to the entries in order.
abbrev pub patched : {A : Type 0} → (A → ℕ) → ℕ → (A → A) → List A → List A
patched addr p f = map (λ a. if addr a == p then f a else a)

pub to_list-update_at :
    {A : Type 0} (addr : A → ℕ) (p : ℕ) (f : A → A) (t : Tree A)
    → to_list (update_at addr p f t) ≡ patched addr p f (to_list t)
unfolding to_list update_at
to_list-update_at addr p f leaf = refl
to_list-update_at addr p f (node l a r) =
    rw (to_list-update_at addr p f l, to_list-update_at addr p f r)
      (sym (map-append _ (to_list l) (a ∷ to_list r)))

module _ {A B : Type 0} (key : A → B) (g : A → A) (same : (a : A) → key (g a) ≡ key a) where
  -- A change that leaves a key alone leaves what only reads the key.
  All-map :
      (P : B → Type 0) (xs : List A) → All (λ a. P (key a)) xs → All (λ a. P (key a)) (map g xs)
  All-map P [] h = tt
  All-map P (x ∷ xs) h = (subst P (sym (same x)) h.0, All-map P xs h.1)

  IsSorted-map :
      (R : B → B → Type 0) (xs : List A)
      → IsSorted (λ a b. R (key a) (key b)) xs
      → IsSorted (λ a b. R (key a) (key b)) (map g xs)
  IsSorted-map R [] s = tt
  IsSorted-map R (x ∷ xs) s = (
    subst (λ k. All (λ b. R k (key b)) (map g xs)) (sym (same x)) (All-map (R (key x)) xs s.0),
    IsSorted-map R xs s.1,
  )

module _ (p : ℕ) (f : SetEntry → SetEntry) (same_addr : (e : SetEntry) → (f e).addr ≡ e.addr)
    (same_guid : (e : SetEntry) → (f e).guid ≡ e.guid) where
  patch : SetEntry → SetEntry
  patch e = if e.addr == p then f e else e

  patch_addr : (e : SetEntry) → (patch e).addr ≡ e.addr
  unfolding patch
  patch_addr e = ground (arith, same_addr e)

  patch_guid : (e : SetEntry) → (patch e).guid ≡ e.guid
  unfolding patch
  patch_guid e = ground (arith, same_guid e)

  pub patched_set-IsSound :
      (d : Driver) → IsSound d → IsSound (record d { sets = update_at set_addr p f d.sets })
  unfolding patch
  patched_set-IsSound d s =
      let q = sym (to_list-update_at set_addr p f d.sets) in
      record {
        sets_sorted = subst (IsSorted GuidBefore) q (
            IsSorted-map SetEntry.guid patch patch_guid (λ m n. m < n) (to_list d.sets)
              s.sets_sorted);
        sets_distinct = subst (Distinct set_addr) q (
            IsSorted-map set_addr patch patch_addr (λ m n. n ≢ m) (to_list d.sets) s.sets_distinct);
        files_distinct = s.files_distinct;
        sets_known = subst (All (λ e. e.addr < d.next_addr)) q (
            All-map set_addr patch patch_addr (λ n. n < d.next_addr) (to_list d.sets) s.sets_known);
        files_known = s.files_known;
      }

module _ (p : ℕ) (f : FileEntry → FileEntry)
    (same_addr : (e : FileEntry) → (f e).addr ≡ e.addr) where
  patch_file : FileEntry → FileEntry
  patch_file e = if e.addr == p then f e else e

  patch_file_addr : (e : FileEntry) → (patch_file e).addr ≡ e.addr
  unfolding patch_file
  patch_file_addr e = ground (arith, same_addr e)

  patched_file-IsSound :
      (d : Driver) → IsSound d → IsSound (record d { files = update_at file_addr p f d.files })
  unfolding patch_file
  patched_file-IsSound d s =
      let q = sym (to_list-update_at file_addr p f d.files) in
      record {
        sets_sorted = s.sets_sorted;
        sets_distinct = s.sets_distinct;
        files_distinct = subst (Distinct file_addr) q (
            IsSorted-map file_addr patch_file patch_file_addr (λ m n. n ≢ m) (to_list d.files)
              s.files_distinct);
        sets_known = s.sets_known;
        files_known = subst (All (λ e. e.addr < d.next_addr)) q (
            All-map file_addr patch_file patch_file_addr (λ n. n < d.next_addr) (to_list d.files)
              s.files_known);
      }

take_numbers-IsSound :
    (e : FileEntry) (s : SetEntry) (ts : Timespec) (d : Driver)
    → IsSound d
    → IsSound (take_numbers e s ts d).0
unfolding take_numbers
take_numbers-IsSound e s ts d h =
    patched_set-IsSound s.addr _ (λ x. refl) (λ x. refl) _
      (patched_file-IsSound e.addr _ (λ x. refl) d h)

-- Handing out numbers keeps the invariant.
pub get_monitor_file_seq_no-Keeps : (p : ℕ) (ts : Timespec) → Keeps (get_monitor_file_seq_no p ts)
unfolding get_monitor_file_seq_no
get_monitor_file_seq_no-Keeps p ts = record {
  run = λ d a u s e. go d a u s _ refl e;
  ends = λ d s e. ground arith;
}
  where
    given :
        (d : Driver) (e : FileEntry) (s : SetEntry) (u : Driver)
        → IsSound d
        → u ≡ (take_numbers e s ts d).0
        → IsSound u
    given d e s u h q = rw q (take_numbers-IsSound e s ts d h)

    at_link :
        (d : Driver) (a : ℤ × Stamp) (u : Driver)
        → IsSound d
        → (e : FileEntry) → entry_at file_addr p (to_list d.files) ≡ some e
        → (l : Option ℕ) → e.set_entry ≡ l
        → (o : Option SetEntry)
        → elim l [
          | some q ↦ entry_at set_addr q (to_list d.sets)
          | none ↦ if ltb 0 d.sets_count then ms_search d.sets e.guid else none
        ]
          ≡ o
        → get_monitor_file_seq_no p ts d ≡ ok (a, u)
        → IsSound u
    at_link d a u s e h (some q) l (some x) k r = given d e x u s (ground arith)
    at_link d a u s e h (some q) l none k r = absurd (ground arith)
    at_link d a u s e h none l (some x) k r = given d e x u s (ground arith)
    at_link d a u s e h none l none k r = subst IsSound (ground arith) s

    go :
        (d : Driver) (a : ℤ × Stamp) (u : Driver)
        → IsSound d
        → (o : Option FileEntry) → entry_at file_addr p (to_list d.files) ≡ o
        → get_monitor_file_seq_no p ts d ≡ ok (a, u)
        → IsSound u
    go d a u s none h r = absurd (ground arith)
    go d a u s (some e) h r = at_link d a u s e h e.set_entry refl _ refl r
