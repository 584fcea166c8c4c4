-- ===== src/Rb/Files.antt =====
-- rb.c: `mi_search`, `mi_insert`, `mi_remove`, the tree of monitored paths. An entry answers for a
-- path when `strncmp` over the entry's own length is 0, that is when it is a prefix of the path.
use mathlib.Core.Option
use github_upload.Base.{
  keep, not, ◌==◌, ℕ, Ordering, none, some, ◌≡◌, ◌≢◌, List, [], ◌∷◌, refl, arith, All, Has, inl,
  inr, ap, sym, subst, ◌↔◌, Bool, true, false, Option, Ordering-cases, Option-cases, All-Has,
}
use github_upload.Entries.{FileEntry, file_addr}
use github_upload.Text.{strncmp, is_prefix}
use github_upload.Text.Order.{
  against, ◌≺◌, against-eq_prefix, against_extension_lt, against_extension_gt, ≺_trans,
  against_lt_swap, against_gt_swap,
}
use github_upload.Rb.{Tree, node, to_list, search, attach, RbOps}
use github_upload.Rb.Split.{IsSorted}
use github_upload.Rb.Search.{search-eq, search-Has, search_finds}
use github_upload.Rb.Attach.{
  Placed, Placed-IsSorted, Side, attach-Placed, attach-none_eq, attach-none_of_search,
  attach_inserts, Placed-Has,
}

unfoldable pub mi_search : Tree FileEntry → List ℕ → Option FileEntry
unfolding search strncmp
mi_search root pathname = search (λ e. against pathname e.path) root

abbrev pub PathBefore : FileEntry → FileEntry → Type 0
PathBefore a b = ◌≺◌ a.path b.path

-- The paths rise along `rb_next`, and none is a prefix of another.
abbrev pub FilesSorted : Tree FileEntry → Type 0
FilesSorted t = IsSorted PathBefore (to_list t)

module _ (rb : RbOps file_addr) where
  unfoldable pub mi_insert : Tree FileEntry → FileEntry → Option (Tree FileEntry)
  unfolding attach strncmp
  mi_insert root entry =
      Option.map rb.rb_insert_color (attach (λ e. against entry.path e.path) entry root)

  unfoldable pub mi_remove : Tree FileEntry → List ℕ → Option FileEntry × Tree FileEntry
  unfolding mi_search
  mi_remove root pathname = elim (mi_search root pathname) [
    | none ↦ (none, root)
    | some e ↦ (some e, rb.rb_erase e.addr root)
  ]

-- Whatever the tree, an entry that is found is in the tree, and its path is a prefix of the one searched
-- for.
mi_search_sound :
    (t : Tree FileEntry) (p : List ℕ) (e : FileEntry)
    → mi_search t p ≡ some e
    → (is_prefix e.path p ≡ true) × Has e (to_list t)
unfolding mi_search
mi_search_sound t p e h =
    ((against-eq_prefix p e.path).0 (search-eq (λ a. against p a.path) t e h), search-Has _ t e h)

-- In a tree whose paths are sorted, none a prefix of another, the entry whose path is a prefix of the
-- one searched for is found.
pub mi_search_complete :
    (t : Tree FileEntry) (p : List ℕ) (e : FileEntry)
    → FilesSorted t
    → Has e (to_list t)
    → is_prefix e.path p ≡ true
    → mi_search t p ≡ some e
unfolding mi_search
mi_search_complete t p e s h c =
    let eq = (against-eq_prefix p e.path).1 c in
    search_finds (λ a. against p a.path) PathBefore e
      (λ a b. against_extension_lt e.path a.path p b eq)
      (λ a b. against_extension_gt a.path e.path p b eq) eq t s h

-- No entry of the list extends the path.
abbrev Unextended : List ℕ → List FileEntry → Type 0
Unextended p = All (λ e. is_prefix p e.path ≡ false)

mi_search-none :
    (t : Tree FileEntry) (p : List ℕ) (e : FileEntry)
    → FilesSorted t
    → mi_search t p ≡ none
    → Has e (to_list t)
    → is_prefix e.path p ≡ false
mi_search-none t p e s h m = miss (is_prefix e.path p) refl
  where
    miss : (b : Bool) → is_prefix e.path p ≡ b → is_prefix e.path p ≡ false
    miss false q = q
    miss true q = cc (mi_search_complete t p e s m q)

file-Side :
    (x a : FileEntry)
    → is_prefix a.path x.path ≡ false
    → is_prefix x.path a.path ≡ false
    → Side PathBefore x (λ e. against x.path e.path) a
file-Side x a down up = elim (Ordering-cases (against x.path a.path)) [
  | inl e ↦ inl (e, against_lt_swap x.path a.path e up)
  | inr (inl e) ↦ absurd (cc ((against-eq_prefix x.path a.path).0 e))
  | inr (inr e) ↦ inr (e, against_gt_swap x.path a.path e up)
]

All-Side :
    (x : FileEntry) (es : List FileEntry)
    → ((e : FileEntry) → Has e es → is_prefix e.path x.path ≡ false)
    → Unextended x.path es
    → All (Side PathBefore x (λ e. against x.path e.path)) es
All-Side x [] f u = tt
All-Side x (a ∷ es) f u =
    (file-Side x a (f a (inl refl)) u.0, All-Side x es (λ e h. f e (inr h)) u.1)

module _ (rb : RbOps file_addr) where
  -- In a tree whose paths are sorted, none a prefix of another, an entry whose path no other covers, and
  -- that covers no other, is inserted at its place, and the tree stays so.
  pub mi_insert_new :
      (t : Tree FileEntry) (e : FileEntry)
      → FilesSorted t
      → mi_search t e.path ≡ none
      → Unextended e.path (to_list t)
      → (t' : Tree FileEntry) × (mi_insert rb t e ≡ some t')
        × Placed PathBefore e (to_list t) (to_list t')
        × FilesSorted t'
  unfolding mi_insert
  mi_insert_new t e s h n =
      let (u, eq, p) =
        attach-Placed PathBefore (λ a b c. ≺_trans a.path b.path c.path) e
          (λ a. against e.path a.path) t s
          (All-Side e (to_list t) (λ a m. mi_search-none t e.path a s h m) n) in
      let q : Placed PathBefore e (to_list t) (to_list (rb.rb_insert_color u)) =
        subst (Placed PathBefore e (to_list t)) (sym (rb.to_list-rb_insert_color u)) p in
      (
        rb.rb_insert_color u,
        ap (Option.map rb.rb_insert_color) eq,
        q,
        Placed-IsSorted PathBefore e _ _ q s,
      )

  -- Whatever the tree, the insertion is refused exactly when the search for the entry's path finds one.
  pub mi_insert-none :
      (t : Tree FileEntry) (e : FileEntry)
      → (mi_insert rb t e ≡ none) ↔ ((a : FileEntry) × (mi_search t e.path ≡ some a))
  unfolding mi_insert mi_search
  mi_insert-none t e = (
    λ h. let (a, f, _) = attach-none_eq (λ a. against e.path a.path) e t (map_none _ h) in (a, f),
    λ f. ap (Option.map rb.rb_insert_color) (attach-none_of_search _ e t f.0 f.1),
  )
    where
      map_none : (o : Option (Tree FileEntry)) → Option.map rb.rb_insert_color o ≡ none → o ≡ none
      map_none none h = refl
      map_none (some u) h = cc

-- In a tree whose paths are sorted, none a prefix of another, the removal of a path takes out the entry
-- that covers it, whether it is that path or only a prefix of it, and no entry at another address.
pub mi_remove_covering :
    (rb : RbOps file_addr) (t : Tree FileEntry) (p : List ℕ) (e : FileEntry)
    → FilesSorted t
    → Has e (to_list t)
    → is_prefix e.path p ≡ true
    → ((mi_remove rb t p).0 ≡ some e)
      × (to_list (mi_remove rb t p).1 ≡ keep (λ a. not (a.addr == e.addr)) (to_list t))
unfolding mi_remove
mi_remove_covering rb t p e s h c =
    let found = mi_search_complete t p e s h c in
    (rw (found, mi_remove) refl, rw (found, mi_remove) (rb.to_list-rb_erase e.addr t))

-- A proper prefix compares as less.
prefix_lt : (d m : List ℕ) → is_prefix d m ≡ true → d ≢ m → against d m ≡ Ordering.lt
unfolding strncmp is_prefix
prefix_lt [] [] c n = absurd (n refl)
prefix_lt [] (y ∷ m) c n = refl
prefix_lt (x ∷ d) [] c n = cc
prefix_lt (x ∷ d) (y ∷ m) c n = ground (arith, prefix_lt d m)

-- The search for a path that compares as greater than the root's finds nothing, if no entry to the right
-- of the root covers it.
misses_left :
    (u r : Tree FileEntry) (m : FileEntry) (p : List ℕ)
    → against p m.path ≡ Ordering.gt
    → All (λ e. is_prefix e.path p ≡ false) (to_list r)
    → mi_search (node u m r) p ≡ none
unfolding mi_search
misses_left u r m p behind uncovered = elim (Option-cases (mi_search r p)) [
  | inl e ↦ rw (behind, mi_search, search) e
  | inr (e, found) ↦
      let (covers, there) = mi_search_sound r p e found in
      absurd (cc (All-Has (λ e. is_prefix e.path p ≡ false) e (to_list r) uncovered there, covers))
]

-- A path `d` that is put into a tree whose root has a longer path `m` that begins with `d`, and that is
-- not refused, goes to the left of the root. While it stands there, a path that `d` covers is not found
-- to be covered, if it compares as greater than `m` and no entry to the right of the root covers it.
-- Whether `rb_insert_color` moves `d` above `m` is left open.
pub mi_search_misses :
    (l r u : Tree FileEntry) (m d : FileEntry) (p : List ℕ)
    → is_prefix d.path m.path ≡ true
    → d.path ≢ m.path
    → attach (λ e. against d.path e.path) d l ≡ some u
    → against p m.path ≡ Ordering.gt
    → All (λ e. is_prefix e.path p ≡ false) (to_list r)
    → (attach (λ e. against d.path e.path) d (node l m r) ≡ some (node u m r))
      × Has d (to_list u)
      × (mi_search (node u m r) p ≡ none)
unfolding attach
mi_search_misses l r u m d p part other left behind uncovered = (
  rw (prefix_lt d.path m.path part other, attach) (ap (Option.map (λ t. node t m r)) left),
  Placed-Has (attach_inserts (λ e. against d.path e.path) d l u left),
  misses_left u r m p behind uncovered,
)
