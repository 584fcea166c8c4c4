-- ===== src/Rb/Sets.antt =====
-- rb.c: `ms_search`, `ms_insert`, `ms_remove`, the tree of backup sets by GUID.
use mathlib.Core.Option
use github_upload.Base.{
  ℕ, compare, Option, none, some, ◌≡◌, ◌<◌, ◌≢◌, List, [], ◌∷◌, refl, arith, All, Has, inl, inr, ap,
  sym, subst, ◌↔◌,
}
use github_upload.Entries.{SetEntry, set_addr}
use github_upload.Rb.{Tree, to_list, search, attach, RbOps}
use github_upload.Rb.Split.{IsSorted}
use github_upload.Rb.Search.{search-eq, search-Has, search_finds}
use github_upload.Rb.Attach.{
  Placed, Placed-IsSorted, Side, attach-Placed, attach-none_eq, attach-none_of_search,
}

unfoldable pub ms_search : Tree SetEntry → ℕ → Option SetEntry
unfolding search
ms_search root guid = search (λ e. compare guid e.guid) root

abbrev pub GuidBefore : SetEntry → SetEntry → Type 0
GuidBefore a b = a.guid < b.guid

-- A tree that can be searched: its GUIDs rise along `rb_next`.
abbrev pub SetsSorted : Tree SetEntry → Type 0
SetsSorted t = IsSorted GuidBefore (to_list t)

module _ (rb : RbOps set_addr) where
  unfoldable pub ms_insert : Tree SetEntry → SetEntry → Option (Tree SetEntry)
  unfolding attach
  ms_insert root entry =
      Option.map rb.rb_insert_color (attach (λ e. compare entry.guid e.guid) entry root)

  unfoldable ms_remove : Tree SetEntry → ℕ → Option SetEntry × Tree SetEntry
  unfolding ms_search
  ms_remove root guid = elim (ms_search root guid) [
    | none ↦ (none, root)
    | some e ↦ (some e, rb.rb_erase e.addr root)
  ]

ms_search_sound :
    (t : Tree SetEntry) (g : ℕ) (e : SetEntry)
    → ms_search t g ≡ some e
    → (e.guid ≡ g) × Has e (to_list t)
unfolding ms_search
ms_search_sound t g e h =
    (ground (arith, search-eq (λ a. compare g a.guid) t e h), search-Has _ t e h)

-- In a sorted tree each entry is found by its GUID.
pub ms_search_complete :
    (t : Tree SetEntry) (e : SetEntry)
    → SetsSorted t
    → Has e (to_list t)
    → ms_search t e.guid ≡ some e
unfolding ms_search
ms_search_complete t e s h =
    search_finds (λ a. compare e.guid a.guid) GuidBefore e (λ a b. ground arith)
      (λ a b. ground arith) (ground arith) t s h

-- In a sorted tree a GUID that the search misses is in no entry.
ms_search-none :
    (t : Tree SetEntry) (g : ℕ) (e : SetEntry)
    → SetsSorted t
    → ms_search t g ≡ none
    → Has e (to_list t)
    → e.guid ≢ g
ms_search-none t g e s h m q = cc (ms_search_complete t e s m, ap (ms_search t) q)

sides :
    (x : SetEntry) (es : List SetEntry)
    → ((e : SetEntry) → Has e es → e.guid ≢ x.guid)
    → All (Side GuidBefore x (λ e. compare x.guid e.guid)) es
sides x [] f = tt
sides x (a ∷ es) f = (side (f a (inl refl)), sides x es (λ e h. f e (inr h)))
  where
    side : a.guid ≢ x.guid → Side GuidBefore x (λ e. compare x.guid e.guid) a
    side n = ground arith

module _ (rb : RbOps set_addr) where
  -- In a sorted tree an entry whose GUID is not found is inserted between those with lower and those with
  -- higher GUIDs, and the tree stays sorted.
  pub ms_insert_new :
      (t : Tree SetEntry) (e : SetEntry)
      → SetsSorted t
      → ms_search t e.guid ≡ none
      → (t' : Tree SetEntry) × (ms_insert rb t e ≡ some t')
        × Placed GuidBefore e (to_list t) (to_list t')
        × SetsSorted t'
  unfolding ms_insert
  ms_insert_new t e s h =
      let (u, eq, p) =
        attach-Placed GuidBefore (λ a b c. ground arith) e (λ a. compare e.guid a.guid) t s
          (sides e (to_list t) (λ a m. ms_search-none t e.guid a s h m)) in
      let q : Placed GuidBefore e (to_list t) (to_list (rb.rb_insert_color u)) =
        subst (Placed GuidBefore e (to_list t)) (sym (rb.to_list-rb_insert_color u)) p in
      (
        rb.rb_insert_color u,
        ap (Option.map rb.rb_insert_color) eq,
        q,
        Placed-IsSorted GuidBefore e _ _ q s,
      )

  -- The insertion is refused exactly when the search finds the GUID, in a sorted tree or not.
  pub ms_insert-none :
      (t : Tree SetEntry) (e : SetEntry)
      → (ms_insert rb t e ≡ none) ↔ ((a : SetEntry) × (ms_search t e.guid ≡ some a))
  unfolding ms_insert ms_search
  ms_insert-none t e = (
    λ h. let (a, f, _) = attach-none_eq (λ a. compare e.guid a.guid) e t (map_none _ h) in (a, f),
    λ f. ap (Option.map rb.rb_insert_color) (attach-none_of_search _ e t f.0 f.1),
  )
    where
      map_none : (o : Option (Tree SetEntry)) → Option.map rb.rb_insert_color o ≡ none → o ≡ none
      map_none none h = refl
      map_none (some u) h = cc
