-- ===== src/Rb.antt =====
-- rb.c: the two search trees of the driver, over the kernel's red-black trees. A tree is its shape;
-- colours are the kernel's. `rb_insert_color` and `rb_erase` are not in the repository: they are
-- the fields of `RbOps`, with what linux/rbtree.h promises of them.
pub mod Split
pub mod Search
pub mod Attach
pub mod Erase
pub mod Walk
pub mod Closed
pub mod Sets
pub mod Files
use mathlib.Core.Option
use github_upload.Base.{
  ℕ, List, [], ◌∷◌, ◌++◌, Ordering, Option, none, some, not, ◌≡◌, keep, Bool, length, zero, suc,
  ◌+◌, ◌*◌, ◌-◌, true, false, Outcome, ok, wild, unfinished, ◌==◌, if◌then◌else◌,
}

-- `struct rb_node` with the entry around it; `leaf` is a NULL child.
pub data Tree (A : Type 0) : Type 0 where
  leaf : Tree A
  node : Tree A → A → Tree A → Tree A

module _ {A : Type 0} where
  -- The entries in the order in which `rb_first` and `rb_next` give them.
  unfoldable pub to_list : Tree A → List A
  to_list leaf = []
  to_list (node l a r) = to_list l ++ (a ∷ to_list r)

  -- The walk of `ms_search` and `mi_search`: `cmp` is the comparison of the key with a node's.
  unfoldable pub search : (A → Ordering) → Tree A → Option A
  search cmp leaf = none
  search cmp (node l a r) = elim (cmp a) [
    | Ordering.lt ↦ search cmp l
    | Ordering.gt ↦ search cmp r
    | Ordering.eq ↦ some a
  ]

  -- The walk of `ms_insert` and `mi_insert` with `rb_link_node`: `none` is their `return -1`.
  unfoldable pub attach : (A → Ordering) → A → Tree A → Option (Tree A)
  attach cmp x leaf = some (node leaf x leaf)
  attach cmp x (node l a r) = elim (cmp a) [
    | Ordering.lt ↦ Option.map (λ t. node t a r) (attach cmp x l)
    | Ordering.gt ↦ Option.map (λ t. node l a t) (attach cmp x r)
    | Ordering.eq ↦ none
  ]

-- Entries by their addresses.
module _ {A : Type 0} (addr : A → ℕ) where
  abbrev pub first_addr : List A → Option ℕ
  first_addr [] = none
  first_addr (a ∷ rest) = some (addr a)

  -- The entry at an address, if one of the list is there.
  unfoldable pub entry_at : ℕ → List A → Option A
  entry_at p [] = none
  entry_at p (a ∷ rest) = if addr a == p then some a else entry_at p rest

  unfoldable pub next_after : ℕ → List A → Option ℕ
  next_after p [] = none
  next_after p (a ∷ rest) = if addr a == p then first_addr rest else next_after p rest

  -- `rb_first`, and `rb_next` of a node that is in the tree.
  unfoldable pub rb_first : Tree A → Option ℕ
  unfolding to_list
  rb_first t = first_addr (to_list t)

  unfoldable pub rb_next : ℕ → Tree A → Option ℕ
  unfolding next_after to_list
  rb_next p t = next_after p (to_list t)

-- The kernel's part, for entries at addresses `addr`. `rb_erase` is handed the node's address.
-- `next_erased` is the address that `rb_next` reads in the node at the given address once it has been
-- erased, leaving the given tree, and its memory has gone back to the cache: nothing is promised of it.
pub record RbOps {A : Type 0} (addr : A → ℕ) : Type 0 where
  pub rb_insert_color : Tree A → Tree A
  pub rb_erase : ℕ → Tree A → Tree A
  pub next_erased : ℕ → Tree A → Option ℕ
  pub to_list-rb_insert_color : (t : Tree A) → to_list (rb_insert_color t) ≡ to_list t
  pub to_list-rb_erase :
      (p : ℕ) (t : Tree A) → to_list (rb_erase p t) ≡ keep (λ a. not (addr a == p)) (to_list t)

-- Rounds of the loop below that are enough for a tree of `n` entries.
abbrev pub erase_fuel : ℕ → ℕ
erase_fuel n = n * (n + 1) + n + 1

module _ {A : Type 0} {addr : A → ℕ} (rb : RbOps addr) (test : A → Bool) where
  -- The loop of `DelMonitorItemsBySetId` and of `DelAllMonitorSet`: it walks the tree, erases and frees
  -- each entry that passes the test, counts down, and goes on from the node that it has just freed.
  -- An address at which no entry of the tree stands is followed into `wild`.
  unfoldable pub erase_where : ℕ → Option ℕ → Tree A → ℕ → Outcome (Tree A × ℕ)
  unfolding entry_at rb_next
  erase_where zero cursor t counts = unfinished
  erase_where (suc fuel) none t counts = ok (t, counts)
  erase_where (suc fuel) (some p) t counts = elim (entry_at addr p (to_list t)) [
    | none ↦ wild
    | some a ↦ elim (test a) [
      | true ↦ erase_where fuel (rb.next_erased p (rb.rb_erase p t)) (rb.rb_erase p t) (counts - 1)
      | false ↦ erase_where fuel (rb_next addr p t) t counts
    ]
  ]

  unfoldable pub erase_all_where : Tree A → ℕ → Outcome (Tree A × ℕ)
  unfolding erase_where rb_first
  erase_all_where t counts =
      erase_where (erase_fuel (length (to_list t))) (rb_first addr t) t counts
