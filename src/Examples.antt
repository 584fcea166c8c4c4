-- ===== src/Examples.antt =====
-- A small driver on which the theorems are run: a kernel whose trees are not balanced, one backup set and
-- one monitored file.
mod Trees
mod Requests
mod Calls
mod Bridge
mod Tools
mod Hijacking
use github_upload.Base.{
  ℕ, List, [], ◌∷◌, ◌++◌, true, false, not, none, some, ◌≡◌, refl, sym, ◌∙◌, pos, negsuc, keep,
  keep-append, ◌==◌, if◌then◌else◌, Bool-cases, inl, inr, arith,
}
use github_upload.Entries.{SetEntry, FileEntry, set_addr, file_addr}
use github_upload.Rb.{Tree, leaf, node, to_list, RbOps}
use github_upload.Driver.{Driver, Kernel}
use github_upload.Paths.{Dentry, root, child, slash}
use github_upload.MonitorSet.Sound.{IsSound}
use github_upload.MonitorSet.Sequence.{Timespec}

module _ {A : Type 0} where
  unfoldable join : Tree A → Tree A → Tree A
  join leaf r = r
  join (node ll a lr) r = node ll a (join lr r)

  to_list-join : (l r : Tree A) → to_list (join l r) ≡ to_list l ++ to_list r
  unfolding to_list join
  to_list-join leaf r = refl
  to_list-join (node ll a lr) r =
      rw (to_list-join lr r) (sym (append-assoc' (to_list ll) a (to_list lr) (to_list r)))
    where
      append-assoc' :
          (xs : List A) (a : A) (ys zs : List A) → (xs ++ (a ∷ ys)) ++ zs ≡ xs ++ (a ∷ (ys ++ zs))
      append-assoc' [] a ys zs = refl
      append-assoc' (x ∷ xs) a ys zs = rw (append-assoc' xs a ys zs)

module _ {A : Type 0} (addr : A → ℕ) where
  unfoldable pub erase : ℕ → Tree A → Tree A
  unfolding join
  erase p leaf = leaf
  erase p (node l a r) =
      if addr a == p then join (erase p l) (erase p r) else node (erase p l) a (erase p r)

  pub to_list-erase :
      (p : ℕ) (t : Tree A) → to_list (erase p t) ≡ keep (λ a. not (addr a == p)) (to_list t)
  unfolding to_list erase
  to_list-erase p leaf = refl
  to_list-erase p (node l a r) = elim (Bool-cases (addr a == p)) [
    | inl e ↦
        rw (e, erase)
          (to_list-join (erase p l) (erase p r)
            ∙ rw
                (
                  to_list-erase p l,
                  to_list-erase p r,
                  keep-append (λ a. not (addr a == p)) (to_list l) (a ∷ to_list r),
                  e,
                )
                refl)
    | inr e ↦
        rw (e, erase)
          (rw
            (
              to_list-erase p l,
              to_list-erase p r,
              keep-append (λ a. not (addr a == p)) (to_list l) (a ∷ to_list r),
              e,
            )
            refl)
  ]

  -- Trees that are left as they are, and memory that reads as zero once it is freed.
  abbrev pub plain_rb : RbOps addr
  plain_rb = record {
    rb_insert_color = λ t. t;
    rb_erase = erase;
    next_erased = λ p t. none;
    to_list-rb_insert_color = λ t. refl;
    to_list-rb_erase = to_list-erase;
  }

abbrev pub kernel : Kernel
kernel = record {
  set_rb = plain_rb set_addr;
  file_rb = plain_rb file_addr;
  buffer_status = pos 77;
  open_status = negsuc 1;
}

-- The set with GUID 7, whose logs go to "/l", and the file "/a" in it.
abbrev pub set_7 : SetEntry
set_7 = record { addr = 1; guid = 7; cache_dir = b'/' ∷ b'l' ∷ []; seq_no = 5; file_count = 1 }

abbrev pub path_a : List ℕ
path_a = b'/' ∷ b'a' ∷ []

abbrev pub file_a : FileEntry
file_a = record {
  addr = 2;
  guid = 7;
  inited = false;
  monitor = true;
  seq_no = 3;
  directory = false;
  len = 2;
  path = path_a;
  set_entry = some 1;
}

abbrev pub driver : Driver
driver = record {
  files = node leaf file_a leaf;
  files_count = 1;
  sets = node leaf set_7 leaf;
  sets_count = 1;
  valid = true;
  normal_running = true;
  last_shutdown = 0;
  stop_task = false;
  queue = [];
  next_addr = 10;
  allocs = [];
  io = [];
  cnf = some [];
  logs = [];
  sent = [];
}

pub driver-IsSound : IsSound driver
unfolding to_list
driver-IsSound = record {
  sets_sorted = (tt, tt);
  sets_distinct = (tt, tt);
  files_distinct = (tt, tt);
  sets_known = (omega arith, tt);
  files_known = (omega arith, tt);
}

-- The dentry of "/a".
abbrev pub dentry_a : Dentry
dentry_a = child (b'a' ∷ []) (root slash)

abbrev pub noon : Timespec
noon = record { sec = 2; nsec = 300 }

-- The file "/b" that is to be monitored, and the path "/a/c" below the monitored one.
abbrev pub file_b : FileEntry
file_b = record file_a { path = b'/' ∷ b'b' ∷ [] }

abbrev pub path_ac : List ℕ
path_ac = b'/' ∷ b'a' ∷ b'/' ∷ b'c' ∷ []

abbrev pub set_9 : SetEntry
set_9 = record set_7 { addr = 10; guid = 9 }

-- The driver before it has loaded anything, and what the driver is when set 7 is deleted.
abbrev pub fresh : Driver
fresh = record driver { files = leaf; files_count = 0; sets = leaf; sets_count = 0 }
