-- ===== src/Paths.antt =====
-- getpath.c: absolute paths from dentries. The buffer is taken to hold the path.
pub mod Full
use github_upload.Base.{
  ℕ, zero, suc, List, [], ◌∷◌, ◌++◌, Bool, true, false, Ordering, Option, none, some, ℤ, pos,
  negsuc, if◌then◌else◌, ltb,
}
use github_upload.Text.{strncmp}
use github_upload.Driver.{M, pure, fault, ◌>>=◌, alloc}

-- `struct dentry` as far as it is read: its name and `d_parent`, which a root has in itself.
pub data Dentry : Type 0 where
  root : List ℕ → Dentry
  child : List ℕ → Dentry → Dentry

abbrev pub slash : List ℕ
slash = b'/' ∷ []

abbrev pub d_name : Dentry → List ℕ
d_name (root name) = name
d_name (child name parent) = name

abbrev d_parent : Dentry → Dentry
d_parent (root name) = root name
d_parent (child name parent) = parent

-- The first loop of `getabsparentpathfromdentry`: how often the parent differs from its own parent.
unfoldable depth_of : Dentry → ℕ
depth_of (root name) = 0
depth_of (child name parent) = suc (depth_of parent)

-- `pdentry = pdentry->d_parent`, `i` times.
unfoldable ancestor : ℕ → Dentry → Dentry
ancestor zero d = d
ancestor (suc i) d = ancestor i (d_parent d)

-- The second loop: the name of the ancestor at `depth`, for each depth down to 1.
unfoldable append_names : ℕ → Dentry → List ℕ → List ℕ
unfolding ancestor
append_names zero d abspath = abspath
append_names (suc depth) d abspath =
    append_names depth d ((abspath ++ slash) ++ d_name (ancestor (suc depth) d))

unfoldable pub get_abs_parent_path_from_dentry : Dentry → List ℕ → List ℕ
unfolding depth_of append_names
get_abs_parent_path_from_dentry dentry abspath =
    let depth = depth_of (d_parent dentry) in
    if ltb depth 1 then abspath ++ d_name (d_parent dentry) else append_names depth dentry abspath

-- `strncmp(name, "/", strlen("/")) != 0`.
unfoldable pub differs_from_slash : List ℕ → Bool
unfolding strncmp
differs_from_slash name = elim (strncmp 1 name slash) [ Ordering.eq ↦ false | _ ↦ true ]

unfoldable pub get_abs_full_path_from_dentry : Dentry → List ℕ → List ℕ
unfolding get_abs_parent_path_from_dentry differs_from_slash
get_abs_full_path_from_dentry dentry abspath =
    let front =
      if differs_from_slash (d_name (d_parent dentry))
      then get_abs_parent_path_from_dentry dentry abspath
      else abspath in
    (front ++ slash) ++ d_name dentry

-- `getabsfullpathfromstructfile`: the path that `d_path` gives, or -ENOMEM where no page is to be had.
unfoldable pub get_abs_full_path_from_struct_file : List ℕ → M (ℤ × List ℕ)
unfolding alloc
get_abs_full_path_from_struct_file d_path =
    alloc >>= λ page. elim page [ none ↦ pure (negsuc 11, []) | some _ ↦ pure (pos 0, d_path) ]

-- `getabsfullpathfromnd`: the path of the directory that was looked up, and the name.
unfoldable pub get_abs_full_path_from_nd : Option (List ℕ) → List ℕ → M (ℤ × List ℕ)
unfolding alloc
get_abs_full_path_from_nd none name = pure (pos 0, [])
get_abs_full_path_from_nd (some d_path) name = alloc >>= λ page. elim page [
  | none ↦ pure (negsuc 11, [])
  | some _ ↦ pure (pos 0, (d_path ++ slash) ++ name)
]

-- `getabsparentpath`: the same two loops from the dentry that `path_lookup` gives; its error is not
-- looked at, so that a failed lookup is read through.
unfoldable pub get_abs_parent_path : Option Dentry → List ℕ → M (List ℕ)
unfolding get_abs_parent_path_from_dentry
get_abs_parent_path none abspath = fault
get_abs_parent_path (some dentry) abspath = pure (get_abs_parent_path_from_dentry dentry abspath)

-- `getabsfullpath`.
unfoldable pub get_abs_full_path : List ℕ → Option Dentry → M (List ℕ)
unfolding differs_from_slash get_abs_parent_path
get_abs_full_path pathname looked_up = elim (differs_from_slash pathname) [
  | false ↦ pure pathname
  | true ↦ get_abs_parent_path looked_up [] >>= λ abspath. pure ((abspath ++ slash) ++ pathname)
]
