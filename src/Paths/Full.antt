-- ===== src/Paths/Full.antt =====
-- getpath.c: the path that `getabsfullpathfromdentry` puts together is that of the names from the root
-- down.
use github_upload.Base.{
  ℕ, zero, suc, List, [], ◌++◌, true, false, ◌≡◌, refl, sym, ap, ◌∙◌, append-nil, append_assoc, ltb,
  arith,
}
use github_upload.Paths.{
  Dentry, root, child, slash, d_name, depth_of, ancestor, append_names,
  get_abs_parent_path_from_dentry, differs_from_slash, get_abs_full_path_from_dentry,
}

-- The path of a dentry: each name below the root behind a slash.
unfoldable pub full_path : Dentry → List ℕ
full_path (root name) = []
full_path (child name parent) = (full_path parent ++ slash) ++ name

-- The root is called "/", and no other name starts with a slash.
abbrev IsPlain : Dentry → Type 0
IsPlain (root name) = name ≡ slash
IsPlain (child name parent) = (differs_from_slash name ≡ true) × IsPlain parent

-- The loop from a child on ends with the name that the loop from its parent leaves out.
append_names-child :
    (n : ℕ) (name : List ℕ) (d : Dentry) (acc : List ℕ)
    → append_names (suc n) (child name d) acc ≡ (append_names n d acc ++ slash) ++ d_name d
unfolding append_names ancestor
append_names-child zero name d acc = refl
append_names-child (suc n) name d acc =
    append_names-child n name d ((acc ++ slash) ++ d_name (ancestor (suc n) d))

append_names-full_path :
    (name : List ℕ) (p : Dentry) (acc : List ℕ)
    → append_names (depth_of p) (child name p) acc ≡ acc ++ full_path p
unfolding append_names depth_of full_path
append_names-full_path name (root r) acc = sym (append-nil acc)
append_names-full_path name (child m q) acc =
    append_names-child (depth_of q) name (child m q) acc
    ∙ ap (λ u. (u ++ slash) ++ m) (append_names-full_path m q acc)
    ∙ ap (λ u. u ++ m) (append_assoc acc (full_path q) slash)
    ∙ append_assoc acc (full_path q ++ slash) m

-- In a tree whose root is "/" and in which no name starts with a slash, `getabsfullpathfromdentry`
-- appends the names from the root down to the dentry, each behind a slash.
pub get_abs_full_path_from_dentry-full_path :
    (name : List ℕ) (p : Dentry) (acc : List ℕ)
    → IsPlain p
    → get_abs_full_path_from_dentry (child name p) acc ≡ acc ++ full_path (child name p)
unfolding get_abs_full_path_from_dentry get_abs_parent_path_from_dentry differs_from_slash full_path
    depth_of
get_abs_full_path_from_dentry-full_path name (root r) acc h =
    rw (h, differs_from_slash) (append_assoc acc slash name)
get_abs_full_path_from_dentry-full_path name (child m q) acc h =
    let deep : ltb (suc (depth_of q)) 1 ≡ false = ground arith in
    rw (h.0, get_abs_full_path_from_dentry)
      (rw (deep, get_abs_parent_path_from_dentry)
        (ap (λ u. (u ++ slash) ++ name) (append_names-full_path name (child m q) acc)
          ∙ ap (λ u. u ++ name) (append_assoc acc (full_path (child m q)) slash)
          ∙ append_assoc acc (full_path (child m q) ++ slash) name))
