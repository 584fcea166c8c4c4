-- ===== src/Examples/Trees.antt =====
-- The theorems on the trees of rb.c, the paths of getpath.c and the names of createiolog.c, on data.
use github_upload.Base.{
  ◌↔◌, none, [], keep, not, ◌==◌, ℕ, List, [], ◌∷◌, some, ◌≡◌, ◌≢◌, refl, arith, Has, inl,
}
use github_upload.Entries.{FileEntry, file_addr}
use github_upload.Text.{strncmp, is_prefix}
use github_upload.Text.Order.{against}
use github_upload.Rb.{Tree, leaf, node, to_list, search, attach}
use github_upload.Rb.Attach.{Placed}
use github_upload.Rb.Files.{
  mi_search, mi_insert, mi_remove, mi_remove_covering, PathBefore, FilesSorted, mi_search_complete,
  mi_insert_new, mi_search_misses, mi_insert-none,
}
use github_upload.Rb.Sets.{ms_search, ms_search_complete}
use github_upload.Paths.{child, differs_from_slash, get_abs_full_path_from_dentry}
use github_upload.Paths.Full.{full_path, get_abs_full_path_from_dentry-full_path}
use github_upload.IoLog.{log_path}
use github_upload.IoLog.Names.{log_path-differs}
use github_upload.Examples.{plain_rb, set_7, file_a, file_b, path_a, path_ac, driver, dentry_a}

mi_search_complete_example : mi_search driver.files path_ac ≡ some file_a
unfolding to_list is_prefix
mi_search_complete_example = mi_search_complete driver.files path_ac file_a (tt, tt) (inl refl) refl

mi_insert_new_example :
    (t : Tree FileEntry) × (mi_insert (plain_rb file_addr) driver.files file_b ≡ some t)
    × Placed PathBefore file_b (to_list driver.files) (to_list t)
    × FilesSorted t
unfolding to_list is_prefix mi_search search strncmp
mi_insert_new_example =
    mi_insert_new (plain_rb file_addr) driver.files file_b (tt, tt) refl (refl, tt)

mi_remove_covering_example :
    ((mi_remove (plain_rb file_addr) driver.files path_ac).0 ≡ some file_a)
    × (to_list (mi_remove (plain_rb file_addr) driver.files path_ac).1
        ≡ keep (λ a. not (a.addr == 2)) (to_list driver.files))
unfolding to_list is_prefix
mi_remove_covering_example =
    mi_remove_covering (plain_rb file_addr) driver.files path_ac file_a (tt, tt) (inl refl) refl

-- "/ab" and then "/a" are inserted, and "/ac" is searched for.
abbrev file_ab : FileEntry
file_ab = record file_a { path = b'/' ∷ b'a' ∷ b'b' ∷ [] }

abbrev ac : List ℕ
ac = b'/' ∷ b'a' ∷ b'c' ∷ []

shorter : path_a ≢ file_ab.path
shorter e = cc

mi_search_misses_example :
    (attach (λ e. against path_a e.path) file_a (node leaf file_ab leaf)
      ≡ some (node (node leaf file_a leaf) file_ab leaf))
    × Has file_a (file_a ∷ [])
    × (mi_search (node (node leaf file_a leaf) file_ab leaf) ac ≡ none)
unfolding is_prefix strncmp attach to_list
mi_search_misses_example =
    mi_search_misses leaf leaf (node leaf file_a leaf) file_ab file_a ac refl shorter refl refl tt

get_abs_full_path_from_dentry-full_path_example :
    get_abs_full_path_from_dentry (child (b'c' ∷ []) dentry_a) []
    ≡ full_path (child (b'c' ∷ []) dentry_a)
unfolding differs_from_slash strncmp
get_abs_full_path_from_dentry-full_path_example =
    get_abs_full_path_from_dentry-full_path (b'c' ∷ []) dentry_a [] (refl, refl)

log_path-differs_example : log_path (b'/' ∷ b'l' ∷ []) 12 ≢ log_path (b'/' ∷ b'l' ∷ []) 13
log_path-differs_example =
    log_path-differs (b'/' ∷ b'l' ∷ []) 12 13 (omega arith) (omega arith) (omega arith)
      (omega arith)

mi_insert-none_example :
    (mi_insert (plain_rb file_addr) driver.files file_b ≡ none)
    ↔ ((a : FileEntry) × (mi_search driver.files file_b.path ≡ some a))
mi_insert-none_example = mi_insert-none (plain_rb file_addr) driver.files file_b

ms_search_complete_example : ms_search driver.sets 7 ≡ some set_7
unfolding to_list
ms_search_complete_example = ms_search_complete driver.sets set_7 (tt, tt) (inl refl)
