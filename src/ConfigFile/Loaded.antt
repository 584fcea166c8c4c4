-- ===== src/ConfigFile/Loaded.antt =====
-- monitorset.c: what `LoadConfig` makes of a file that `SaveConfig` has left.
use mathlib.Core.Option
use github_upload.Base.{
  ℕ, suc, ◌+◌, ◌*◌, compare, Ordering, List, [], ◌∷◌, ◌++◌, Bool, true, some, ok, ◌≡◌, refl, arith,
  length, ap, sym, ◌∙◌, subst, All, All-right, All-append, All-imp, append_assoc, append-nil,
}
use github_upload.Entries.{SetEntry, FileEntry, set_addr, file_addr}
use github_upload.Rb.{Tree, leaf, node, to_list, attach, RbOps}
use github_upload.Rb.Split.{IsSorted, AllBefore, AllBefore-head, AllBefore-tail}
use github_upload.Rb.Sets.{ms_search, ms_insert, GuidBefore}
use github_upload.Rb.Files.{mi_insert, PathBefore}
use github_upload.Driver.{Driver, Kernel, Block, set_block, file_block, M, bind-ok, alloc, next_io}
use github_upload.ConfigFile.{
  set_size, file_size, read_at, file_read, load_sets, load_files, set_read, set_alloc, file_linked,
  entry_read, file_alloc, tree_or,
}
use github_upload.ConfigFile.Saved.{SetsStored, FilesStored}

-- An entry that compares as greater than all others is attached behind them.
attach-last :
    {A : Type 0} (cmp : A → Ordering) (x : A) (t : Tree A)
    → All (λ a. cmp a ≡ Ordering.gt) (to_list t)
    → (t' : Tree A) × (attach cmp x t ≡ some t') × (to_list t' ≡ to_list t ++ (x ∷ []))
unfolding attach to_list
attach-last cmp x leaf h = (node leaf x leaf, refl, refl)
attach-last cmp x (node l a r) h =
    let h' = All-right (λ a. cmp a ≡ Ordering.gt) (to_list l) (a ∷ to_list r) h in
    let (t, eq, q) = attach-last cmp x r h'.1 in
    (
      node l a t,
      rw (h'.0, attach) (ap (Option.map (λ u. node l a u)) eq),
      ap (λ u. to_list l ++ (a ∷ u)) q ∙ sym (append_assoc (to_list l) (a ∷ to_list r) (x ∷ [])),
    )

ms_insert-last :
    (rb : RbOps set_addr) (t : Tree SetEntry) (e : SetEntry)
    → All (λ a. GuidBefore a e) (to_list t)
    → (t' : Tree SetEntry) × (ms_insert rb t e ≡ some t') × (to_list t' ≡ to_list t ++ (e ∷ []))
unfolding ms_insert
ms_insert-last rb t e h =
    let (t', eq, q) =
      attach-last (λ a. compare e.guid a.guid) e t
        (All-imp _ _ (to_list t) (λ a l. ground arith) h) in
    (
      rb.rb_insert_color t',
      ap (Option.map rb.rb_insert_color) eq,
      rb.to_list-rb_insert_color t' ∙ q,
    )

mi_insert-last :
    (rb : RbOps file_addr) (t : Tree FileEntry) (e : FileEntry)
    → All (λ a. PathBefore a e) (to_list t)
    → (t' : Tree FileEntry) × (mi_insert rb t e ≡ some t') × (to_list t' ≡ to_list t ++ (e ∷ []))
unfolding mi_insert
mi_insert-last rb t e h =
    let (t', eq, q) = attach-last _ e t (All-imp _ _ (to_list t) (λ a l. l.1) h) in
    (
      rb.rb_insert_color t',
      ap (Option.map rb.rb_insert_color) eq,
      rb.to_list-rb_insert_color t' ∙ q,
    )

-- The sets at the addresses from `p` on.
abbrev pub renumbered : ℕ → List SetEntry → List SetEntry
renumbered p [] = []
renumbered p (e ∷ es) = record e { addr = p } ∷ renumbered (p + 1) es

-- The files at the addresses from `p` on, each linked to its set in the tree.
abbrev pub relinked : Tree SetEntry → ℕ → List FileEntry → List FileEntry
relinked sets p [] = []
relinked sets p (e ∷ es) =
    record e { addr = p; set_entry = Option.map set_addr (ms_search sets e.guid) }
    ∷ relinked sets (p + 1) es

alloc-done :
    (d : Driver)
    → d.allocs ≡ []
    → alloc d ≡ ok (some d.next_addr, record d { next_addr = d.next_addr + 1 })
unfolding alloc
alloc-done d a = ground arith

pub file_read-done :
    (p : ℕ) (d : Driver) (f : List (ℕ × Block)) (b : Block)
    → d.io ≡ []
    → d.cnf ≡ some f
    → read_at p f ≡ some b
    → file_read p d ≡ ok (some b, d)
unfolding file_read next_io
file_read-done p d f b i c h = ground arith

module _ (k : Kernel) where
  pub load_sets-loads :
      (xs : List SetEntry) (i o : ℕ) (d : Driver) (f : List (ℕ × Block))
      → d.allocs ≡ []
      → d.io ≡ []
      → d.cnf ≡ some f
      → SetsStored xs (o + i * set_size) f
      → IsSorted GuidBefore xs
      → AllBefore GuidBefore (to_list d.sets) xs
      → (t : Tree SetEntry) × (load_sets k (length xs) i o d
          ≡ ok (true, record d { sets = t; next_addr = d.next_addr + length xs }))
        × (to_list t ≡ to_list d.sets ++ renumbered d.next_addr xs)
  unfolding load_sets set_alloc set_read
  load_sets-loads [] i o d f a io c st s b =
      (d.sets, ground arith, sym (append-nil (to_list d.sets)))
  load_sets-loads (e ∷ xs) i o d f a io c st s b =
      let e' : SetEntry = record e { addr = d.next_addr } in
      let d1 : Driver = record d { next_addr = d.next_addr + 1 } in
      let (t, ins, tl) =
        ms_insert-last k.set_rb d.sets e' (AllBefore-head GuidBefore (to_list d.sets) e xs b) in
      let d2 : Driver = record d1 { sets = t } in
      let before : AllBefore GuidBefore (to_list t) xs =
        subst (λ l. AllBefore GuidBefore l xs) (sym tl)
          (All-append _ (to_list d.sets) (e' ∷ [])
            (AllBefore-tail GuidBefore (to_list d.sets) e xs b) (s.0, tt)) in
      let stored : SetsStored xs (o + suc i * set_size) f =
        subst (λ n. SetsStored xs n f) (omega arith) st.1 in
      let (t', run, tl') = load_sets-loads xs (suc i) o d2 f a io c stored s.1 before in
      (
        t',
        bind-ok alloc (set_alloc k (o + i * set_size) (load_sets k (length xs) (suc i) o)) d d1
              (some d.next_addr) (alloc-done d a)
            ∙ bind-ok (file_read (o + i * set_size))
                (set_read k d.next_addr (load_sets k (length xs) (suc i) o)) d1 d1
                (some (set_block e))
                (file_read-done (o + i * set_size) d1 f (set_block e) io c st.0)
            ∙ ap (λ u. load_sets k (length xs) (suc i) o (record d1 { sets = tree_or d.sets u }))
                ins
            ∙ run
            ∙ ap (λ n. ok (true, record d { sets = t'; next_addr = n })) (omega arith),
        tl'
            ∙ ap (λ l. l ++ renumbered (d.next_addr + 1) xs) tl
            ∙ append_assoc (to_list d.sets) (e' ∷ []) (renumbered (d.next_addr + 1) xs),
      )

  pub load_files-loads :
      (xs : List FileEntry) (i o : ℕ) (d : Driver) (f : List (ℕ × Block))
      → d.allocs ≡ []
      → d.io ≡ []
      → d.cnf ≡ some f
      → FilesStored xs (o + i * file_size) f
      → IsSorted PathBefore xs
      → AllBefore PathBefore (to_list d.files) xs
      → All (λ e. (s : SetEntry) × (ms_search d.sets e.guid ≡ some s)) xs
      → (t : Tree FileEntry) × (load_files k (length xs) i o d
          ≡ ok (true, record d { files = t; next_addr = d.next_addr + length xs }))
        × (to_list t ≡ to_list d.files ++ relinked d.sets d.next_addr xs)
  unfolding load_files file_alloc entry_read file_linked
  load_files-loads [] i o d f a io c st s b h =
      (d.files, ground arith, sym (append-nil (to_list d.files)))
  load_files-loads (e ∷ xs) i o d f a io c st s b h =
      let set : SetEntry = h.0.0 in
      let e' : FileEntry = record e { addr = d.next_addr; set_entry = some set.addr } in
      let d1 : Driver = record d { next_addr = d.next_addr + 1 } in
      let (t, ins, tl) =
        mi_insert-last k.file_rb d.files e' (AllBefore-head PathBefore (to_list d.files) e xs b) in
      let d2 : Driver = record d1 { files = t } in
      let before : AllBefore PathBefore (to_list t) xs =
        subst (λ l. AllBefore PathBefore l xs) (sym tl)
          (All-append _ (to_list d.files) (e' ∷ [])
            (AllBefore-tail PathBefore (to_list d.files) e xs b) (s.0, tt)) in
      let stored : FilesStored xs (o + suc i * file_size) f =
        subst (λ n. FilesStored xs n f) (omega arith) st.1 in
      let (t', run, tl') = load_files-loads xs (suc i) o d2 f a io c stored s.1 before h.1 in
      let next : M Bool = load_files k (length xs) (suc i) o in
      (
        t',
        bind-ok alloc (file_alloc k (o + i * file_size) next) d d1 (some d.next_addr)
              (alloc-done d a)
            ∙ bind-ok (file_read (o + i * file_size)) (entry_read k d.next_addr next) d1 d1
                (some (file_block e))
                (file_read-done (o + i * file_size) d1 f (file_block e) io c st.0)
            ∙ ap (λ o. file_linked k d.next_addr e next o d1) h.0.1
            ∙ ap (λ u. next (record d1 { files = tree_or d.files u })) ins
            ∙ run
            ∙ ap (λ n. ok (true, record d { files = t'; next_addr = n })) (omega arith),
        tl'
            ∙ ap (λ l. l ++ relinked d.sets (d.next_addr + 1) xs) tl
            ∙ append_assoc (to_list d.files) (e' ∷ []) (relinked d.sets (d.next_addr + 1) xs)
            ∙ ap
                (λ o.
                  to_list d.files
                  ++ (record e { addr = d.next_addr; set_entry = Option.map set_addr o }
                      ∷ relinked d.sets (d.next_addr + 1) xs))
                (sym h.0.1),
      )
