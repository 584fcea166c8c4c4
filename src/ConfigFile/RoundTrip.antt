-- ===== src/ConfigFile/RoundTrip.antt =====
-- monitorset.c: `LoadConfig` gets back what `SaveConfig` has written.
use github_upload.Base.{
  ℕ, ◌+◌, ◌*◌, ◌/◌, ◌^◌, ◌<◌, List, [], ◌∷◌, true, false, some, ok, ℤ, pos, ◌≡◌, refl, arith,
  length, inl, inr, sym, ◌∙◌, subst, All, All-imp, Has, map,
}
use github_upload.Entries.{SetEntry, FileEntry}
use github_upload.Rb.{Tree, leaf, to_list}
use github_upload.Rb.Split.{IsSorted, AllBefore}
use github_upload.Rb.Sets.{ms_search, GuidBefore, SetsSorted, ms_search_complete}
use github_upload.Rb.Files.{PathBefore, FilesSorted}
use github_upload.Driver.{
  Driver, Kernel, Block, header_block, M, pure, fault, ◌>>=◌, bind-ok, check_or,
}
use github_upload.ConfigFile.{
  header_size, set_size, file_size, open_cnf, file_read, save_config, load_sets, load_files,
  load_config, load_body, full_header,
}
use github_upload.ConfigFile.Saved.{Configured, FilesStored, open_cnf-done, save_config-saves}
use github_upload.ConfigFile.Loaded.{
  renumbered, relinked, load_sets-loads, load_files-loads, file_read-done,
}

renumbered-IsSorted :
    (p : ℕ) (es : List SetEntry) → IsSorted GuidBefore es → IsSorted GuidBefore (renumbered p es)
renumbered-IsSorted p [] s = tt
renumbered-IsSorted p (e ∷ es) s = (all (p + 1) es s.0, renumbered-IsSorted (p + 1) es s.1)
  where
    all :
        (q : ℕ) (xs : List SetEntry) → All (GuidBefore e) xs → All (GuidBefore e) (renumbered q xs)
    all q [] h = tt
    all q (x ∷ xs) h = (h.0, all (q + 1) xs h.1)

renumbered-Has :
    (p g : ℕ) (es : List SetEntry)
    → Has g (map (λ e. e.guid) es)
    → (e : SetEntry) × (e.guid ≡ g) × Has e (renumbered p es)
renumbered-Has p g [] h = absurd h
renumbered-Has p g (e ∷ es) (inl q) = (record e { addr = p }, q, inl refl)
renumbered-Has p g (e ∷ es) (inr h) = let (a, q, m) = renumbered-Has (p + 1) g es h in (a, q, inr m)

-- A GUID of the sets is found in the tree that they have been loaded into.
loaded_found :
    (p g : ℕ) (es : List SetEntry) (t : Tree SetEntry)
    → IsSorted GuidBefore es
    → to_list t ≡ renumbered p es
    → Has g (map (λ e. e.guid) es)
    → (s : SetEntry) × (ms_search t g ≡ some s)
loaded_found p g es t s q h =
    let (e, eg, m) = renumbered-Has p g es h in
    let sorted : SetsSorted t = subst (IsSorted GuidBefore) (sym q) (renumbered-IsSorted p es s) in
    (
      e,
      subst (λ n. ms_search t n ≡ some e) eg
          (ms_search_complete t e sorted (subst (Has e) (sym q) m)),
    )

nothing_before :
    {A : Type 0} (R : A → A → Type 0) (t : Tree A) (xs : List A)
    → t ≡ leaf
    → AllBefore R (to_list t) xs
unfolding to_list
nothing_before R t xs e = rw e tt

module _ (k : Kernel) where
  -- The driver that `LoadConfig` leaves for these sets and files.
  pub record LoadedFrom (shutdown : ℕ) (sets : List SetEntry) (files : List FileEntry)
      (d u : Driver) : Type 0 where
    pub sets_back : to_list u.sets ≡ renumbered d.next_addr sets
    pub files_back : to_list u.files ≡ relinked u.sets (d.next_addr + length sets) files
    pub shutdown_back : u.last_shutdown ≡ shutdown
    pub counts_stay : (u.sets_count ≡ d.sets_count) × (u.files_count ≡ d.files_count)

  load_config-loads :
      (shutdown : ℕ) (sets : List SetEntry) (files : List FileEntry) (g : List (ℕ × Block))
      (d : Driver)
      → Configured shutdown sets files g
      → IsSorted GuidBefore sets
      → IsSorted PathBefore files
      → All (λ e. Has e.guid (map (λ s. s.guid) sets)) files
      → d.allocs ≡ []
      → d.io ≡ []
      → d.sets ≡ leaf
      → d.files ≡ leaf
      → d.cnf ≡ some g
      → (u : Driver) × (load_config k d ≡ ok (pos 0, u)) × LoadedFrom shutdown sets files d u
  unfolding load_config load_body to_list
  load_config-loads shutdown sets files g d conf ss fs linked a io st ft c =
      let h =
        full_header shutdown (set_size * length sets) (header_size + set_size * length sets)
          (file_size * length files) in
      let d1 : Driver = record d { cnf = some g } in
      let d2 : Driver = record d1 { last_shutdown = shutdown } in
      let (t, run, tl) =
        load_sets-loads k sets 0 header_size d2 g a io refl conf.sets_stored ss
          (nothing_before GuidBefore d.sets sets st) in
      let d3 : Driver = record d2 { sets = t; next_addr = d.next_addr + length sets } in
      let tl' : to_list t ≡ renumbered d.next_addr sets = tl ∙ rw st refl in
      let found =
        All-imp _ _ files (λ e m. loaded_found d.next_addr e.guid sets t ss tl' m) linked in
      let (r, run', rl) =
        load_files-loads k files 0 (header_size + set_size * length sets) d3 g a io refl
          (subst (λ n. FilesStored files n g) (omega arith) conf.files_stored) fs
          (nothing_before PathBefore d.files files ft) found in
      let d4 : Driver = record d3 {
        files = r;
        next_addr = d.next_addr + length sets + length files;
      } in
      let sets_n : h.size_set / set_size ≡ length sets = omega arith in
      let files_n : h.size_files / file_size ≡ length files = omega arith in
      let rest : M ℤ =
        check_or (load_files k (h.size_files / file_size) 0 h.offset_files) (pos 0)
          (pure (pos 0)) in
      (
        d4,
        bind-ok (open_cnf true) (elim [ false ↦ fault | true ↦ file_read 0 >>= load_body k ]) d d1
              true (open_cnf-done true d g io c)
            ∙ bind-ok (file_read 0) (load_body k) d1 d1 (some (header_block h))
                (file_read-done 0 d1 g (header_block h) io refl conf.header)
            ∙ bind-ok (load_sets k (h.size_set / set_size) 0 h.offset_set)
                (elim [ true ↦ rest | false ↦ pure (pos 0) ]) d2 d3 true (rw sets_n run)
            ∙ bind-ok (load_files k (h.size_files / file_size) 0 h.offset_files)
                (elim [ true ↦ pure (pos 0) | false ↦ pure (pos 0) ]) d3 d4 true (rw files_n run'),
        record {
          sets_back = tl';
          files_back = rl ∙ rw ft refl;
          shutdown_back = refl;
          counts_stay = (refl, refl);
        },
      )

  -- `SaveConfig` and then `LoadConfig` in a driver that has nothing yet, all operations succeeding: the
  -- sets come back in order, at new addresses, and the files in order, each linked to its set, with the
  -- last shutdown. The sets are sorted by GUID and the files by path, none a prefix of another, each
  -- file's set is there, and all sizes fit their 32 bits. The counts are not set by it.
  pub load_config-save_config :
      (d fresh : Driver) (f : List (ℕ × Block))
      → d.io ≡ []
      → d.cnf ≡ some f
      → header_size + set_size * length (to_list d.sets) + file_size * length (to_list d.files)
        < 2 ^ 32
      → SetsSorted d.sets
      → FilesSorted d.files
      → All (λ e. Has e.guid (map (λ s. s.guid) (to_list d.sets))) (to_list d.files)
      → fresh.allocs ≡ []
      → fresh.io ≡ []
      → fresh.sets ≡ leaf
      → fresh.files ≡ leaf
      → (g : List (ℕ × Block)) × (save_config d ≡ ok (pos 0, record d { cnf = some g }))
        × ((u : Driver) × (load_config k (record fresh { cnf = some g }) ≡ ok (pos 0, u))
            × LoadedFrom d.last_shutdown (to_list d.sets) (to_list d.files) fresh u)
  load_config-save_config d fresh f io c fits ss fs linked a io' st ft =
      let (g, run, conf) = save_config-saves d f io c fits in
      let (u, back, loaded) =
        load_config-loads d.last_shutdown (to_list d.sets) (to_list d.files) g
          (record fresh { cnf = some g }) conf ss fs linked a io' st ft refl in
      (
        g,
        run,
        (
          u,
          back,
          record {
            sets_back = loaded.sets_back;
            files_back = loaded.files_back;
            shutdown_back = loaded.shutdown_back;
            counts_stay = loaded.counts_stay;
          },
        ),
      )
