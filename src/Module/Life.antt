-- ===== src/Module/Life.antt =====
-- module.c: a reboot that the next start knows of.
use github_upload.Base.{
  ℕ, ◌+◌, ◌*◌, ◌^◌, ◌<◌, List, [], true, false, ok, some, pos, length, ◌≡◌, refl, arith, All, map,
  Has,
}
use github_upload.Rb.{leaf, to_list}
use github_upload.Driver.{Driver, Kernel, Block, pure, bind-ok, alloc, ◌>>◌}
use github_upload.Module.{myreboot}
use github_upload.MonitorSet.{init_monitor_set}
use github_upload.ConfigFile.{load_config, save_config, header_size, set_size, file_size}
use github_upload.ConfigFile.RoundTrip.{LoadedFrom, load_config-save_config}
use github_upload.MonitorSet.Sound.{Keeps, Keeps-bind, Keeps-pure, Keeps-after, same_trees}
use github_upload.MonitorSet.SaveSound.{save_config-Keeps}
use github_upload.Rb.Sets.{SetsSorted}
use github_upload.Rb.Files.{FilesSorted}

-- The driver as `InitMonitorSet` leaves it to `LoadConfig`.
abbrev pub cleared : Driver → Driver
cleared e = record e {
  files = leaf;
  files_count = 0;
  sets = leaf;
  sets_count = 0;
  valid = true;
  normal_running = true;
  last_shutdown = 0;
  stop_task = false;
  queue = [];
  next_addr = e.next_addr + 1 + 1;
  allocs = [];
}

module _ (k : Kernel) where
  init_monitor_set-loads :
      (e u : Driver)
      → e.allocs ≡ []
      → load_config k (cleared e) ≡ ok (pos 0, u)
      → init_monitor_set k e ≡ ok (pos 0, u)
  unfolding init_monitor_set alloc
  init_monitor_set-loads e u a l =
      rw a (bind-ok (load_config k) (λ _. pure (pos 0)) (cleared e) u (pos 0) l)

  -- What a driver has when it is told of a reboot, the driver that is started on the same disk has
  -- again, and it knows that the system was shut down: the sets in order at new addresses, the files in
  -- order linked to their sets, and 2 for the last shutdown. The file operations and allocations succeed,
  -- and the entries are as `LoadConfig` needs them.
  pub init_monitor_set-myreboot :
      (d e : Driver) (f : List (ℕ × Block))
      → d.io ≡ []
      → d.cnf ≡ some f
      → header_size + set_size * length (to_list d.sets) + file_size * length (to_list d.files)
        < 2 ^ 32
      → SetsSorted d.sets
      → FilesSorted d.files
      → All (λ x. Has x.guid (map (λ s. s.guid) (to_list d.sets))) (to_list d.files)
      → e.allocs ≡ []
      → e.io ≡ []
      → (g : List (ℕ × Block)) × (myreboot d
          ≡ ok (pos 1, record d { last_shutdown = 2; cnf = some g }))
        × ((u : Driver) × (init_monitor_set k (record e { cnf = some g }) ≡ ok (pos 0, u))
            × LoadedFrom k 2 (to_list d.sets) (to_list d.files) (cleared e) u)
  unfolding myreboot
  init_monitor_set-myreboot d e f io c fits ss fs linked a io' =
      let d' : Driver = record d { last_shutdown = 2 } in
      let (g, saved, (u, loads, loaded)) =
        load_config-save_config k d' (cleared e) f io c fits ss fs linked refl io' refl refl in
      (
        g,
        bind-ok save_config (λ _. pure (pos 1)) d' (record d' { cnf = some g }) (pos 0) saved,
        (u, init_monitor_set-loads (record e { cnf = some g }) u a loads, loaded),
      )

  -- `myreboot` keeps the trees, and ends.
  pub myreboot-Keeps : Keeps myreboot
  unfolding myreboot
  myreboot-Keeps =
      Keeps-after (λ d. record d { last_shutdown = 2 }) (save_config >> pure (pos 1))
        (λ d s. same_trees d _ refl refl (omega arith) s)
        (Keeps-bind save_config _ save_config-Keeps (λ _. Keeps-pure (pos 1)))
