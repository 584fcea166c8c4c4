-- ===== src/IoLog/Drain.antt =====
-- iowritethread.c: the write thread writes the logs of its queue in the order in which they came.
use github_upload.Base.{
  ℕ, ◌+◌, ◌*◌, ◌^◌, ◌<◌, List, [], ◌∷◌, true, some, ok, pos, ◌≡◌, refl, arith, length, ◌∙◌,
}
use github_upload.Rb.{to_list}
use github_upload.Driver.{Driver, Kernel, IoWriteContext, Block, pure, bind-ok, next_io}
use github_upload.ConfigFile.{header_size, set_size, file_size, save_config}
use github_upload.ConfigFile.Saved.{save_config-saves}
use github_upload.IoLog.WriteThread.{
  createiolog, after_open, after_write, report, write_next, write_rounds, drain_queue,
}

-- The logs of a queue once they are on disk, the latest first.
abbrev pub onto : List IoWriteContext → List IoWriteContext → List IoWriteContext
onto [] logs = logs
onto (c ∷ cs) logs = onto cs (c ∷ logs)

next_io-done : (d : Driver) → d.io ≡ [] → next_io d ≡ ok (true, d)
unfolding next_io
next_io-done d i = ground arith

module _ (k : Kernel) where
  write_next-writes :
      (c : IoWriteContext) (rest : List IoWriteContext) (d : Driver) (f : List (ℕ × Block))
      → d.queue ≡ c ∷ rest
      → d.io ≡ []
      → d.cnf ≡ some f
      → header_size + set_size * length (to_list d.sets) + file_size * length (to_list d.files)
        < 2 ^ 32
      → (g : List (ℕ × Block)) × (write_next k d
          ≡ ok (tt, record d { queue = rest; logs = c ∷ d.logs; cnf = some g }))
  unfolding write_next createiolog after_open after_write report
  write_next-writes c rest d f q i n fits =
      let d1 : Driver = record d { queue = rest } in
      let d2 : Driver = record d1 { logs = c ∷ d.logs } in
      let (g, saved, _) = save_config-saves d2 f i n fits in
      let d3 : Driver = record d2 { cnf = some g } in
      let made : createiolog k c d1 ≡ ok (pos 0, d3) =
        bind-ok next_io (after_open k c) d1 d1 true (next_io-done d1 i)
        ∙ bind-ok next_io (after_write k c) d1 d1 true (next_io-done d1 i)
        ∙ bind-ok save_config (λ _. pure (pos 0)) d2 d3 (pos 0) saved in
      (g, rw (q, write_next) (bind-ok (createiolog k c) (report k) d1 d3 (pos 0) made))

  write_rounds-writes :
      (q : List IoWriteContext) (d : Driver) (f : List (ℕ × Block))
      → d.queue ≡ q
      → d.io ≡ []
      → d.cnf ≡ some f
      → header_size + set_size * length (to_list d.sets) + file_size * length (to_list d.files)
        < 2 ^ 32
      → (g : List (ℕ × Block)) × (write_rounds k (length q) d
          ≡ ok (tt, record d { queue = []; logs = onto q d.logs; cnf = some g }))
  unfolding write_rounds
  write_rounds-writes [] d f q i n fits = (f, ground arith)
  write_rounds-writes (c ∷ rest) d f q i n fits =
      let (g, one) = write_next-writes c rest d f q i n fits in
      let d1 : Driver = record d { queue = rest; logs = c ∷ d.logs; cnf = some g } in
      let (g', others) = write_rounds-writes rest d1 g refl i refl fits in
      (g', bind-ok (write_next k) (λ _. write_rounds k (length rest)) d d1 tt one ∙ others)

  -- Where all file operations succeed, the write thread empties its queue, the logs are on disk in the
  -- order in which they were queued, nothing is reported, and of the rest only the configuration file has
  -- been written anew.
  pub drain_queue-writes :
      (d : Driver) (f : List (ℕ × Block))
      → d.io ≡ []
      → d.cnf ≡ some f
      → header_size + set_size * length (to_list d.sets) + file_size * length (to_list d.files)
        < 2 ^ 32
      → (g : List (ℕ × Block)) × (drain_queue k d
          ≡ ok (tt, record d { queue = []; logs = onto d.queue d.logs; cnf = some g }))
  unfolding drain_queue
  drain_queue-writes d f i n fits = write_rounds-writes d.queue d f refl i n fits
