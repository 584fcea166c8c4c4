-- ===== src/IoLog/Sound.antt =====
-- Building, queueing and writing io logs keeps the invariant of the two trees.
use github_upload.Base.{
  ℕ, zero, suc, ◌+◌, ◌-◌, ◌^◌, List, [], ◌∷◌, Bool, true, false, Option, none, some, ℤ, pos, negsuc,
  is_nonzero, ◌≡◌, refl, arith, Bool-cases, inl, inr, length, ltb, ◌==◌,
}
use github_upload.LogFile.{LogFile, log_file_size}
use github_upload.Driver.{◌>>=◌, M, Driver, IoWriteContext, Kernel, pure, ◌>>◌, alloc, next_io}
use github_upload.ConfigFile.{save_config, u32}
use github_upload.MonitorSet.Sound.{
  Keeps-after, Keeps-same, Keeps, Keeps-bind, Keeps-pure, same_trees,
}
use github_upload.MonitorSet.SaveSound.{
  notify_user_status-Keeps, alloc-Keeps, next_io-Keeps, save_config-Keeps,
}
use github_upload.MonitorSet.Sequence.{Stamp}
use github_upload.Netlink.Sound.{fault-Keeps}
use github_upload.IoLog.{queue_log, with_log_file, createiolog_for_write, fill_write_log}
use github_upload.IoLog.WriteThread.{
  client_error, notify_user_status, createiolog, after_open, after_write, report, write_next,
  write_rounds, drain_queue,
}

queue_log-Keeps : (dir : List ℕ) (n : ℕ) (l : LogFile) → Keeps (queue_log dir n l)
unfolding queue_log
queue_log-Keeps dir n l = Keeps-bind alloc _ alloc-Keeps (elim [
  | none ↦ fault-Keeps
  | some p ↦ Keeps-bind alloc _ alloc-Keeps (elim [
    | none ↦ fault-Keeps
    | some q ↦ record {
      run = λ d a u s e. same_trees d u (ground arith) (ground arith) (ground arith) s;
      ends = λ d s e. ground arith;
    }
  ])
])

pub with_log_file-Keeps : (s : Stamp) (l : LogFile) → Keeps (with_log_file s l)
unfolding with_log_file
with_log_file-Keeps s l =
    Keeps-bind alloc _ alloc-Keeps (elim [
      | none ↦ Keeps-pure (negsuc 0)
      | some p ↦ queue_log-Keeps s.iologdir s.global_seq_no l
    ])

pub createiolog_for_write-Keeps :
    (s : Stamp) (path buf : List ℕ) (count position : ℕ)
    → Keeps (createiolog_for_write s path buf count position)
unfolding createiolog_for_write
createiolog_for_write-Keeps s path buf count position =
    elim (Bool-cases (ltb (u32 (log_file_size + count - 4)) (2 ^ 31))) [
      | inr e ↦ rw (e, createiolog_for_write) (Keeps-pure (negsuc 0))
      | inl e ↦
          rw (e, createiolog_for_write)
            (Keeps-bind alloc (fill_write_log s path buf count position) alloc-Keeps filled)
    ]
  where
    filled : (memory : Option ℕ) → Keeps (fill_write_log s path buf count position memory)
    filled none = Keeps-pure (negsuc 0)
    filled (some p) =
        let size = log_file_size + count - 4 in
        elim (Bool-cases (u32 size == size)) [
          | inl h ↦ rw (h, fill_write_log) (queue_log-Keeps s.iologdir s.global_seq_no _)
          | inr h ↦ rw (h, fill_write_log) fault-Keeps
        ]

module _ (k : Kernel) where
  after_write-Keeps : (c : IoWriteContext) (b : Bool) → Keeps (after_write k c b)
  unfolding after_write
  after_write-Keeps c false = Keeps-pure (negsuc 0)
  after_write-Keeps c true =
      Keeps-after (λ d. record d { logs = c ∷ d.logs }) (save_config >> pure (pos 0))
        (λ d s. same_trees d (record d { logs = c ∷ d.logs }) refl refl (omega arith) s) saved
    where
      saved : Keeps (save_config >> pure (pos 0))
      saved = Keeps-bind save_config (λ _. pure (pos 0)) save_config-Keeps (λ _. Keeps-pure (pos 0))

  after_open-Keeps : (c : IoWriteContext) (b : Bool) → Keeps (after_open k c b)
  unfolding after_open
  after_open-Keeps c false =
      Keeps-bind (notify_user_status client_error k.open_status) (λ _. pure (negsuc 0))
        (notify_user_status-Keeps client_error k.open_status) (λ _. Keeps-pure (negsuc 0))
  after_open-Keeps c true = Keeps-bind next_io (after_write k c) next_io-Keeps (after_write-Keeps c)

  createiolog-Keeps : (c : IoWriteContext) → Keeps (createiolog k c)
  unfolding createiolog
  createiolog-Keeps c = Keeps-bind next_io (after_open k c) next_io-Keeps (after_open-Keeps c)

  report-Keeps : (iret : ℤ) → Keeps (report k iret)
  unfolding report
  report-Keeps iret = elim (Bool-cases (is_nonzero iret)) [
    | inr e ↦ rw (e, report) (Keeps-pure tt)
    | inl e ↦
        rw (e, report)
          (Keeps-bind (notify_user_status client_error (negsuc 1)) (λ _. pure tt)
            (notify_user_status-Keeps client_error (negsuc 1)) (λ _. Keeps-pure tt))
  ]

  write_next-Keeps : Keeps (write_next k)
  unfolding write_next
  write_next-Keeps = Keeps-same (write_next k) λ d. by_queue d d.queue refl
    where
      by_queue :
          (d : Driver) (q : List IoWriteContext)
          → d.queue ≡ q
          → (n : M (Unit {0})) × Keeps n × (write_next k d ≡ n d)
      by_queue d [] h = (pure tt, Keeps-pure tt, ground arith)
      by_queue d (c ∷ rest) h = (
        λ d. (createiolog k c >>= report k) (record d { queue = rest }),
        Keeps-after (λ d. record d { queue = rest }) (createiolog k c >>= report k)
            (λ d s. same_trees d (record d { queue = rest }) refl refl (omega arith) s)
            (Keeps-bind (createiolog k c) (report k) (createiolog-Keeps c) (report-Keeps)),
        ground arith,
      )

  write_rounds-Keeps : (n : ℕ) → Keeps (write_rounds k n)
  unfolding write_rounds
  write_rounds-Keeps zero = Keeps-pure tt
  write_rounds-Keeps (suc n) =
      Keeps-bind (write_next k) (λ _. write_rounds k n) write_next-Keeps (λ _. write_rounds-Keeps n)

  pub drain_queue-Keeps : Keeps (drain_queue k)
  unfolding drain_queue
  drain_queue-Keeps = record {
    run = λ d. (write_rounds-Keeps (length d.queue)).run d;
    ends = λ d. (write_rounds-Keeps (length d.queue)).ends d;
  }
