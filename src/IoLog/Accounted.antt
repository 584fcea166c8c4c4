-- ===== src/IoLog/Accounted.antt =====
-- iowritethread.c and createiolog.c: whatever the file operations come to, each log of the queue is on
-- disk, or its loss is told.
use github_upload.Base.{
  ◌+◌, List, [], ◌∷◌, Bool, true, false, ok, ℤ, pos, negsuc, ◌≡◌, refl, length, ◌∙◌, arith,
}
use github_upload.Driver.{
  Driver, Kernel, IoWriteContext, Notice, ◌>>=◌, pure, bind-ok, next_answer, next_io, alloc,
}
use github_upload.ConfigFile.{save_config}
use github_upload.ConfigFile.Frame.{save_config-OnlyFile}
use github_upload.IoLog.WriteThread.{
  client_error, notify_user_status, createiolog, after_open, after_write, report, write_next,
  write_rounds, drain_queue,
}

-- The notice that a log is lost, -2.
abbrev pub lost_notice : Notice
lost_notice = record { type = client_error; status = negsuc 1 }

-- A queue and what has become of it: the logs on disk and the notices, before and behind, the latest
-- first. A log is on disk; or its file could not be opened, which is told with the error and with -2; or
-- it was written short, which is told with -2.
pub data Accounted (k : Kernel)
    : List IoWriteContext
      → List IoWriteContext
      → List Notice
      → List IoWriteContext
      → List Notice
      → Type 0 where
  empty : (logs : List IoWriteContext) (sent : List Notice) → Accounted k [] logs sent logs sent
  on_disk :
      (c : IoWriteContext) (cs logs logs' : List IoWriteContext) (sent sent' : List Notice)
      → Accounted k cs (c ∷ logs) sent logs' sent'
      → Accounted k (c ∷ cs) logs sent logs' sent'
  unopened :
      (c : IoWriteContext) (cs logs logs' : List IoWriteContext) (sent sent' : List Notice)
      → Accounted k cs logs
          (lost_notice ∷ record { type = client_error; status = k.open_status } ∷ sent)
          logs'
          sent'
      → Accounted k (c ∷ cs) logs sent logs' sent'
  short :
      (c : IoWriteContext) (cs logs logs' : List IoWriteContext) (sent sent' : List Notice)
      → Accounted k cs logs (lost_notice ∷ sent) logs' sent'
      → Accounted k (c ∷ cs) logs sent logs' sent'

notify_user_status-told :
    (type : _) (status : ℤ) (d : Driver)
    → d.allocs ≡ []
    → notify_user_status type status d
      ≡ ok (
        pos 1,
        record d {
          next_addr = d.next_addr + 1 + 1;
          sent = record { type = type; status = status } ∷ d.sent;
        },
      )
unfolding notify_user_status alloc
notify_user_status-told type status d a = ground arith

module _ (k : Kernel) where
  -- What one round makes of the state.
  record Round (c : IoWriteContext) (rest : List IoWriteContext) (d u : Driver) : Type 0 where
    queue_rest : u.queue ≡ rest
    memory : u.allocs ≡ []
    goes_on :
        (logs' : List IoWriteContext) (sent' : List Notice)
        → Accounted k rest u.logs u.sent logs' sent'
        → Accounted k (c ∷ rest) d.logs d.sent logs' sent'

  report-lost :
      (d : Driver)
      → d.allocs ≡ []
      → report k (negsuc 0) d
        ≡ ok (tt, record d { next_addr = d.next_addr + 1 + 1; sent = lost_notice ∷ d.sent })
  unfolding report
  report-lost d a =
      bind-ok (notify_user_status client_error (negsuc 1)) (λ _. pure tt) d
        (record d { next_addr = d.next_addr + 1 + 1; sent = lost_notice ∷ d.sent }) (pos 1)
        (notify_user_status-told client_error (negsuc 1) d a)

  -- The round from the outcome of `file_write` on, and from that of `file_open` on; `d` has the context
  -- taken off.
  write-Round :
      (c : IoWriteContext) (rest : List IoWriteContext) (done : Bool) (d : Driver)
      → d.queue ≡ rest
      → d.allocs ≡ []
      → (u : Driver) × ((after_write k c done >>= report k) d ≡ ok (tt, u)) × Round c rest d u
  unfolding after_write report
  write-Round c rest false d q a = (
    record d { next_addr = d.next_addr + 1 + 1; sent = lost_notice ∷ d.sent },
    report-lost d a,
    record { queue_rest = q; memory = a; goes_on = λ l s w. short c rest d.logs l d.sent s w },
  )
  write-Round c rest true d q a =
      let d1 : Driver = record d { logs = c ∷ d.logs } in
      let (r, io, f, saved) = save_config-OnlyFile d1 in
      let d2 : Driver = record d1 { io = io; cnf = f } in
      (
        d2,
        bind-ok (after_write k c true) (report k) d d2 (pos 0)
            (bind-ok save_config (λ _. pure (pos 0)) d1 d2 r saved),
        record {
          queue_rest = q;
          memory = a;
          goes_on = λ l s w. on_disk c rest d.logs l d.sent s w;
        },
      )

  open-Round :
      (c : IoWriteContext) (rest : List IoWriteContext) (opened : Bool) (d : Driver)
      → d.queue ≡ rest
      → d.allocs ≡ []
      → (u : Driver) × ((after_open k c opened >>= report k) d ≡ ok (tt, u)) × Round c rest d u
  unfolding after_open next_io
  open-Round c rest false d q a =
      let d1 : Driver = record d {
        next_addr = d.next_addr + 1 + 1;
        sent = record { type = client_error; status = k.open_status } ∷ d.sent;
      } in
      (
        record d1 { next_addr = d1.next_addr + 1 + 1; sent = lost_notice ∷ d1.sent },
        bind-ok (after_open k c false) (report k) d d1 (negsuc 0) (
              bind-ok (notify_user_status client_error k.open_status) (λ _. pure (negsuc 0)) d d1
                (pos 1) (notify_user_status-told client_error k.open_status d a))
            ∙ report-lost d1 a,
        record {
          queue_rest = q;
          memory = a;
          goes_on = λ l s w. unopened c rest d.logs l d.sent s w;
        },
      )
  open-Round c rest true d q a =
      let d1 : Driver = record d { io = (next_answer d.io).1 } in
      let (u, run, round) = write-Round c rest (next_answer d.io).0 d1 q a in
      (
        u,
        run,
        record { queue_rest = round.queue_rest; memory = round.memory; goes_on = round.goes_on },
      )

  next-Round :
      (c : IoWriteContext) (rest : List IoWriteContext) (d : Driver)
      → d.queue ≡ c ∷ rest
      → d.allocs ≡ []
      → (u : Driver) × (write_next k d ≡ ok (tt, u)) × Round c rest d u
  unfolding write_next createiolog next_io
  next-Round c rest d q a =
      let d1 : Driver = record d { queue = rest; io = (next_answer d.io).1 } in
      let (u, run, round) = open-Round c rest (next_answer d.io).0 d1 refl a in
      (
        u,
        rw (q, write_next) run,
        record { queue_rest = round.queue_rest; memory = round.memory; goes_on = round.goes_on },
      )

  rounds-Accounted :
      (q : List IoWriteContext) (d : Driver)
      → d.queue ≡ q
      → d.allocs ≡ []
      → (u : Driver) × (write_rounds k (length q) d ≡ ok (tt, u))
        × (u.queue ≡ [])
        × Accounted k q d.logs d.sent u.logs u.sent
  unfolding write_rounds
  rounds-Accounted [] d q a = (d, refl, q, empty d.logs d.sent)
  rounds-Accounted (c ∷ rest) d q a =
      let (v, one, round) = next-Round c rest d q a in
      let (u, others, emptied, all) = rounds-Accounted rest v round.queue_rest round.memory in
      (
        u,
        bind-ok (write_next k) (λ _. write_rounds k (length rest)) d v tt one ∙ others,
        emptied,
        round.goes_on u.logs u.sent all,
      )

  -- With memory to be had, and whatever the file operations come to, the write thread empties its queue;
  -- each of its logs, in their order, is on disk or lost, and user space is told -2 of each that is lost,
  -- behind the error of the open where the file could not be opened.
  pub drain_queue-Accounted :
      (d : Driver)
      → d.allocs ≡ []
      → (u : Driver) × (drain_queue k d ≡ ok (tt, u))
        × (u.queue ≡ [])
        × Accounted k d.queue d.logs d.sent u.logs u.sent
  unfolding drain_queue
  drain_queue-Accounted d a = rounds-Accounted d.queue d refl a
