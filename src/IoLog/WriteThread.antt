-- ===== src/IoLog/WriteThread.antt =====
-- iowritethread.c, `createiolog` of createiolog.c, and `notify_user_status` of rtbnetlink.c: the io
-- logs of the queue are written to disk, each by a `createiolog`.
use github_upload.Base.{
  ℕ, zero, suc, [], ◌∷◌, Bool, true, false, none, some, ok, ℤ, pos, negsuc, is_nonzero, length,
}
use github_upload.Driver.{IoWriteContext, Kernel, M, pure, fault, ◌>>=◌, ◌>>◌, alloc, next_io}
use github_upload.ConfigFile.{save_config}

-- `NOTIFY_TYPE_CLIENT_ERROR`.
abbrev pub client_error : ℕ
client_error = 0x400d

-- `notify_user_status` and `netlink_to_user`: the notification is allocated with no test; where the
-- socket buffer cannot be had, nothing is sent. The result is NET_OK.
unfoldable pub notify_user_status : ℕ → ℤ → M ℤ
unfolding alloc
notify_user_status type status = alloc >>= λ memory. elim memory [
  | none ↦ fault
  | some _ ↦ alloc >>= λ skb. elim skb [
    | none ↦ pure (pos 1)
    | some _ ↦ λ d. ok (pos 1, record d { sent = record { type = type; status = status } ∷ d.sent })
  ]
]

module _ (k : Kernel) where
  -- `createiolog` behind `file_write`: a log that is written whole is followed by `SaveConfig`.
  unfoldable pub after_write : IoWriteContext → Bool → M ℤ
  unfolding save_config
  after_write c false = pure (negsuc 0)
  after_write c true = λ d. (save_config >> pure (pos 0)) (record d { logs = c ∷ d.logs })

  -- `createiolog` behind `file_open`.
  unfoldable pub after_open : IoWriteContext → Bool → M ℤ
  unfolding next_io notify_user_status after_write
  after_open c false = notify_user_status client_error k.open_status >> pure (negsuc 0)
  after_open c true = next_io >>= after_write c

  -- `createiolog`.
  unfoldable pub createiolog : IoWriteContext → M ℤ
  unfolding next_io after_open
  createiolog c = next_io >>= after_open c

  -- What `thread_iowrite` does with the result.
  unfoldable pub report : ℤ → M (Unit {0})
  unfolding notify_user_status
  report iret = elim (is_nonzero iret) [
    | false ↦ pure tt
    | true ↦ notify_user_status client_error (negsuc 1) >> pure tt
  ]

  -- The body of the inner loop of `thread_iowrite`: the first context is taken off the queue, written,
  -- and given back.
  unfoldable pub write_next : M (Unit {0})
  unfolding createiolog report
  write_next d = elim d.queue [
    | [] ↦ ok (tt, d)
    | c ∷ rest ↦ (createiolog c >>= report) (record d { queue = rest })
  ]

  -- The inner loop for `n` rounds. Nothing that it calls adds to the queue, so that the queue's length
  -- is the number of its rounds.
  unfoldable pub write_rounds : ℕ → M (Unit {0})
  unfolding write_next
  write_rounds zero d = ok (tt, d)
  write_rounds (suc n) d = (write_next >>= λ _. write_rounds n) d

  unfoldable pub drain_queue : M (Unit {0})
  unfolding write_rounds
  drain_queue d = write_rounds (length d.queue) d
