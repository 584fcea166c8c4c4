-- ===== src/Restore/Written.antt =====
-- iowritethread.c, createiolog.c and test/RestoreIolog.c: what the write thread has written is what the
-- tool reads back.
use github_upload.Base.{
  ◌>>=◌, ℕ, suc, ◌+◌, ◌*◌, ◌^◌, ◌<◌, ◌≤◌, List, [], ◌∷◌, ◌++◌, true, false, Option, none, some, ok,
  length, if◌then◌else◌, sym, subst, ◌≡◌, ◌≢◌, ◌⊎◌, refl, arith, ap, ◌∙◌, All, inl, inr, Bool-cases,
}
use github_upload.Text.{same_string, same_string_refl, same_string-eq}
use github_upload.LogFile.{LogFile, log_file_header_size}
use github_upload.Rb.{to_list}
use github_upload.Driver.{Driver, Kernel, IoWriteContext, Block}
use github_upload.ConfigFile.{header_size, set_size, file_size}
use github_upload.IoLog.{log_path}
use github_upload.IoLog.Digits.{decimal}
use github_upload.IoLog.WriteThread.{drain_queue}
use github_upload.IoLog.Drain.{onto, drain_queue-writes}
use github_upload.IoLog.Names.{log_path-whole, log_path-differs}
use github_upload.Restore.{FileSystem, StoredLog, LogDir, main}
use github_upload.Restore.Holding.{Holds}
use github_upload.Restore.Loop.{restore_all, tool_at, read_logs-replays, main-once}

-- The log that was written last under a path.
abbrev find_log : List ℕ → List IoWriteContext → Option LogFile
find_log path [] = none
find_log path (c ∷ cs) = if same_string path c.iologpath then some c.logfile else find_log path cs

-- `createiolog` writes `ulLogSize` bytes.
abbrev stored : Option LogFile → Option StoredLog
stored none = none
stored (some log) = some (record { size = log.log_size; log = log })

-- The log directory that the driver's logs make up.
abbrev pub written : List IoWriteContext → LogDir
written logs path = stored (find_log path logs)

-- The contexts of logs with the numbers from `n` on.
abbrev pub numbered : List ℕ → ℕ → List LogFile → List IoWriteContext
numbered dir n [] = []
numbered dir n (l ∷ ls) =
    record { iologpath = log_path dir n; logfile = l } ∷ numbered dir (n + 1) ls

-- A log is at least its header.
abbrev pub HasHeader : LogFile → Type 0
HasHeader l = log_file_header_size ≤ l.log_size

-- A path that none of some contexts have is looked for in what was there before them.
find_log-onto :
    (path : List ℕ) (q logs : List IoWriteContext)
    → All (λ c. same_string path c.iologpath ≡ false) q
    → find_log path (onto q logs) ≡ find_log path logs
find_log-onto path [] logs h = refl
find_log-onto path (c ∷ cs) logs h = find_log-onto path cs (c ∷ logs) h.1 ∙ rw h.0 refl

module _ (dir : List ℕ) (short : length dir ≤ 234) where
  other_path :
      (m n : ℕ)
      → m < 2 ^ 63
      → n < 2 ^ 63
      → m ≢ n
      → same_string (dir ++ decimal m) (log_path dir n) ≡ false
  other_path m n a b d = elim (Bool-cases (same_string (dir ++ decimal m) (log_path dir n))) [
    | inl e ↦
        absurd (
          log_path-differs dir m n short a b d
            (log_path-whole dir m short a ∙ same_string-eq _ _ e))
    | inr e ↦ e
  ]

  -- A number before or behind those of a queue is none of them.
  numbered-others :
      (ls : List LogFile) (m n : ℕ)
      → m < 2 ^ 63
      → n + length ls < 2 ^ 63
      → (m < n) ⊎ (n + length ls ≤ m)
      → All (λ c. same_string (dir ++ decimal m) c.iologpath ≡ false) (numbered dir n ls)
  numbered-others [] m n a b d = tt
  numbered-others (l ∷ ls) m n a b (inl d) = (
    other_path m n a (omega arith) (λ e. omega arith),
    numbered-others ls m (n + 1) a (omega arith) (inl (omega arith)),
  )
  numbered-others (l ∷ ls) m n a b (inr d) = (
    other_path m n a (omega arith) (λ e. omega arith),
    numbered-others ls m (n + 1) a (omega arith) (inr (omega arith)),
  )

  find_log-head :
      (l : LogFile) (n : ℕ) (before : List IoWriteContext)
      → n < 2 ^ 63
      → find_log (dir ++ decimal n) (record { iologpath = log_path dir n; logfile = l } ∷ before)
        ≡ some l
  find_log-head l n before b =
      let same : same_string (dir ++ decimal n) (log_path dir n) ≡ true =
        ap (same_string (dir ++ decimal n)) (log_path-whole dir n short b)
        ∙ same_string_refl (dir ++ decimal n) in
      rw same refl

  written-Holds :
      (ls : List LogFile) (n : ℕ) (before : List IoWriteContext)
      → n + length ls < 2 ^ 63
      → All HasHeader ls
      → Holds dir (written (onto (numbered dir n ls) before)) n ls
  written-Holds [] n before b h = tt
  written-Holds (l ∷ ls) n before b h =
      let c : IoWriteContext = record { iologpath = log_path dir n; logfile = l } in
      let found : find_log (dir ++ decimal n) (onto (numbered dir (n + 1) ls) (c ∷ before))
          ≡ some l =
        find_log-onto (dir ++ decimal n) (numbered dir (n + 1) ls) (c ∷ before)
          (numbered-others ls n (n + 1) (omega arith) (omega arith) (inl (omega arith)))
        ∙ find_log-head l n before (omega arith) in
      (
        (record { size = l.log_size; log = l }, ap stored found, refl, ground arith),
        written-Holds ls (n + 1) (c ∷ before) (omega arith) h.1,
      )

-- Where all file operations succeed, the write thread leaves the logs of its queue in the log
-- directory, which has none under the number behind them if it had none there before.
pub drain_queue-Holds :
    (k : Kernel) (dir : List ℕ) (n : ℕ) (logs : List LogFile) (d : Driver) (f : List (ℕ × Block))
    → d.io ≡ []
    → d.cnf ≡ some f
    → header_size + set_size * length (to_list d.sets) + file_size * length (to_list d.files)
      < 2 ^ 32
    → length dir ≤ 234
    → n + length logs < 2 ^ 63
    → d.queue ≡ numbered dir n logs
    → All HasHeader logs
    → written d.logs (dir ++ decimal (n + length logs)) ≡ none
    → (u : Driver) × (drain_queue k d ≡ ok (tt, u))
      × Holds dir (written u.logs) n logs
      × (written u.logs (dir ++ decimal (n + length logs)) ≡ none)
drain_queue-Holds k dir n logs d f i c fits short b q h absent =
    let (g, drained) = drain_queue-writes k d f i c fits in
    let u : Driver = record d { queue = []; logs = onto d.queue d.logs; cnf = some g } in
    let as_numbered : onto (numbered dir n logs) d.logs ≡ onto d.queue d.logs =
      ap (λ z. onto z d.logs) (sym q) in
    let end : ℕ = n + length logs in
    (
      u,
      drained,
      subst (λ z. Holds dir (written z) n logs) as_numbered
          (written-Holds dir short logs n d.logs b h),
      subst (λ z. written z (dir ++ decimal end) ≡ none) as_numbered
          (ap stored (
              find_log-onto (dir ++ decimal end) (numbered dir n logs) d.logs
                (numbered-others dir short logs end n b b (inr (omega arith))))
            ∙ absent),
    )

-- What the write thread has written is read back: where all its file operations succeed and its queue
-- holds logs with the numbers from `n` on, for one log directory that had no log under the number behind
-- them, the tool does exactly these logs in their order and stops before that number, or comes to
-- the access out of bounds that one of them leads it to. Each log is at least its header, the
-- directory's path has at most 234 bytes, the numbers are below 2 ^ 31, and the configuration's size
-- fits.
pub main-drain_queue :
    (k : Kernel) (fs : FileSystem) (dir target : List ℕ) (n : ℕ) (logs : List LogFile) (d : Driver)
    (f : List (ℕ × Block)) (files : fs.Files)
    → d.io ≡ []
    → d.cnf ≡ some f
    → header_size + set_size * length (to_list d.sets) + file_size * length (to_list d.files)
      < 2 ^ 32
    → length dir ≤ 234
    → n + length logs < 2 ^ 31
    → d.queue ≡ numbered dir n logs
    → All HasHeader logs
    → written d.logs (dir ++ decimal (n + length logs)) ≡ none
    → (u : Driver) × (drain_queue k d ≡ ok (tt, u))
      × (main fs dir target (suc (length logs)) n (written u.logs ∷ []) files ≡ (
          restore_all fs dir target logs files >>= λ v.
          ok (tool_at fs dir target (n + length logs) v)))
main-drain_queue k fs dir target n logs d f files i c fits short b q h absent =
    let (u, drained, holds, none_there) =
      drain_queue-Holds k dir n logs d f i c fits short (omega arith) q h absent in
    (
      u,
      drained,
      main-once fs dir target (suc (length logs)) n (written u.logs) files (omega arith)
            (omega arith)
          ∙ read_logs-replays fs dir target logs n (written u.logs) files (omega arith) b holds
              none_there,
    )
