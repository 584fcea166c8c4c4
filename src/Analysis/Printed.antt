-- ===== src/Analysis/Printed.antt =====
-- test/AnalysisIolog.c, iowritethread.c and createiolog.c: what the write thread has written is printed,
-- and with -loopdel removed.
use github_upload.Base.{ℕ, ◌≤◌, List, ◌++◌, length}
use github_upload.LogFile.{LogFile}
use github_upload.Driver.{Driver}
use github_upload.IoLog.Digits.{decimal}
use github_upload.Restore.{LogDir}
use github_upload.Analysis.{Dump}

module _ (iologsdir : List ℕ) (short : length iologsdir ≤ 1000) where
  -- The tool with the path of a number.
  abbrev pub dump_at : ℕ → LogDir → List LogFile → Dump
  dump_at n dir printed = record {
    iologpath = iologsdir ++ decimal n;
    iolognum = n;
    dir = dir;
    printed = printed;
  }
