-- ===== src/Hijack/Syscalls.antt =====
-- The table of hooks in hookvfs.c: each kernel function of it is hijacked, and restored again.
use github_upload.Base.{ℕ, List, [], ◌∷◌, Option, Outcome, ok, ◌>>=◌, ℤ}
use github_upload.Symbols.{KernSym, EachSymbol, find_symbol_address}
use github_upload.Hijack.{Memory, Insn, symbol_hijack, symbol_restore}

-- `struct symhook`, and what the allocation for the copy gives.
pub record SymHook : Type 0 where
  pub name : List ℕ
  pub sym : KernSym
  pub func : ℕ
  pub place : Option ℕ

module _ (decode : Memory → ℕ → Insn) (kallsyms : EachSymbol) where
  -- `symbol_hijack` with the search at its start.
  abbrev pub hijack_hook : SymHook → Memory → Outcome (ℤ × (KernSym × Memory))
  hijack_hook h m =
      let found : ℤ × KernSym = find_symbol_address kallsyms h.name h.sym in
      symbol_hijack decode found.0 found.1 h.func h.place m

  -- `hijack_syscalls`: a failure is printed and the next function is taken. What is left of the symbols
  -- is the result.
  unfoldable pub hijack_syscalls : List SymHook → Memory → Outcome (List KernSym × Memory)
  hijack_syscalls [] m = ok ([], m)
  hijack_syscalls (h ∷ hs) m =
      hijack_hook h m >>= λ r. hijack_syscalls hs r.1.1 >>= λ q. ok (r.1.0 ∷ q.0, q.1)

-- `undo_hijack_syscalls`.
unfoldable pub undo_hijack_syscalls : List KernSym → Memory → List KernSym × Memory
undo_hijack_syscalls [] m = ([], m)
undo_hijack_syscalls (s ∷ ss) m =
    let r : KernSym × Memory = symbol_restore s m in
    let q : List KernSym × Memory = undo_hijack_syscalls ss r.1 in (r.0 ∷ q.0, q.1)
