-- ===== src/Hijack/Restored.antt =====
-- hijacks.c: `symbol_restore` takes back what `symbol_hijack` has done to the kernel.
use github_upload.Base.{ℕ, true, false, Option, ok, ℤ, ◌≡◌, inl, inr, subst, ◌∙◌, Bool-cases}
use github_upload.Symbols.{KernSym}
use github_upload.Hijack.{Memory, get, Insn, op_jmp_size, symbol_hijack, symbol_restore}
use github_upload.Hijack.Left.{Left, Leaves, OffBlock, OffStart, symbol_hijack-Leaves}
use github_upload.Hijack.Patching.{put-get}
use github_upload.Hijack.Copying.{Decodes}

-- The start that a hijacked symbol keeps is put back.
pub symbol_restore-kept :
    (t : KernSym) (m u : Memory) (p : ℕ)
    → (t.hijacked ≡ true → t.orig_start_bytes ≡ get m t.addr op_jmp_size)
    → (OffStart t p → u p ≡ m p)
    → (symbol_restore t u).1 p ≡ m p
unfolding symbol_restore
symbol_restore-kept t m u p kept off = elim (Bool-cases t.hijacked) [
  | inl h ↦ rw (symbol_restore, h, kept h) (put-get op_jmp_size t.addr p m u (λ o. off (λ e. o)))
  | inr h ↦ rw (symbol_restore, h) (off (λ e. absurd cc))
]

module _ (decode : Memory → ℕ → Insn) (decodes : (m : Memory) (a : ℕ) → Decodes (decode m a)) where
  -- For a symbol that is not hijacked, whatever `symbol_hijack` returns, `symbol_restore` then makes the
  -- memory what it was, but for the block of the copy and 15 bytes behind it.
  symbol_restore-symbol_hijack :
      (s t : KernSym) (code p : ℕ) (place : Option ℕ) (found ret : ℤ) (m u : Memory)
      → s.hijacked ≡ false
      → symbol_hijack decode found s code place m ≡ ok (ret, (t, u))
      → OffBlock t p
      → (symbol_restore t u).1 p ≡ m p
  symbol_restore-symbol_hijack s t code p place found ret m u fresh e o =
      let left : Left m t u =
        subst (Leaves m) e (symbol_hijack-Leaves decode decodes s code place found m fresh) in
      symbol_restore-kept t left.between u p left.kept (left.start_only p) ∙ left.block_only p o
