-- ===== src/Hijack/Left.antt =====
-- hijacks.c: what `symbol_hijack` leaves of the memory and of the symbol, whatever it returns.
use github_upload.Base.{
  ℕ, suc, ◌+◌, ◌≤◌, ◌<◌, ◌∷◌, true, false, Option, none, some, Outcome, ok, wild, unfinished, ℤ,
  le32, replicate, ◌≡◌, ◌⊎◌, inl, inr, refl, arith, ◌∙◌, length-replicate,
}
use github_upload.Symbols.{KernSym}
use github_upload.Hijack.{
  Memory, put, get, Insn, op_jmp_rel32, op_jmp_size, code_offset_from_addr, end_of_code, copy_insns,
  write_jump, finish_hijack, symbol_hijack,
}
use github_upload.Hijack.Results.{hijack_into-elim, symbol_hijack-elim}
use github_upload.Hijack.Patching.{put-outside}
use github_upload.Hijack.Copying.{Decodes, copy_insns-outside, end_of_code-le}

-- The address is not in the block of a symbol's copy, nor in the 15 bytes behind it.
abbrev pub OffBlock : KernSym → ℕ → Type 0
OffBlock t p = (p < t.new_addr) ⊎ (t.new_addr + t.size + 15 ≤ p)

-- The address is not where the jump is written, if one is.
abbrev pub OffStart : KernSym → ℕ → Type 0
OffStart t p = t.hijacked ≡ true → (p < t.addr) ⊎ (t.addr + op_jmp_size ≤ p)

-- With `v` between: `v` differs from `m` only in the block, and `u` from `v` only in the start, which
-- the symbol keeps as it is in `v`.
pub record Left (m : Memory) (t : KernSym) (u : Memory) : Type 0 where
  pub between : Memory
  pub block_only : (p : ℕ) → OffBlock t p → between p ≡ m p
  pub start_only : (p : ℕ) → OffStart t p → u p ≡ between p
  pub kept : t.hijacked ≡ true → t.orig_start_bytes ≡ get between t.addr op_jmp_size

-- For each value that it comes to.
abbrev pub Leaves : Memory → Outcome (ℤ × (KernSym × Memory)) → Type 0
Leaves m (ok r) = Left m r.1.0 r.1.1
Leaves m wild = Unit
Leaves m unfinished = Unit

untouched :
    (m v : Memory) (t : KernSym)
    → t.hijacked ≡ false
    → ((p : ℕ) → OffBlock t p → v p ≡ m p)
    → Left m t v
untouched m v t h b = record {
  between = v;
  block_only = b;
  start_only = λ p o. refl;
  kept = λ e. absurd cc;
}

module _ (decode : Memory → ℕ → Insn) (decodes : (m : Memory) (a : ℕ) → Decodes (decode m a)) where
  write_jump-Leaves :
      (s : KernSym) (code : ℕ) (m v : Memory) (end : Option ℕ)
      → s.hijacked ≡ false
      → ((p : ℕ) → OffBlock s p → v p ≡ m p)
      → Leaves m (ok (write_jump decode s code v end))
  unfolding write_jump
  write_jump-Leaves s code m v none h b = untouched m v s h b
  write_jump-Leaves s code m v (some dest) h b = record {
    between = v;
    block_only = b;
    start_only = λ p o.
        put-outside v s.addr p (op_jmp_rel32 ∷ le32 (code_offset_from_addr s.addr op_jmp_size code))
          (o refl);
    kept = λ e. refl;
  }

  module _ (s : KernSym) (code place : ℕ) (m : Memory) (fresh : s.hijacked ≡ false) where
    abbrev zeroed : Memory
    zeroed = put m place (replicate s.size 0)

    abbrev placed : KernSym
    placed = record s { new_addr = place }

    abbrev code_end : ℕ
    code_end = end_of_code zeroed s.addr s.size

    zeroed-outside : (p : ℕ) → OffBlock placed p → zeroed p ≡ m p
    zeroed-outside p (inl o) = put-outside m place p (replicate s.size 0) (inl o)
    zeroed-outside p (inr o) =
        put-outside m place p (replicate s.size 0)
          (inr (omega (arith, length-replicate {A = ℕ} s.size 0)))

    behind : (p : ℕ) → OffBlock placed p → (p < place) ⊎ (code_end + place + 15 ≤ p + s.addr)
    behind p (inl o) = inl o
    behind p (inr o) = inr (omega (arith, end_of_code-le zeroed s.addr s.size))

    finish_hijack-Leaves :
        (o : Outcome (Option ℕ × Memory))
        → copy_insns decode (suc s.size) s.addr place code_end placed zeroed ≡ o
        → Leaves m (finish_hijack decode placed code o)
    unfolding finish_hijack
    finish_hijack-Leaves (ok (end, v)) c = write_jump-Leaves placed code m v end fresh λ p b.
        copy_insns-outside decode decodes (suc s.size) s.addr place code_end p placed zeroed v end c
          (behind p b)
        ∙ zeroed-outside p b
    finish_hijack-Leaves wild c = tt
    finish_hijack-Leaves unfinished c = tt

  -- Whatever `symbol_hijack` returns for a symbol that is not hijacked.
  pub symbol_hijack-Leaves :
      (s : KernSym) (code : ℕ) (place : Option ℕ) (found : ℤ) (m : Memory)
      → s.hijacked ≡ false
      → Leaves m (symbol_hijack decode found s code place m)
  symbol_hijack-Leaves s code place found m h =
      let same : Left m s m = untouched m m s h (λ p o. refl) in
      symbol_hijack-elim decode s code m (Leaves m) place found (λ n. same) same
        (untouched m m (record s { new_addr = 0 }) h (λ p o. refl))
        λ a.
          let clean : Left m (placed s code a m h) (zeroed s code a m h) =
            untouched m (zeroed s code a m h) (placed s code a m h) h
              (zeroed-outside s code a m h) in
          hijack_into-elim decode s code m (Leaves m) a clean clean
            (finish_hijack-Leaves s code a m h _ refl)
