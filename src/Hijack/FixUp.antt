-- ===== src/Hijack/FixUp.antt =====
-- hijacks.c: a reference out of the copied function that is fixed up leads where it led before.
use github_upload.Base.{
  ℕ, ◌+◌, ◌*◌, ◌^◌, ◌<◌, ◌≤◌, true, false, ◌||◌, le32, ◌==◌, ◌≡◌, ◌⊎◌, inl, inr, refl, arith, ap,
  ◌∙◌,
}
use github_upload.Symbols.{KernSym}
use github_upload.Hijack.{
  Memory, put, get, Insn, op_call_rel32, op_jmp_rel32, fix_up, copy_and_fixup_insn, in_function,
  code_addr_from_offset, code_offset_from_addr,
}

-- The offset that is worked out for an address within 2 GB leads to it.
pub code_addr_from_offset-code_offset_from_addr :
    (insn_addr insn_len dest_addr : ℕ)
    → dest_addr < 2 ^ 64
    → insn_addr + insn_len < 2 ^ 64
    → dest_addr < insn_addr + insn_len + 2 ^ 31
    → insn_addr + insn_len ≤ dest_addr + 2 ^ 31
    → code_addr_from_offset insn_addr insn_len (code_offset_from_addr insn_addr insn_len dest_addr)
      ≡ dest_addr
unfolding code_addr_from_offset code_offset_from_addr
code_addr_from_offset-code_offset_from_addr a n d h k l g = ground arith

code_addr_from_offset-lt : (a n offset : ℕ) → code_addr_from_offset a n offset < 2 ^ 64
unfolding code_addr_from_offset
code_addr_from_offset-lt a n offset = omega arith

pub code_offset_from_addr-lt : (a n dest : ℕ) → code_offset_from_addr a n dest < 2 ^ 32
unfolding code_offset_from_addr
code_offset_from_addr-lt a n dest = omega arith

-- The `u32` at an address.
abbrev pub word_at : Memory → ℕ → ℕ
word_at m a = m a + m (a + 1) * 256 + m (a + 2) * 65536 + m (a + 3) * 16777216

pub word_at-put : (m : Memory) (a n : ℕ) → n < 2 ^ 32 → word_at (put m a (le32 n)) a ≡ n
unfolding put
word_at-put m a n h = ground arith

-- The value and the offset of the reference that is fixed up: the immediate of a call or jump, or the
-- displacement of another instruction that is relative to its address.
abbrev pub Refers : Insn → ℕ → ℕ → Type 0
Refers i value offset =
    let is_branch = i.opcode == op_call_rel32 || i.opcode == op_jmp_rel32 in
    (is_branch ≡ true) × (value ≡ i.immediate) × (offset ≡ i.immediate_offset)
    ⊎ (is_branch ≡ false)
      × (i.rip_relative ≡ true)
      × (value ≡ i.displacement)
      × (offset ≡ i.displacement_offset)

fix_up-leads :
    (i : Insn) (kaddr dest value offset : ℕ) (func : KernSym) (m : Memory)
    → let addr = code_addr_from_offset kaddr i.length value in
      in_function func addr ≡ false
      → dest + i.length < 2 ^ 64
      → addr < dest + i.length + 2 ^ 31
      → dest + i.length ≤ addr + 2 ^ 31
      → code_addr_from_offset dest i.length
          (word_at (fix_up i kaddr dest func value offset m) (dest + offset))
        ≡ addr
unfolding fix_up
fix_up-leads i kaddr dest value offset func m away b l g =
    let addr : ℕ = code_addr_from_offset kaddr i.length value in
    rw away (
      ap (code_addr_from_offset dest i.length) (
        word_at-put m (dest + offset) (code_offset_from_addr dest i.length addr)
          (code_offset_from_addr-lt dest i.length addr))
      ∙ code_addr_from_offset-code_offset_from_addr dest i.length addr
          (code_addr_from_offset-lt kaddr i.length value) b l g)

copy_and_fixup_insn-fixes :
    (i : Insn) (kaddr dest value offset : ℕ) (func : KernSym) (m : Memory)
    → Refers i value offset
    → copy_and_fixup_insn i kaddr dest func m
      ≡ fix_up i kaddr dest func value offset (put m dest (get m kaddr i.length))
unfolding copy_and_fixup_insn
copy_and_fixup_insn-fixes i kaddr dest value offset func m (inl (e, v, o)) =
    rw (v, o, copy_and_fixup_insn, e) refl
copy_and_fixup_insn-fixes i kaddr dest value offset func m (inr (e, r, v, o)) =
    rw (v, o, copy_and_fixup_insn, e, r) refl

-- A call or a jump with the opcode E8 or E9, or an operand that is relative to the instruction's
-- address, that leads out of the function leads to the same address from the copy, if that is within
-- 2 GB of it. Of other jumps nothing is said.
pub copy_and_fixup_insn-leads :
    (i : Insn) (kaddr dest value offset : ℕ) (func : KernSym) (m : Memory)
    → let addr = code_addr_from_offset kaddr i.length value in
      Refers i value offset
      → in_function func addr ≡ false
      → dest + i.length < 2 ^ 64
      → addr < dest + i.length + 2 ^ 31
      → dest + i.length ≤ addr + 2 ^ 31
      → code_addr_from_offset dest i.length
          (word_at (copy_and_fixup_insn i kaddr dest func m) (dest + offset))
        ≡ addr
copy_and_fixup_insn-leads i kaddr dest value offset func m f away b l g =
    ap (λ u. code_addr_from_offset dest i.length (word_at u (dest + offset)))
      (copy_and_fixup_insn-fixes i kaddr dest value offset func m f)
    ∙ fix_up-leads i kaddr dest value offset func (put m dest (get m kaddr i.length)) away b l g
