-- ===== src/Hijack.antt =====
-- hijacks.c on x86_64: a kernel function is copied, its references are fixed up, and a jump to the hook
-- is written over its start. The memory is a function from addresses to bytes. The decoder of
-- instructions is an argument; the permissions of the pages are left out.
pub mod Patching
pub mod Copying
pub mod Restored
pub mod FixUp
pub mod Syscalls
pub mod Left
pub mod Undone
pub mod Results
pub mod Ends
use github_upload.Base.{
  ℕ, zero, suc, ◌+◌, ◌-◌, ◌%◌, ◌^◌, List, [], ◌∷◌, Bool, true, false, ◌&&◌, ◌||◌, Option, none,
  some, Outcome, ok, wild, unfinished, ℤ, pos, negsuc, ltb, leb, ◌==◌, if◌then◌else◌, le32,
  replicate,
}
use github_upload.Symbols.{KernSym, is_error, efault}

abbrev pub Memory : Type 0
Memory = ℕ → ℕ

-- Bytes written from an address on.
unfoldable pub put : Memory → ℕ → List ℕ → Memory
put m a [] = m
put m a (b ∷ bs) = put (λ p. if p == a then b else m p) (a + 1) bs

-- So many bytes read from an address on.
unfoldable pub get : Memory → ℕ → ℕ → List ℕ
get m a zero = []
get m a (suc n) = m a ∷ get m (a + 1) n

-- What hijacks.c uses of a decoded `struct insn`: the first opcode byte, `insn_rip_relative`, and the
-- values and offsets of the immediate and of the displacement.
pub record Insn : Type 0 where
  pub length : ℕ
  pub opcode : ℕ
  pub rip_relative : Bool
  pub immediate : ℕ
  pub immediate_offset : ℕ
  pub displacement : ℕ
  pub displacement_offset : ℕ

abbrev pub op_call_rel32 : ℕ
op_call_rel32 = 0xe8

abbrev pub op_jmp_rel32 : ℕ
op_jmp_rel32 = 0xe9

-- `-EILSEQ`.
abbrev pub eilseq : ℤ
eilseq = negsuc 83

abbrev pub op_jmp_size : ℕ
op_jmp_size = 5

-- `CODE_ADDR_FROM_OFFSET`: the offset is signed, the sum wraps at 64 bits.
unfoldable pub code_addr_from_offset : ℕ → ℕ → ℕ → ℕ
code_addr_from_offset insn_addr insn_len offset =
    (insn_addr + insn_len + (if ltb offset (2 ^ 31) then offset else offset + 2 ^ 64 - 2 ^ 32))
    % 2 ^ 64

-- `CODE_OFFSET_FROM_ADDR`: the difference wraps at 64 bits and is cut to 32.
unfoldable pub code_offset_from_addr : ℕ → ℕ → ℕ → ℕ
code_offset_from_addr insn_addr insn_len dest_addr =
    (dest_addr + 2 ^ 64 - (insn_addr + insn_len) % 2 ^ 64) % 2 ^ 32

-- Is an address in the function?
abbrev pub in_function : KernSym → ℕ → Bool
in_function func addr = leb func.addr addr && ltb addr (func.addr + func.size)

-- The reference at an offset of the copy, where the address that it leads to is not in the function.
unfoldable pub fix_up : Insn → ℕ → ℕ → KernSym → ℕ → ℕ → Memory → Memory
fix_up insn kaddr dest func value offset m =
    let addr = code_addr_from_offset kaddr insn.length value in
    if in_function func addr
    then m
    else put m (dest + offset) (le32 (code_offset_from_addr dest insn.length addr))

-- `copy_and_fixup_insn` for the instruction at `kaddr`.
unfoldable pub copy_and_fixup_insn : Insn → ℕ → ℕ → KernSym → Memory → Memory
copy_and_fixup_insn insn kaddr dest func m =
    let copied : Memory = put m dest (get m kaddr insn.length) in
    if insn.opcode == op_call_rel32 || insn.opcode == op_jmp_rel32
    then fix_up insn kaddr dest func insn.immediate insn.immediate_offset copied
    else if insn.rip_relative
    then fix_up insn kaddr dest func insn.displacement insn.displacement_offset copied
    else copied

-- The loop that leaves off zeros at the end: `n` bytes from `addr` on are looked at.
unfoldable pub end_of_code : Memory → ℕ → ℕ → ℕ
end_of_code m addr zero = addr
end_of_code m addr (suc n) = if m (addr + n) == 0 then end_of_code m addr n else addr + suc n

module _ (decode : Memory → ℕ → Insn) where
  -- The loop over the instructions, with fuel: where it ends in the copy, or `none` for an
  -- instruction that cannot be decoded.
  unfoldable pub copy_insns : ℕ → ℕ → ℕ → ℕ → KernSym → Memory → Outcome (Option ℕ × Memory)
  copy_insns zero orig_addr dest_addr end_addr sym m = unfinished
  copy_insns (suc fuel) orig_addr dest_addr end_addr sym m =
      if ltb orig_addr end_addr
      then elim ((decode m orig_addr).length == 0) [
        | true ↦ ok (none, m)
        | false ↦
            let insn : Insn = decode m orig_addr in
            copy_insns fuel (orig_addr + insn.length) (dest_addr + insn.length) end_addr sym
              (copy_and_fixup_insn insn orig_addr dest_addr sym m)
      ]
      else ok (some dest_addr, m)

  -- The end of `symbol_hijack`: the jump, once the copy has been made.
  unfoldable pub write_jump : KernSym → ℕ → Memory → Option ℕ → ℤ × (KernSym × Memory)
  write_jump sym code m none = (eilseq, (sym, m))
  write_jump sym code m (some dest_addr) = (
    pos 0,
    (
      record sym {
        new_size = dest_addr - sym.new_addr;
        run = sym.new_addr;
        orig_start_bytes = get m sym.addr op_jmp_size;
        hijacked = true;
      },
      put m sym.addr (op_jmp_rel32 ∷ le32 (code_offset_from_addr sym.addr op_jmp_size code)),
    ),
  )

  unfoldable pub finish_hijack :
      KernSym → ℕ → Outcome (Option ℕ × Memory) → Outcome (ℤ × (KernSym × Memory))
  finish_hijack sym code (ok p) = ok (write_jump sym code p.1 p.0)
  finish_hijack sym code wild = wild
  finish_hijack sym code unfinished = unfinished

  -- `symbol_hijack` with the memory for the copy, which is zeroed.
  unfoldable pub hijack_into : KernSym → ℕ → Memory → ℕ → Outcome (ℤ × (KernSym × Memory))
  hijack_into sym code m place =
      let sym1 : KernSym = record sym { new_addr = place } in
      let m1 : Memory = put m place (replicate sym.size 0) in
      let end_addr : ℕ = end_of_code m1 sym.addr sym.size in
      if ltb sym.size op_jmp_size
      then ok (efault, (sym1, m1))
      else if sym.addr == end_addr
      then ok (eilseq, (sym1, m1))
      else finish_hijack sym1 code (copy_insns (suc sym.size) sym.addr place end_addr sym1 m1)

  -- `symbol_hijack` behind `find_symbol_address`; `place` is the result of `malloc`.
  unfoldable pub symbol_hijack :
      ℤ → KernSym → ℕ → Option ℕ → Memory → Outcome (ℤ × (KernSym × Memory))
  symbol_hijack found sym code place m =
      if is_error found
      then ok (found, (sym, m))
      else if m sym.addr == op_jmp_rel32
      then ok (efault, (sym, m))
      else elim place [
        | none ↦ ok (negsuc 11, (record sym { new_addr = 0 }, m))
        | some a ↦ hijack_into sym code m a
      ]

-- `symbol_restore`.
unfoldable pub symbol_restore : KernSym → Memory → KernSym × Memory
symbol_restore sym m =
    if sym.hijacked
    then (record sym { hijacked = false }, put m sym.addr sym.orig_start_bytes)
    else (sym, m)
