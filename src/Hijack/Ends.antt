-- ===== src/Hijack/Ends.antt =====
-- hijacks.c: `symbol_hijack` comes back, and where it returns 0 the hook is in place.
use github_upload.Base.{
  ℕ, ◌+◌, ◌<◌, ◌≤◌, ◌^◌, ◌∷◌, [], List, Option, none, some, Outcome, ok, wild, unfinished, ℤ, pos,
  negsuc, true, le32, replicate, ◌==◌, if◌then◌else◌, inl, ◌≡◌, refl, arith, ap, subst, ◌∙◌,
}
use github_upload.Symbols.{KernSym, EachSymbol, find_symbol_address}
use github_upload.Hijack.Syscalls.{SymHook, hijack_syscalls}
use github_upload.Hijack.{
  Memory, put, Insn, op_jmp_rel32, op_jmp_size, code_addr_from_offset, code_offset_from_addr,
  write_jump, finish_hijack, symbol_hijack,
}
use github_upload.Hijack.Patching.{put-outside}
use github_upload.Hijack.Copying.{Decodes, copy_insns-ends, end_of_code-le}
use github_upload.Hijack.FixUp.{
  word_at, word_at-put, code_offset_from_addr-lt, code_addr_from_offset-code_offset_from_addr,
}
use github_upload.Hijack.Results.{hijack_into-elim, symbol_hijack-elim}

abbrev IsDone : Outcome (ℤ × (KernSym × Memory)) → Type 0
IsDone o = (r : ℤ × (KernSym × Memory)) × (o ≡ ok r)

-- Within 2 GB of the end of a jump at `a`.
abbrev pub IsNear : ℕ → ℕ → Type 0
IsNear a code =
    (code < 2 ^ 64)
    × (a + op_jmp_size < 2 ^ 64)
    × (code < a + op_jmp_size + 2 ^ 31)
    × (a + op_jmp_size ≤ code + 2 ^ 31)

-- There is a jump to `code` at the start of the function, and the original is called in its copy.
abbrev pub JumpsTo : ℕ → KernSym → Memory → Type 0
JumpsTo code t u =
    (u t.addr ≡ op_jmp_rel32)
    × (code_addr_from_offset t.addr op_jmp_size (word_at u (t.addr + 1)) ≡ code)
    × (t.run ≡ t.new_addr)
    × (t.hijacked ≡ true)

-- For each result that is 0.
abbrev Jumps : ℕ → ℕ → Outcome (ℤ × (KernSym × Memory)) → Type 0
Jumps a code (ok r) = (n : ℕ) → r.0 ≡ pos n → IsNear a code → JumpsTo code r.1.0 r.1.1
Jumps a code wild = Unit
Jumps a code unfinished = Unit

fails : (a code n : ℕ) (r : KernSym × Memory) → Jumps a code (ok (negsuc n, r))
fails a code n r = λ k e near. absurd cc

put-first : (m : Memory) (a b : ℕ) (bs : List ℕ) → put m a (b ∷ bs) a ≡ b
unfolding put
put-first m a b bs =
    put-outside (λ q. if q == a then b else m q) (a + 1) a bs (inl (omega arith)) ∙ ground arith

put-word : (m : Memory) (a b n : ℕ) → n < 2 ^ 32 → word_at (put m a (b ∷ le32 n)) (a + 1) ≡ n
unfolding put
put-word m a b n h = word_at-put (λ q. if q == a then b else m q) (a + 1) n h

module _ (decode : Memory → ℕ → Insn) where
  write_jump-jumps :
      (s : KernSym) (code : ℕ) (v : Memory) (end : Option ℕ)
      → Jumps s.addr code (ok (write_jump decode s code v end))
  unfolding write_jump
  write_jump-jumps s code v none = fails s.addr code 83 (s, v)
  write_jump-jumps s code v (some dest) = λ n e near.
      let offset : ℕ = code_offset_from_addr s.addr op_jmp_size code in
      (
        put-first v s.addr op_jmp_rel32 (le32 offset),
        ap (code_addr_from_offset s.addr op_jmp_size) (
              put-word v s.addr op_jmp_rel32 offset
                (code_offset_from_addr-lt s.addr op_jmp_size code))
            ∙ code_addr_from_offset-code_offset_from_addr s.addr op_jmp_size code near.0 near.1
                near.2 near.3,
        refl,
        refl,
      )

  finish_hijack-jumps :
      (s : KernSym) (code : ℕ) (o : Outcome (Option ℕ × Memory))
      → Jumps s.addr code (finish_hijack decode s code o)
  unfolding finish_hijack
  finish_hijack-jumps s code (ok (end, v)) = write_jump-jumps s code v end
  finish_hijack-jumps s code wild = tt
  finish_hijack-jumps s code unfinished = tt

  symbol_hijack-Jumps :
      (s : KernSym) (code : ℕ) (place : Option ℕ) (found : ℤ) (m : Memory)
      → Jumps s.addr code (symbol_hijack decode found s code place m)
  symbol_hijack-Jumps s code place found m =
      symbol_hijack-elim decode s code m (Jumps s.addr code) place found
        (λ n. fails s.addr code n (s, m)) (fails s.addr code 13 (s, m))
        (fails s.addr code 11 (record s { new_addr = 0 }, m))
        λ a.
          let placed : KernSym = record s { new_addr = a } in
          let zeroed : Memory = put m a (replicate s.size 0) in
          hijack_into-elim decode s code m (Jumps s.addr code) a
            (fails s.addr code 13 (placed, zeroed)) (fails s.addr code 83 (placed, zeroed))
            (finish_hijack-jumps placed code _)

  -- Where `symbol_hijack` returns no error and the hook is within 2 GB, the function starts with a jump
  -- to the hook, and `run` is the copy.
  pub symbol_hijack-jumps :
      (s t : KernSym) (code n : ℕ) (place : Option ℕ) (found : ℤ) (m u : Memory)
      → symbol_hijack decode found s code place m ≡ ok (pos n, (t, u))
      → IsNear s.addr code
      → JumpsTo code t u
  symbol_hijack-jumps s t code n place found m u e near =
      subst (Jumps s.addr code) e (symbol_hijack-Jumps s code place found m) n refl near

  module _ (decodes : (m : Memory) (a : ℕ) → Decodes (decode m a)) where
    finish_hijack-ends :
        (s : KernSym) (code : ℕ) (o : Outcome (Option ℕ × Memory)) (r : Option ℕ × Memory)
        → o ≡ ok r
        → IsDone (finish_hijack decode s code o)
    unfolding finish_hijack
    finish_hijack-ends s code o r e = rw e (_, refl)

    -- `symbol_hijack` comes back, whatever the function, the memory and the results of the search and
    -- of the allocation.
    symbol_hijack-IsDone :
        (s : KernSym) (code : ℕ) (place : Option ℕ) (found : ℤ) (m : Memory)
        → IsDone (symbol_hijack decode found s code place m)
    symbol_hijack-IsDone s code place found m =
        symbol_hijack-elim decode s code m IsDone place found (λ n. (_, refl)) (_, refl) (_, refl)
          λ a.
            let (r, e) =
              copy_insns-ends decode decodes s.size s.addr a _ (record s { new_addr = a }) _
                (end_of_code-le (put m a (replicate s.size 0)) s.addr s.size) in
            hijack_into-elim decode s code m IsDone a (_, refl) (_, refl)
              (finish_hijack-ends (record s { new_addr = a }) code _ r e)

    -- `hijack_syscalls` comes back, whatever the hooks, the memory and the results of the searches and
    -- of the allocations, with a decoder whose instructions have at most 15 bytes and their references
    -- inside.
    pub hijack_syscalls-ends :
        (kallsyms : EachSymbol) (hs : List SymHook) (m : Memory)
        → (q : List KernSym × Memory) × (hijack_syscalls decode kallsyms hs m ≡ ok q)
    unfolding hijack_syscalls
    hijack_syscalls-ends kallsyms [] m = (_, refl)
    hijack_syscalls-ends kallsyms (h ∷ hs) m =
        let found : ℤ × KernSym = find_symbol_address kallsyms h.name h.sym in
        let (r, e) = symbol_hijack-IsDone found.1 h.func h.place found.0 m in
        let (q, rest) = hijack_syscalls-ends kallsyms hs r.1.1 in
        ((r.1.0 ∷ q.0, q.1), rw (hijack_syscalls, e, rest) refl)
