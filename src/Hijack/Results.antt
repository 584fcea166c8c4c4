-- ===== src/Hijack/Results.antt =====
-- hijacks.c: the results that `symbol_hijack` can come to.
use github_upload.Base.{
  ℕ, suc, Option, none, some, Outcome, ok, ℤ, pos, negsuc, ltb, ◌==◌, replicate, inl, inr,
  Bool-cases,
}
use github_upload.Symbols.{KernSym, efault}
use github_upload.Hijack.{
  Memory, put, Insn, op_jmp_rel32, op_jmp_size, end_of_code, copy_insns, finish_hijack, eilseq,
  hijack_into, symbol_hijack,
}

module _ (decode : Memory → ℕ → Insn) (s : KernSym) (code : ℕ) (m : Memory)
    (P : Outcome (ℤ × (KernSym × Memory)) → Type 0) where
  -- What holds of each end of `hijack_into` holds of its result.
  pub hijack_into-elim :
      (place : ℕ)
      → let placed : KernSym = record s { new_addr = place } in
        let zeroed : Memory = put m place (replicate s.size 0) in
        let end_addr : ℕ = end_of_code zeroed s.addr s.size in
        P (ok (efault, (placed, zeroed)))
        → P (ok (eilseq, (placed, zeroed)))
        → P (
            finish_hijack decode placed code
              (copy_insns decode (suc s.size) s.addr place end_addr placed zeroed))
        → P (hijack_into decode s code m place)
  unfolding hijack_into
  hijack_into-elim place a b c = elim (Bool-cases (ltb s.size op_jmp_size)) [
    | inl small ↦ rw (hijack_into, small) a
    | inr large ↦
        elim (Bool-cases (s.addr == end_of_code (put m place (replicate s.size 0)) s.addr s.size)) [
          | inl zeros ↦ rw (hijack_into, large, zeros) b
          | inr code ↦ rw (hijack_into, large, code) c
        ]
  ]

  -- And so of each end of `symbol_hijack`.
  pub symbol_hijack-elim :
      (place : Option ℕ) (found : ℤ)
      → ((n : ℕ) → P (ok (negsuc n, (s, m))))
      → P (ok (efault, (s, m)))
      → P (ok (negsuc 11, (record s { new_addr = 0 }, m)))
      → ((a : ℕ) → P (hijack_into decode s code m a))
      → P (symbol_hijack decode found s code place m)
  unfolding symbol_hijack
  symbol_hijack-elim place (negsuc n) error twice starved into = error n
  symbol_hijack-elim none (pos n) error twice starved into =
      elim (Bool-cases (m s.addr == op_jmp_rel32)) [
        | inl again ↦ rw (symbol_hijack, again) twice
        | inr once ↦ rw (symbol_hijack, once) starved
      ]
  symbol_hijack-elim (some a) (pos n) error twice starved into =
      elim (Bool-cases (m s.addr == op_jmp_rel32)) [
        | inl again ↦ rw (symbol_hijack, again) twice
        | inr once ↦ rw (symbol_hijack, once) (into a)
      ]
