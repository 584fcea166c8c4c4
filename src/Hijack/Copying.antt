-- ===== src/Hijack/Copying.antt =====
-- hijacks.c: what is written when a function is copied, and that the loop comes to its end.
use github_upload.Base.{
  ℕ, zero, suc, ◌+◌, ◌<◌, ◌≤◌, Bool, true, false, ◌||◌, Option, none, some, Outcome, ok, wild,
  unfinished, ltb, ◌==◌, if◌then◌else◌, le32, ◌≡◌, ◌≢◌, ◌⊎◌, inl, inr, refl, arith, ap, sym, ◌∙◌,
  Bool-cases,
}
use github_upload.Symbols.{KernSym}
use github_upload.Hijack.Patching.{put-outside, length-get}
use github_upload.Hijack.{
  Memory, put, get, Insn, op_call_rel32, op_jmp_rel32, fix_up, copy_and_fixup_insn, in_function,
  code_addr_from_offset, end_of_code, copy_insns,
}

-- What is promised of the decoder: an instruction has at most 15 bytes, and a reference of four bytes
-- lies within it.
pub record Decodes (i : Insn) : Type 0 where
  pub short : i.length ≤ 15
  pub immediate_fits :
      (i.opcode == op_call_rel32 || i.opcode == op_jmp_rel32) ≡ true
      → i.immediate_offset + 4 ≤ i.length
  pub displacement_fits : i.rip_relative ≡ true → i.displacement_offset + 4 ≤ i.length

if_true : (b : Bool) (x y : Memory) → b ≡ true → (if b then x else y) ≡ x
if_true b x y h = rw h refl

if_false : (b : Bool) (x y : Memory) → b ≡ false → (if b then x else y) ≡ y
if_false b x y h = rw h refl

inside_of :
    (p dest n offset : ℕ)
    → offset + 4 ≤ n
    → (p < dest) ⊎ (dest + n ≤ p)
    → (p < dest + offset) ⊎ (dest + offset + 4 ≤ p)
inside_of p dest n offset f (inl o) = inl (omega arith)
inside_of p dest n offset f (inr o) = inr (omega arith)

sized : (p dest n m : ℕ) → m ≡ n → (p < dest) ⊎ (dest + n ≤ p) → (p < dest) ⊎ (dest + m ≤ p)
sized p dest n m e (inl o) = inl o
sized p dest n m e (inr o) = inr (omega arith)

abbrev memory_of : Memory → Outcome (Option ℕ × Memory) → Memory
memory_of m (ok p) = p.1
memory_of m wild = m
memory_of m unfinished = m

same_memory :
    (m u : Memory) (p : ℕ) (a b : Option ℕ)
    → ◌≡◌ {A = Outcome (Option ℕ × Memory)} (ok (a, m)) (ok (b, u))
    → u p ≡ m p
same_memory m u p a b e = sym (ap (λ r. memory_of m r p) e)

moved :
    (p d e o n : ℕ)
    → (p < d) ⊎ (e + d + 15 ≤ p + o)
    → (p < d + n) ⊎ (e + (d + n) + 15 ≤ p + (o + n))
moved p d e o n (inl h) = inl (omega arith)
moved p d e o n (inr h) = inr (omega arith)

beyond :
    (p d e o n : ℕ)
    → ltb o e ≡ true
    → n ≤ 15
    → (p < d) ⊎ (e + d + 15 ≤ p + o)
    → (p < d) ⊎ (d + n ≤ p)
beyond p d e o n l s (inl h) = inl h
beyond p d e o n l s (inr h) = inr (ground arith)

fix_up-outside :
    (i : Insn) (kaddr dest value offset p : ℕ) (func : KernSym) (m : Memory)
    → offset + 4 ≤ i.length
    → (p < dest) ⊎ (dest + i.length ≤ p)
    → fix_up i kaddr dest func value offset m p ≡ m p
unfolding fix_up
fix_up-outside i kaddr dest value offset p func m f o =
    elim (Bool-cases (in_function func (code_addr_from_offset kaddr i.length value))) [
      | inl inside ↦ rw inside refl
      | inr away ↦
          rw away (put-outside m (dest + offset) p (le32 _) (inside_of p dest i.length offset f o))
    ]

copy_and_fixup_insn-outside :
    (i : Insn) (kaddr dest p : ℕ) (func : KernSym) (m : Memory)
    → Decodes i
    → (p < dest) ⊎ (dest + i.length ≤ p)
    → copy_and_fixup_insn i kaddr dest func m p ≡ m p
unfolding copy_and_fixup_insn
copy_and_fixup_insn-outside i kaddr dest p func m d o =
    let copied : Memory = put m dest (get m kaddr i.length) in
    let same : copied p ≡ m p =
      put-outside m dest p (get m kaddr i.length)
        (sized p dest i.length _ (length-get m kaddr i.length) o) in
    elim (Bool-cases (i.opcode == op_call_rel32 || i.opcode == op_jmp_rel32)) [
      | inl e ↦ rw e (
          fix_up-outside i kaddr dest i.immediate i.immediate_offset p func copied
            (d.immediate_fits e) o
          ∙ same)
      | inr e ↦ elim (Bool-cases i.rip_relative) [
        | inl r ↦ rw e (
            ap (λ f. f p) (if_true i.rip_relative _ _ r)
            ∙ fix_up-outside i kaddr dest i.displacement i.displacement_offset p func copied
                (d.displacement_fits r) o
            ∙ same)
        | inr r ↦ rw e (ap (λ f. f p) (if_false i.rip_relative _ _ r) ∙ same)
      ]
    ]

pub end_of_code-le : (m : Memory) (addr n : ℕ) → end_of_code m addr n ≤ addr + n
unfolding end_of_code
end_of_code-le m addr zero = omega arith
end_of_code-le m addr (suc n) = ground (arith, end_of_code-le m addr n)

module _ (decode : Memory → ℕ → Insn) (decodes : (m : Memory) (a : ℕ) → Decodes (decode m a)) where
  copy_insns-past :
      (fuel orig_addr dest_addr end_addr : ℕ) (func : KernSym) (m : Memory)
      → ltb orig_addr end_addr ≡ false
      → copy_insns decode (suc fuel) orig_addr dest_addr end_addr func m ≡ ok (some dest_addr, m)
  unfolding copy_insns
  copy_insns-past fuel orig_addr dest_addr end_addr func m h = rw (copy_insns, h) refl

  copy_insns-bad :
      (fuel orig_addr dest_addr end_addr : ℕ) (func : KernSym) (m : Memory)
      → ltb orig_addr end_addr ≡ true
      → ((decode m orig_addr).length == 0) ≡ true
      → copy_insns decode (suc fuel) orig_addr dest_addr end_addr func m ≡ ok (none, m)
  unfolding copy_insns
  copy_insns-bad fuel orig_addr dest_addr end_addr func m h z = rw (copy_insns, h, z) refl

  copy_insns-zero :
      (orig_addr dest_addr end_addr : ℕ) (func : KernSym) (m u : Memory) (end : Option ℕ)
      → copy_insns decode zero orig_addr dest_addr end_addr func m ≢ ok (end, u)
  unfolding copy_insns
  copy_insns-zero orig_addr dest_addr end_addr func m u end e = cc

  -- The memory after one instruction.
  abbrev after : ℕ → ℕ → KernSym → Memory → Memory
  after orig_addr dest_addr func m =
      copy_and_fixup_insn (decode m orig_addr) orig_addr dest_addr func m

  copy_insns-good :
      (fuel orig_addr dest_addr end_addr : ℕ) (func : KernSym) (m : Memory)
      → ltb orig_addr end_addr ≡ true
      → ((decode m orig_addr).length == 0) ≡ false
      → copy_insns decode (suc fuel) orig_addr dest_addr end_addr func m
        ≡ copy_insns decode fuel
            (orig_addr + (decode m orig_addr).length)
            (dest_addr + (decode m orig_addr).length)
            end_addr
            func
            (after orig_addr dest_addr func m)
  unfolding copy_insns
  copy_insns-good fuel orig_addr dest_addr end_addr func m h z = rw (copy_insns, h, z) refl

  -- The copy takes at most 15 bytes more than the function.
  pub copy_insns-outside :
      (fuel orig_addr dest_addr end_addr p : ℕ) (func : KernSym) (m u : Memory) (end : Option ℕ)
      → copy_insns decode fuel orig_addr dest_addr end_addr func m ≡ ok (end, u)
      → (p < dest_addr) ⊎ (end_addr + dest_addr + 15 ≤ p + orig_addr)
      → u p ≡ m p
  copy_insns-outside zero orig_addr dest_addr end_addr p func m u end e o =
      absurd (copy_insns-zero orig_addr dest_addr end_addr func m u end e)
  copy_insns-outside (suc fuel) orig_addr dest_addr end_addr p func m u end e o =
      let n : ℕ = (decode m orig_addr).length in
      elim (Bool-cases (ltb orig_addr end_addr)) [
        | inr past ↦
            same_memory m u p _ _
              (sym (copy_insns-past fuel orig_addr dest_addr end_addr func m past) ∙ e)
        | inl more ↦ elim (Bool-cases (n == 0)) [
          | inl bad ↦
              same_memory m u p _ _
                (sym (copy_insns-bad fuel orig_addr dest_addr end_addr func m more bad) ∙ e)
          | inr good ↦
              copy_insns-outside fuel (orig_addr + n) (dest_addr + n) end_addr p func
                (after orig_addr dest_addr func m) u end
                (sym (copy_insns-good fuel orig_addr dest_addr end_addr func m more good) ∙ e)
                (moved p dest_addr end_addr orig_addr n o)
              ∙ copy_and_fixup_insn-outside (decode m orig_addr) orig_addr dest_addr p func m
                  (decodes m orig_addr)
                  (beyond p dest_addr end_addr orig_addr n more (decodes m orig_addr).short o)
        ]
      ]

  -- A round for each byte is enough.
  pub copy_insns-ends :
      (fuel orig_addr dest_addr end_addr : ℕ) (func : KernSym) (m : Memory)
      → end_addr ≤ orig_addr + fuel
      → (r : Option ℕ × Memory) × (copy_insns decode (suc fuel) orig_addr dest_addr end_addr func m
          ≡ ok r)
  copy_insns-ends zero orig_addr dest_addr end_addr func m f =
      (_, copy_insns-past zero orig_addr dest_addr end_addr func m (ground arith))
  copy_insns-ends (suc fuel) orig_addr dest_addr end_addr func m f =
      let n : ℕ = (decode m orig_addr).length in
      elim (Bool-cases (ltb orig_addr end_addr)) [
        | inr past ↦ (_, copy_insns-past (suc fuel) orig_addr dest_addr end_addr func m past)
        | inl more ↦ elim (Bool-cases (n == 0)) [
          | inl bad ↦ (_, copy_insns-bad (suc fuel) orig_addr dest_addr end_addr func m more bad)
          | inr good ↦
              let (r, rest) =
                copy_insns-ends fuel (orig_addr + n) (dest_addr + n) end_addr func
                  (after orig_addr dest_addr func m) (ground arith) in
              (r, copy_insns-good (suc fuel) orig_addr dest_addr end_addr func m more good ∙ rest)
        ]
      ]
