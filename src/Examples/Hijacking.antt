-- ===== src/Examples/Hijacking.antt =====
-- The theorems on the hijacking of a kernel function, on a small function and a small decoder.
use github_upload.Base.{
  ℕ, ◌+◌, ◌∷◌, List, [], true, false, ok, wild, unfinished, Outcome, some, ℤ, pos, ◌==◌,
  if◌then◌else◌, ◌≡◌, refl, arith, inl, inr, Bool-cases,
}
use github_upload.Symbols.{KernSym, Symbol, find_symbol_address, find_symbol_callback}
use github_upload.Symbols.Find.{walk}
use github_upload.Hijack.Syscalls.{SymHook, hijack_syscalls, undo_hijack_syscalls}
use github_upload.Hijack.Undone.{undo_hijack_syscalls-hijack_syscalls}
use github_upload.Hijack.{
  Memory, put, get, Insn, code_addr_from_offset, code_offset_from_addr, fix_up, copy_and_fixup_insn,
  end_of_code, copy_insns, write_jump, finish_hijack, hijack_into, symbol_hijack,
}
use github_upload.Hijack.Copying.{Decodes}
use github_upload.Hijack.Ends.{hijack_syscalls-ends, symbol_hijack-jumps, JumpsTo}
use github_upload.Hijack.FixUp.{word_at, copy_and_fixup_insn-leads}

-- A decoder that knows calls of five bytes and instructions of one byte.
abbrev small_decode : Memory → ℕ → Insn
small_decode m a =
    if m a == 0xe8
    then record {
      length = 5;
      opcode = 0xe8;
      rip_relative = false;
      immediate = word_at m (a + 1);
      immediate_offset = 1;
      displacement = 0;
      displacement_offset = 0;
    }
    else record {
      length = 1;
      opcode = 0x90;
      rip_relative = false;
      immediate = 0;
      immediate_offset = 0;
      displacement = 0;
      displacement_offset = 0;
    }

small_decode-Decodes : (m : Memory) (a : ℕ) → Decodes (small_decode m a)
small_decode-Decodes m a = elim (Bool-cases (m a == 0xe8)) [
  | inl call ↦ rw call (record {
    short = omega arith;
    immediate_fits = λ e. omega arith;
    displacement_fits = λ e. absurd cc;
  })
  | inr other ↦ rw other (record {
    short = omega arith;
    immediate_fits = λ e. absurd cc;
    displacement_fits = λ e. absurd cc;
  })
]

-- push; call 4106; ret; 0.
abbrev code : Memory
code = put (λ q. 0) 4000 (0x55 ∷ 0xe8 ∷ 100 ∷ 0 ∷ 0 ∷ 0 ∷ 0xc3 ∷ 0 ∷ [])

abbrev function : KernSym
function = record {
  name = [];
  addr = 4000;
  end_addr = 4008;
  size = 8;
  new_size = 8;
  run = 4000;
  orig_start_bytes = [];
  new_addr = 0;
  found = true;
  hijacked = false;
}

abbrev state_of : Outcome (ℤ × (KernSym × Memory)) → KernSym × Memory
state_of (ok p) = p.1
state_of wild = (function, code)
state_of unfinished = (function, code)

abbrev after : KernSym × Memory
after = state_of (symbol_hijack small_decode (pos 0) function 6000 (some 8000) code)

copy_and_fixup_insn-leads_example :
    code_addr_from_offset 8001 5
      (word_at (copy_and_fixup_insn (small_decode code 4001) 4001 8001 function code) (8001 + 1))
    ≡ 4106
unfolding put code_addr_from_offset
copy_and_fixup_insn-leads_example =
    copy_and_fixup_insn-leads (small_decode code 4001) 4001 8001 100 1 function code
      (inl (refl, refl, refl)) refl (omega arith) (omega arith) (omega arith)

symbol_hijack-jumps_example : JumpsTo 6000 after.0 after.1
unfolding put get fix_up copy_and_fixup_insn end_of_code copy_insns write_jump finish_hijack
    hijack_into symbol_hijack code_addr_from_offset code_offset_from_addr
symbol_hijack-jumps_example =
    symbol_hijack-jumps small_decode function after.0 6000 0 (some 8000) (pos 0) code after.1 refl
      (omega arith, omega arith, omega arith, omega arith)

abbrev symbols : List Symbol
symbols =
    record { name = some (b'a' ∷ []); addr = 4000 }
    ∷ record { name = some (b'b' ∷ []); addr = 4008 }
    ∷ record { name = some (b'c' ∷ []); addr = 4014 }
    ∷ []

-- The function above, and another one of six bytes behind it.
abbrev two_functions : Memory
two_functions = put code 4008 (0x55 ∷ 0x55 ∷ 0x55 ∷ 0x55 ∷ 0x55 ∷ 0xc3 ∷ [])

-- A `struct kernsym` before it is used.
abbrev unknown : KernSym
unknown = record {
  name = [];
  addr = 0;
  end_addr = 0;
  size = 0;
  new_size = 0;
  run = 0;
  orig_start_bytes = [];
  new_addr = 0;
  found = false;
  hijacked = false;
}

-- The second function is not found.
abbrev hooks : List SymHook
hooks =
    record { name = b'a' ∷ []; sym = function; func = 6000; place = some 8000 }
    ∷ record { name = b'x' ∷ []; sym = unknown; func = 6050; place = some 8500 }
    ∷ record { name = b'b' ∷ []; sym = unknown; func = 6100; place = some 9000 }
    ∷ []

abbrev states_of : Outcome (List KernSym × Memory) → List KernSym × Memory
states_of (ok p) = p
states_of wild = ([], code)
states_of unfinished = ([], code)

abbrev hijacked : List KernSym × Memory
hijacked = states_of (hijack_syscalls small_decode (walk symbols) hooks two_functions)

false_not_true : (false ≡ true) → ⊥
false_not_true e = cc

undo_hijack_syscalls-hijack_syscalls_example :
    (undo_hijack_syscalls hijacked.0 hijacked.1).1 4008 ≡ two_functions 4008
unfolding put get fix_up copy_and_fixup_insn end_of_code copy_insns write_jump finish_hijack
    hijack_into symbol_hijack code_addr_from_offset code_offset_from_addr hijack_syscalls
    find_symbol_address find_symbol_callback
undo_hijack_syscalls-hijack_syscalls_example =
    undo_hijack_syscalls-hijack_syscalls small_decode small_decode-Decodes (walk symbols) symbols
      (λ callback sym. refl) hooks hijacked.0 two_functions hijacked.1 4008
      (refl, (refl, (refl, tt))) refl
      (
        (λ e. inl (omega arith)),
        (
          (λ e. (inl (omega arith), λ f. inl (omega arith))),
          ((λ e. (inl (omega arith), λ f. inr (omega arith))), tt),
        ),
        (
          (λ e. absurd (false_not_true e)),
          ((λ e. (inr (omega arith), λ f. inr (omega arith))), tt),
          ((λ e. inl (omega arith)), tt, tt),
        ),
      )
      (inl (omega arith), (inr (omega arith), (inl (omega arith), tt)))

hijack_syscalls-ends_example :
    (q : List KernSym × Memory) × (hijack_syscalls small_decode (walk symbols) hooks two_functions
      ≡ ok q)
hijack_syscalls-ends_example =
    hijack_syscalls-ends small_decode small_decode-Decodes (walk symbols) hooks two_functions
