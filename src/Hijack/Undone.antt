-- ===== src/Hijack/Undone.antt =====
-- hookvfs.c: `undo_hijack_syscalls` takes back what `hijack_syscalls` has done to the kernel.
use github_upload.Base.{
  ℕ, zero, suc, ◌+◌, ◌≤◌, ◌<◌, List, [], ◌∷◌, true, false, Outcome, ok, wild, unfinished, ◌>>=◌, ℤ,
  All, ◌≡◌, ◌⊎◌, inl, inr, subst, refl, arith, ◌∙◌,
}
use github_upload.Symbols.{Symbol, KernSym, EachSymbol, find_symbol_address}
use github_upload.Symbols.Find.{Walks, find_symbol_address-hijacked}
use github_upload.Hijack.{Memory, Insn, get, op_jmp_size, symbol_restore}
use github_upload.Hijack.Copying.{Decodes}
use github_upload.Hijack.Left.{Left, Leaves, OffBlock, OffStart, symbol_hijack-Leaves}
use github_upload.Hijack.Restored.{symbol_restore-kept}
use github_upload.Hijack.Syscalls.{SymHook, hijack_hook, hijack_syscalls, undo_hijack_syscalls}

-- The start of `b` is off the block of `a`, with the 15 bytes behind it.
abbrev pub StartOffBlock : KernSym → KernSym → Type 0
StartOffBlock a b = (b.addr + op_jmp_size ≤ a.new_addr) ⊎ (a.new_addr + a.size + 15 ≤ b.addr)

-- The starts of two functions do not overlap.
abbrev pub StartsApart : KernSym → KernSym → Type 0
StartsApart a b = (b.addr + op_jmp_size ≤ a.addr) ⊎ (a.addr + op_jmp_size ≤ b.addr)

-- The starts that are written over are off each other, off their own copies and off the copies made
-- before, also those of functions that could not be hijacked.
abbrev pub Apart : List KernSym → Type 0
Apart [] = Unit
Apart (t ∷ ts) =
    (t.hijacked ≡ true → StartOffBlock t t)
    × All (λ b. b.hijacked ≡ true → StartOffBlock t b × (t.hijacked ≡ true → StartsApart t b)) ts
    × Apart ts

abbrev Kept : Memory → KernSym → Type 0
Kept m t = t.hijacked ≡ true → t.orig_start_bytes ≡ get m t.addr op_jmp_size

-- The memory differs only in blocks and starts, and the starts are kept.
record LeftAll (m : Memory) (ts : List KernSym) (u : Memory) : Type 0 where
  kept_all : All (Kept m) ts
  changed_only : (p : ℕ) → All (λ t. OffBlock t p) ts → All (λ t. OffStart t p) ts → u p ≡ m p

get-agrees :
    (n a : ℕ) (v m : Memory) → ((q : ℕ) → a ≤ q → q < a + n → v q ≡ m q) → get v a n ≡ get m a n
unfolding get
get-agrees zero a v m h = refl
get-agrees (suc n) a v m h =
    let first : v a ≡ m a = h a (omega arith) (omega arith) in
    let rest : get v (a + 1) n ≡ get m (a + 1) n =
      get-agrees n (a + 1) v m (λ q l r. h q (omega arith) (omega arith)) in
    rw (first, rest) refl

start_off_block :
    (a b : KernSym) (q : ℕ)
    → StartOffBlock a b
    → b.addr ≤ q
    → q < b.addr + op_jmp_size
    → OffBlock a q
start_off_block a b q (inl o) l r = inl (omega arith)
start_off_block a b q (inr o) l r = inr (omega arith)

starts_apart :
    (a b : KernSym) (q : ℕ)
    → StartsApart a b
    → b.addr ≤ q
    → q < b.addr + op_jmp_size
    → (q < a.addr) ⊎ (a.addr + op_jmp_size ≤ q)
starts_apart a b q (inl o) l r = inl (omega arith)
starts_apart a b q (inr o) l r = inr (omega arith)

before-Kept :
    (m u : Memory) (t : KernSym) (ts : List KernSym)
    → Left m t u
    → All (λ b. b.hijacked ≡ true → StartOffBlock t b × (t.hijacked ≡ true → StartsApart t b)) ts
    → All (Kept u) ts
    → All (Kept m) ts
before-Kept m u t [] left apart kept = tt
before-Kept m u t (b ∷ ts) left (o, apart) (k, kept) = (
  (λ h.
      k h
      ∙ get-agrees op_jmp_size b.addr u m λ q l r.
        left.start_only q (λ e. starts_apart t b q ((o h).1 e) l r)
        ∙ left.block_only q (start_off_block t b q (o h).0 l r)),
  before-Kept m u t ts left apart kept,
)

left_all :
    (m v u : Memory) (t : KernSym) (ts : List KernSym)
    → Left m t v
    → Apart (t ∷ ts)
    → LeftAll v ts u
    → LeftAll m (t ∷ ts) u
left_all m v u t ts left (own, others, apart) all = record {
  kept_all = (
    (λ h.
        left.kept h
        ∙ get-agrees op_jmp_size t.addr left.between m
            λ q l r. left.block_only q (start_off_block t t q (own h) l r)),
    before-Kept m v t ts left others all.kept_all,
  );
  changed_only =
      λ p b s. all.changed_only p b.1 s.1 ∙ left.start_only p s.0 ∙ left.block_only p b.0;
}

-- For each result.
abbrev LeavesAll : Memory → Outcome (List KernSym × Memory) → Type 0
LeavesAll m (ok q) = Apart q.0 → LeftAll m q.0 q.1
LeavesAll m wild = Unit
LeavesAll m unfinished = Unit

undo_hijack_syscalls-Kept :
    (ts : List KernSym) (m u : Memory) (p : ℕ)
    → All (Kept m) ts
    → (All (λ t. OffStart t p) ts → u p ≡ m p)
    → (undo_hijack_syscalls ts u).1 p ≡ m p
unfolding undo_hijack_syscalls
undo_hijack_syscalls-Kept [] m u p kept off = off tt
undo_hijack_syscalls-Kept (t ∷ ts) m u p (k, kept) off =
    undo_hijack_syscalls-Kept ts m (symbol_restore t u).1 p kept
      λ os. symbol_restore-kept t m u p k (λ o. off (o, os))

module _ (decode : Memory → ℕ → Insn) (decodes : (m : Memory) (a : ℕ) → Decodes (decode m a))
    (kallsyms : EachSymbol) (table : List Symbol) (walks : Walks kallsyms table) where
  hooks_next :
      (m v : Memory) (t : KernSym) (o : Outcome (List KernSym × Memory))
      → Left m t v
      → LeavesAll v o
      → LeavesAll m (o >>= λ q. ok (t ∷ q.0, q.1))
  hooks_next m v t (ok (ts, u)) left all = λ apart. left_all m v u t ts left apart (all apart.2)
  hooks_next m v t wild left all = tt
  hooks_next m v t unfinished left all = tt

  hook_first :
      (m : Memory) (o : Outcome (ℤ × (KernSym × Memory))) (hs : List SymHook)
      → Leaves m o
      → ((v : Memory) → LeavesAll v (hijack_syscalls decode kallsyms hs v))
      → LeavesAll m
          (o >>= λ r. hijack_syscalls decode kallsyms hs r.1.1 >>= λ q. ok (r.1.0 ∷ q.0, q.1))
  hook_first m (ok r) hs left rest =
      hooks_next m r.1.1 r.1.0 (hijack_syscalls decode kallsyms hs r.1.1) left (rest r.1.1)
  hook_first m wild hs left rest = tt
  hook_first m unfinished hs left rest = tt

  hijack_syscalls-Leaves :
      (hs : List SymHook) (m : Memory)
      → All (λ h. h.sym.hijacked ≡ false) hs
      → LeavesAll m (hijack_syscalls decode kallsyms hs m)
  unfolding hijack_syscalls
  hijack_syscalls-Leaves [] m fresh =
      λ apart. record { kept_all = tt; changed_only = λ p b s. refl }
  hijack_syscalls-Leaves (h ∷ hs) m (f, fresh) =
      let found : ℤ × KernSym = find_symbol_address kallsyms h.name h.sym in
      hook_first m (hijack_hook decode kallsyms h m) hs
        (symbol_hijack-Leaves decode decodes found.1 h.func h.place found.0 m
          (find_symbol_address-hijacked kallsyms table h.name h.sym walks ∙ f))
        (λ v. hijack_syscalls-Leaves hs v fresh)

  -- After `hijack_syscalls` on symbols that are not hijacked, whichever of them cannot be found or
  -- hijacked, `undo_hijack_syscalls` makes the memory what it was, but for the `size` bytes from each
  -- symbol's `new_addr` on and 15 bytes behind them. The starts that are written over are off each
  -- other, off their own copies and off those made before; the decoder gives instructions of at most 15
  -- bytes with their references inside, and kallsyms walks a table.
  pub undo_hijack_syscalls-hijack_syscalls :
      (hs : List SymHook) (ts : List KernSym) (m u : Memory) (p : ℕ)
      → All (λ h. h.sym.hijacked ≡ false) hs
      → hijack_syscalls decode kallsyms hs m ≡ ok (ts, u)
      → Apart ts
      → All (λ t. OffBlock t p) ts
      → (undo_hijack_syscalls ts u).1 p ≡ m p
  undo_hijack_syscalls-hijack_syscalls hs ts m u p fresh e apart off =
      let all : LeftAll m ts u = subst (LeavesAll m) e (hijack_syscalls-Leaves hs m fresh) apart in
      undo_hijack_syscalls-Kept ts m u p all.kept_all (all.changed_only p off)
