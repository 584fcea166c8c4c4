-- ===== src/Symbols.antt =====
-- symbols.c for kernels from 2.6.30 on, and `kernfunc_init` of kernfunc.c: the addresses and sizes of
-- kernel functions that are not exported. `kallsyms_on_each_symbol` is the kernel's.
pub mod Find
use github_upload.Base.{
  ◌+◌, ◌%◌, ℕ, zero, suc, ◌-◌, ◌^◌, List, [], ◌∷◌, Bool, true, false, Option, none, some, ℤ, pos,
  negsuc, if◌then◌else◌,
}
use github_upload.Text.{same_string}

-- A line of the kernel's table: the name, `none` for NULL, and the address.
pub record Symbol : Type 0 where
  pub name : Option (List ℕ)
  pub addr : ℕ

-- `struct kernsym` of module.h. `name_alloc` is never set by the search for a name.
pub record KernSym : Type 0 where
  pub name : List ℕ
  pub addr : ℕ
  pub end_addr : ℕ
  pub size : ℕ
  pub new_size : ℕ
  pub run : ℕ
  pub orig_start_bytes : List ℕ
  pub new_addr : ℕ
  pub found : Bool
  pub hijacked : Bool

-- `name && !strcmp(name, sym->name)`.
abbrev pub is_named : List ℕ → Option (List ℕ) → Bool
is_named s none = false
is_named s (some name) = same_string name s

-- `find_symbol_callback`.
unfoldable pub find_symbol_callback : KernSym → Symbol → ℕ × KernSym
find_symbol_callback sym s =
    if sym.found
    then (1, record sym { end_addr = s.addr })
    else if is_named sym.name s.name
    then (0, record sym { addr = s.addr; found = true })
    else (0, sym)

-- `kallsyms_on_each_symbol` with `find_symbol_callback`: the callback's last result, and the symbol.
abbrev pub EachSymbol : Type 0
EachSymbol = (KernSym → Symbol → ℕ × KernSym) → KernSym → ℕ × KernSym

-- The bytes from one address to another, as an `unsigned long`: the addresses are `void *`.
abbrev pub bytes_between : ℕ → ℕ → ℕ
bytes_between a e = (e + 2 ^ 64 - a) % 2 ^ 64

-- `-EFAULT`.
abbrev pub efault : ℤ
efault = negsuc 13

-- `find_symbol_address` behind the walk: a walk that returned 0 has found no end.
abbrev pub measured : ℕ × KernSym → ℤ × KernSym
measured (zero, s) = (efault, s)
measured (suc n, s) = (
  pos 0,
  record s {
    size = bytes_between s.addr s.end_addr;
    new_size = bytes_between s.addr s.end_addr;
    run = s.addr;
  },
)

-- `find_symbol_address`.
unfoldable pub find_symbol_address : EachSymbol → List ℕ → KernSym → ℤ × KernSym
find_symbol_address each symbol_name sym =
    measured (each find_symbol_callback (record sym { name = symbol_name; found = false }))

abbrev pub is_error : ℤ → Bool
is_error (pos n) = false
is_error (negsuc n) = true

-- `kernfunc_init`, for the functions that it looks for in their order: the first error ends it.
unfoldable pub kernfunc_init : EachSymbol → List (List ℕ × KernSym) → ℤ × List KernSym
kernfunc_init each [] = (pos 0, [])
kernfunc_init each (f ∷ fs) =
    let (ret, s) = find_symbol_address each f.0 f.1 in
    let (last, ss) = kernfunc_init each fs in if is_error ret then (ret, s ∷ []) else (last, s ∷ ss)
