-- ===== src/Base/Bytes.antt =====
-- Numbers as their bytes.
use Prim.Native.Nat.{ℕ, ◌/◌, ◌%◌}
use mathlib.Core.List.{List, [], ◌∷◌}

-- The four bytes of an `int` or a `ULONG`, the lowest first.
abbrev pub le32 : ℕ → List ℕ
le32 n = n % 256 ∷ n / 256 % 256 ∷ n / 65536 % 256 ∷ n / 16777216 % 256 ∷ []
