-- ===== src/Base/Text.antt =====
-- C strings. A string is the list of its bytes before the terminating NUL, so no element is 0, and
-- the empty list is the NUL itself.
use Prim.Native.Nat.{ℕ}
use Prim.Native.Char.{code}
use Prim.Native.String.{String}
use mathlib.Core.Path.{◌≡◌, refl}
use mathlib.Core.Logic.{◌↔◌}
use mathlib.Core.Bool.{Bool, true, false, ◌&&◌}
use mathlib.Core.Option.{Option, none, some}
use mathlib.Core.List.{List, [], ◌∷◌, ◌++◌}
use native.Mathlib.Omega.{arith}
use libmigdb.Base.Tests.{◌==◌, ==_refl, if◌then◌else◌}

abbrev pub Bytes : Type 0
Bytes = List ℕ

-- The bytes of an ASCII literal.
abbrev pub codes : String → Bytes
codes String.[] = []
codes (String.◌∷◌ c s) = code c ∷ codes s

-- `*s == c` for a `c` that is not NUL.
abbrev pub starts : ℕ → Bytes → Bool
starts c [] = false
starts c (d ∷ s) = d == c

-- `s + 1` at a byte that is there.
abbrev pub tail : Bytes → Bytes
tail [] = []
tail (c ∷ s) = s

-- `strcmp(a, b) == 0`.
unfoldable pub str_eq : Bytes → Bytes → Bool
str_eq [] [] = true
str_eq (x ∷ a) (y ∷ b) = x == y && str_eq a b
str_eq _ _ = false

pub str_eq_iff : (a b : Bytes) → (str_eq a b ≡ true) ↔ (a ≡ b)
unfolding str_eq
str_eq_iff [] [] = ground arith
str_eq_iff (x ∷ a) (y ∷ b) = ground (arith, str_eq_iff a b)
str_eq_iff _ _ = ground arith

-- `strncmp(s, p, strlen(p)) == 0`, with what stands behind the prefix.
unfoldable pub strip : Bytes → Bytes → Option Bytes
strip [] s = some s
strip (c ∷ p) [] = none
strip (c ∷ p) (d ∷ s) = if d == c then strip p s else none

pub strip-append : (p s : Bytes) → strip p (p ++ s) ≡ some s
unfolding strip
strip-append [] s = refl
strip-append (c ∷ p) s = ground (arith, strip-append p s, ==_refl c)
