-- ===== src/Extract.antt =====
-- The structures that the library fills from a tree of results (src/parse.c): the loops that walk a
-- chain and look at the name of each node, and the C functions that they call.
--
-- A string that the code takes out of the tree (`r->v.cstr=NULL`) is a field of the structure. Each
-- node is visited once and the callers release the tree, so what is left of it is not returned.
pub mod Frames
pub mod Breakpoints
pub mod Variables
pub mod Stop
pub mod Registers
pub mod Memory
pub mod Threads
pub mod Children
pub mod Assembly
use libmigdb.Base.{
  ℕ, zero, suc, ◌%◌, ◌-◌, ltb, ◌==◌, Bytes, str_eq, str_eq_iff, Bool-cases, Bool, true, false,
  Option, none, some, if◌then◌else◌, ◌⊎◌, inl, inr, ◌≡◌, ◌↔◌, arith,
}
use libmigdb.World.{M, pure, crash, ◌>>=◌}
use libmigdb.Tree.{Value, Results, t_const, no_results, result}

pub data ℤ : Type 0 where
  pos : ℕ → ℤ
  negsuc : ℕ → ℤ

-- `atoi`, `strtoul` and `strtol` with base 0, and what `printf` writes for `%d` and `%p` are outside the library:
-- they are arguments of the definitions that use them.
pub record Libc : Type 0 where
  pub atoi : Bytes → ℤ
  pub strtoul : Bytes → ℕ
  pub strtol : Bytes → ℤ
  pub print_int : ℤ → Bytes
  pub print_pointer : ℕ → Bytes

-- `while (r) { ... r=r->next; }` with the structure that it fills.
unfoldable pub walk : {S : Type 0} → (Option Bytes → Value → S → M S) → Results → S → M S
walk step no_results s = pure s
walk step (result var v rs) s = do s' ← step var v s; walk step rs s'

-- A read through the pointer: null faults.
abbrev pub required : {A : Type 0} → Option Bytes → (Bytes → M A) → M A
required none f = crash
required (some s) f = f s

-- What the last entry of that name and of string type says, or `a` when there is none.
unfoldable pub pick : {A : Type 0} → (Bytes → A) → Bytes → A → Results → A
pick read key a no_results = a
pick read key a (result (some name) (t_const (some text)) rs) =
    let rest = pick read key a rs in
    let found = pick read key (read text) rs in if str_eq name key then found else rest
pick read key a (result _ _ rs) = pick read key a rs

-- A name is a key, or it is not.
pub is_key : (name key : Bytes) → (name ≡ key) ⊎ (str_eq name key ≡ false)
is_key name key = elim (Bool-cases (str_eq name key)) [
  | inl e ↦ inl ((str_eq_iff name key).0 e)
  | inr e ↦ inr e
]

-- Tests and arithmetic on `int`.
abbrev pub eq_int : ℤ → ℤ → Bool
eq_int (pos m) (pos n) = m == n
eq_int (negsuc m) (negsuc n) = m == n
eq_int _ _ = false

-- `i<n` for an `i` that is not negative.
abbrev pub below : ℕ → ℤ → Bool
below i (pos n) = ltb i n
below i (negsuc n) = false

abbrev pub add_one : ℤ → ℤ
add_one (pos n) = pos (suc n)
add_one (negsuc zero) = pos 0
add_one (negsuc (suc n)) = negsuc n

-- The conversions of an `int` to `unsigned` and to `unsigned char`.
abbrev pub to_unsigned : ℤ → ℕ
to_unsigned (pos n) = n % 4294967296
to_unsigned (negsuc n) = 4294967295 - n % 4294967296

abbrev pub to_byte : ℤ → ℕ
to_byte (pos n) = n % 256
to_byte (negsuc n) = 255 - n % 256
