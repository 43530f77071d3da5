-- ===== src/Parse/Cstring.antt =====
-- Quoted strings: `EndOfStr` and `mi_get_cstring_r` (src/parse.c).
pub mod Laws
pub mod Fuel
use libmigdb.Base.{
  ℕ, suc, Bytes, ◌==◌, if◌then◌else◌, Bool, false, ◌||◌, Option, none, some, [], ◌∷◌,
}
use mathlib.Core.Option
use libmigdb.World.{M, pure, crash, fail, mi_calloc, mi_parser, ◌>>=◌}
use libmigdb.Tree.{Value, t_const}

-- Where a `const char *` points after the parser has moved it: at the rest of the string, of which
-- the terminating NUL is the end, or one byte behind that NUL, where nothing may be read.
pub data Ptr : Type 0 where
  at : Bytes → Ptr
  past : Ptr

-- Reads through the pointer.
unfoldable pub deref : Ptr → M Bytes
deref (at s) = pure s
deref past = crash

unfoldable pub delimited : Bytes → Bool
delimited [] = Bool.true
delimited (c ∷ s) = c == b',' || c == b']' || c == b'}'

-- `EndOfStr`: a quote ends the string only in front of the end, `,`, `]` or `}`.
unfoldable pub end_of_str : Bytes → Bool
unfolding delimited
end_of_str [] = false
end_of_str (c ∷ s) = if c == b'"' then delimited s else false

-- The byte that a backslash and `c` stand for.
unfoldable pub unescape : ℕ → ℕ
unescape c = if c == b'n' then b'\n' else if c == b't' then b'\t' else c

-- The first loop, which counts the bytes to allocate. A backslash in front of the NUL steps over the
-- NUL, and the next test reads behind it: `none`.
unfoldable pub measure : Bytes → Option ℕ
measure [] = some 0
measure (c ∷ []) = if end_of_str (c ∷ []) then some 0 else if c == b'\\' then none else some 1
measure (c ∷ d ∷ s) =
    let escaped = Option.map suc (measure s) in
    let plain = Option.map suc (measure (d ∷ s)) in
    if end_of_str (c ∷ d ∷ s) then some 0 else if c == b'\\' then escaped else plain

abbrev pub push : ℕ → Bytes × Ptr → Bytes × Ptr
push c (s, p) = (c ∷ s, p)

-- The second loop: the bytes written, and `s + 1`.
unfoldable pub copy : Bytes → Option (Bytes × Ptr)
unfolding unescape
copy [] = some ([], past)
copy (c ∷ []) =
    if end_of_str (c ∷ [])
    then some ([], at [])
    else if c == b'\\'
    then none
    else some (c ∷ [], past)
copy (c ∷ d ∷ s) =
    let escaped = Option.map (push (unescape d)) (copy s) in
    let plain = Option.map (push c) (copy (d ∷ s)) in
    if end_of_str (c ∷ d ∷ s) then some ([], at (d ∷ s)) else if c == b'\\' then escaped else plain

-- After the opening quote: measure, allocate, copy.
copied : Option (Bytes × Ptr) → Bool → M (Option (Value × Ptr))
copied none _ = crash
copied (some (s, p)) Bool.true = pure (some (t_const (some s), p))
copied (some (s, p)) Bool.false = pure none

measured : Option ℕ → Bytes → M (Option (Value × Ptr))
unfolding copied
measured none s = crash
measured (some len) s = do given ← mi_calloc; copied (copy s) given

unfoldable pub mi_get_cstring_r : Bytes → M (Option (Value × Ptr))
unfolding measured
mi_get_cstring_r [] = fail mi_parser
mi_get_cstring_r (c ∷ s) = if c == b'"' then measured (measure s) s else fail mi_parser
