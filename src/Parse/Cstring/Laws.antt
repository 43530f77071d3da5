-- ===== src/Parse/Cstring/Laws.antt =====
-- What the two loops of `mi_get_cstring_r` do (src/parse.c).
use libmigdb.Base.{
  ℕ, suc, Bytes, length, ◌==◌, true, false, Bool-cases, ==_iff, Option, none, some, [], ◌∷◌, ◌++◌,
  ◌≡◌, refl, ap, ◌∙◌, inl, inr, arith, append_assoc,
}
use mathlib.Core.Option
use libmigdb.World.{World, Plenty, ret, mi_calloc-Plenty}
use libmigdb.Tree.{t_const}
use libmigdb.Parse.Cstring.{
  Ptr, at, past, delimited, end_of_str, unescape, measure, copy, push, mi_get_cstring_r,
}
use libmigdb.Parse.Print.{escape_byte, escape, quote}

abbrev pub written : Option (Bytes × Ptr) → Option ℕ
written = Option.map (λ r. length r.0)

length-push :
    (c : ℕ) (r : Option (Bytes × Ptr))
    → written (Option.map (push c) r) ≡ Option.map suc (written r)
length-push c none = refl
length-push c (some (s, p)) = refl

copy_end : (rest : Bytes) → delimited rest ≡ true → copy (b'"' ∷ rest) ≡ some ([], at rest)
unfolding copy end_of_str
copy_end [] h = refl
copy_end (c ∷ rest) h = rw h

copy_plain :
    (c : ℕ) (s : Bytes)
    → (c == b'"') ≡ false
    → (c == b'\\') ≡ false
    → copy (c ∷ s) ≡ Option.map (push c) (copy s)
unfolding copy end_of_str
copy_plain c [] q b = rw (q, b)
copy_plain c (d ∷ s) q b = rw (q, b)

-- One escaped byte, with more of the string behind it.
copy-escape_byte : (c : ℕ) (s : Bytes) → copy (escape_byte c ++ s) ≡ Option.map (push c) (copy s)
unfolding copy escape_byte end_of_str
copy-escape_byte c s = elim (Bool-cases (c == b'\n')) [
  | inl e ↦ rw ((==_iff c b'\n').0 e)
  | inr n ↦ elim (Bool-cases (c == b'\t')) [
    | inl e ↦ rw ((==_iff c b'\t').0 e)
    | inr t ↦ elim (Bool-cases (c == b'"')) [
      | inl e ↦ rw ((==_iff c b'"').0 e)
      | inr q ↦ elim (Bool-cases (c == b'\\')) [
        | inl e ↦ rw ((==_iff c b'\\').0 e)
        | inr b ↦ rw (n, t, q, b) (copy_plain c s q b)
      ]
    ]
  ]
]

-- The number of bytes that the copying loop writes is the number that was measured, and the two loops
-- run off the string together.
pub copy-measure : (s : Bytes) → written (copy s) ≡ measure s
unfolding copy measure
copy-measure [] = refl
copy-measure (c ∷ []) = elim (Bool-cases (end_of_str (c ∷ []))) [
  | inl e ↦ rw e
  | inr e ↦ rw e (ground arith)
]
copy-measure (c ∷ d ∷ s) = elim (Bool-cases (end_of_str (c ∷ d ∷ s))) [
  | inl e ↦ rw e
  | inr e ↦ rw e (elim (Bool-cases (c == b'\\')) [
    | inl b ↦ rw b (length-push (unescape d) (copy s) ∙ ap (Option.map suc) (copy-measure s))
    | inr b ↦ rw b (length-push c (copy (d ∷ s)) ∙ ap (Option.map suc) (copy-measure (d ∷ s)))
  ])
]

-- A written string is read back: the bytes, and the place behind the closing quote.
pub copy-escape :
    (s rest : Bytes) → delimited rest ≡ true → copy (escape s ++ (b'"' ∷ rest)) ≡ some (s, at rest)
unfolding escape
copy-escape [] rest h = copy_end rest h
copy-escape (c ∷ s) rest h =
    ap copy (append_assoc (escape_byte c) (escape s) (b'"' ∷ rest))
    ∙ copy-escape_byte c (escape s ++ b'"' ∷ rest)
    ∙ ap (Option.map (push c)) (copy-escape s rest h)

-- Without its closing quote a written string is read to the end, and the pointer left behind the NUL.
pub copy-escape_open : (s : Bytes) → copy (escape s) ≡ some (s, past)
unfolding escape copy
copy-escape_open [] = refl
copy-escape_open (c ∷ s) =
    copy-escape_byte c (escape s) ∙ ap (Option.map (push c)) (copy-escape_open s)

-- With memory to spare the parser of strings returns what the copying loop wrote.
mi_get_cstring_r-copy :
    (s t : Bytes) {p : Ptr} (w : World)
    → Plenty w
    → copy s ≡ some (t, p)
    → mi_get_cstring_r (b'"' ∷ s) w ≡ ret (some (t_const (some t), p)) w
unfolding mi_get_cstring_r
mi_get_cstring_r-copy s t w h e = rw (← copy-measure s, e, mi_calloc-Plenty w h, e)

-- With memory to spare, any text in quotes, with a backslash in front of a quote and a backslash, `\n`
-- for a newline, `\t` for a tab and the other bytes as they are, is read back byte for byte, and the
-- parser stops behind the closing quote, if what follows can follow a string.
pub mi_get_cstring_r-quote :
    (s rest : Bytes) (w : World)
    → Plenty w
    → delimited rest ≡ true
    → mi_get_cstring_r (quote s ++ rest) w ≡ ret (some (t_const (some s), at rest)) w
mi_get_cstring_r-quote s rest w h d =
    ap (λ (t : Bytes). mi_get_cstring_r (b'"' ∷ t) w) (append_assoc (escape s) (b'"' ∷ []) rest)
    ∙ mi_get_cstring_r-copy (escape s ++ b'"' ∷ rest) s w h (copy-escape s rest d)

pub mi_get_cstring_r-open :
    (s : Bytes) (w : World)
    → Plenty w
    → mi_get_cstring_r (b'"' ∷ escape s) w ≡ ret (some (t_const (some s), past)) w
mi_get_cstring_r-open s w h = mi_get_cstring_r-copy (escape s) s w h (copy-escape_open s)
