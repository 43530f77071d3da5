-- ===== src/Parse/Cstring/Fuel.antt =====
-- The string that is left behind a quoted string is shorter.
use libmigdb.Base.{
  ℕ, suc, ◌<◌, Bytes, length, ◌==◌, Bool, true, false, Bool-cases, Option, none, some, [], ◌∷◌, inl,
  inr, arith,
}
use mathlib.Core.Option
use libmigdb.World.{World}
use libmigdb.World.Ensures.{Ensures, holds, faulted, Ensures-continue, mi_calloc-Ensures}
use libmigdb.Parse.Cstring.{
  Ptr, at, past, end_of_str, unescape, measure, copy, copied, measured, push, mi_get_cstring_r,
}

-- What can be read from the pointer on has fewer than `n` bytes.
abbrev pub Left : ℕ → Ptr → Type 0
Left n (at s) = length s < n
Left n past = Unit

-- The same of what a function leaves, if it returns anything.
abbrev pub LeftBy {ℓ} : {A : Type ℓ} → ℕ → Option (A × Ptr) → Type 0
LeftBy n none = Unit
LeftBy n (some (a, p)) = Left n p

Left-suc : (n : ℕ) (p : Ptr) → Left n p → Left (suc n) p
Left-suc n (at s) h = omega arith
Left-suc n past h = tt

LeftBy-push :
    (n c : ℕ) (r : Option (Bytes × Ptr)) → LeftBy n r → LeftBy (suc n) (Option.map (push c) r)
LeftBy-push n c none h = tt
LeftBy-push n c (some (s, p)) h = Left-suc n p h

LeftBy-suc : (n : ℕ) (r : Option (Bytes × Ptr)) → LeftBy n r → LeftBy (suc n) r
LeftBy-suc n none h = tt
LeftBy-suc n (some (s, p)) h = Left-suc n p h

copy-LeftBy : (s : Bytes) → LeftBy (suc (length s)) (copy s)
unfolding copy
copy-LeftBy [] = tt
copy-LeftBy (c ∷ []) = elim (Bool-cases (end_of_str (c ∷ []))) [
  | inl e ↦ rw e (omega arith)
  | inr e ↦ rw e (elim (Bool-cases (c == b'\\')) [ inl b ↦ rw b tt | inr b ↦ rw b tt ])
]
copy-LeftBy (c ∷ d ∷ s) = elim (Bool-cases (end_of_str (c ∷ d ∷ s))) [
  | inl e ↦ rw e (omega arith)
  | inr e ↦ rw e (elim (Bool-cases (c == b'\\')) [
    | inl b ↦
        rw b (LeftBy-suc _ _ (LeftBy-push (suc (length s)) (unescape d) (copy s) (copy-LeftBy s)))
    | inr b ↦ rw b (LeftBy-push _ c (copy (d ∷ s)) (copy-LeftBy (d ∷ s)))
  ])
]

copied-Ensures :
    (n : ℕ) (r : Option (Bytes × Ptr)) (given : Bool) (w : World)
    → LeftBy n r
    → Ensures (LeftBy n) (copied r given w)
unfolding copied
copied-Ensures n none given w h = faulted
copied-Ensures n (some (s, p)) true w h = holds h
copied-Ensures n (some (s, p)) false w h = holds tt

measured-Ensures :
    (m : Option ℕ) (s : Bytes) (w : World) → Ensures (LeftBy (suc (length s))) (measured m s w)
unfolding measured
measured-Ensures none s w = faulted
measured-Ensures (some len) s w =
    Ensures-continue (mi_calloc-Ensures w)
      λ given w' _. copied-Ensures _ (copy s) given w' (copy-LeftBy s)

pub mi_get_cstring_r-Ensures :
    (s : Bytes) (w : World) → Ensures (LeftBy (length s)) (mi_get_cstring_r s w)
unfolding mi_get_cstring_r
mi_get_cstring_r-Ensures [] w = holds tt
mi_get_cstring_r-Ensures (c ∷ s) w = elim (Bool-cases (c == b'"')) [
  | inl q ↦ rw q (measured-Ensures (measure s) s w)
  | inr q ↦ rw q (holds tt)
]
