-- ===== src/Enums/Names.antt =====
-- The tables of names against their inverses.
use libmigdb.Base.{
  Bytes, codes, str_eq, str_eq_iff, Bool-cases, ◌⊎◌, ap, ◌∙◌, Option, none, inl, inr, ◌≡◌, refl,
  ◌<◌, ℕ, zero, suc, length, All, ltb, List, [], ◌∷◌, some, arith,
}
use libmigdb.World.{mi_last_error}
use libmigdb.Extract.{ℤ, pos, negsuc}
use libmigdb.Enums.{
  GvarLang, mi_lang_str_to_enum, mi_lang_enum_to_str, GvarFmt, fm_natural, mi_format_str_to_enum,
  mi_format_enum_to_str, StopReason, reason_names, mi_reason_str_to_enum, mi_reason_enum_to_str,
  get_elem?, error_strs, mi_get_error_str, is_no_error, at_int, find_reason, sr_unknown,
}

-- A language that the library names is found again by its name.
pub mi_lang_str_to_enum-enum_to_str :
    (l : GvarLang) → mi_lang_str_to_enum (mi_lang_enum_to_str l) ≡ l
unfolding mi_lang_str_to_enum mi_lang_enum_to_str str_eq
mi_lang_str_to_enum-enum_to_str GvarLang.lg_unknown = refl
mi_lang_str_to_enum-enum_to_str GvarLang.lg_c = refl
mi_lang_str_to_enum-enum_to_str GvarLang.lg_cpp = refl
mi_lang_str_to_enum-enum_to_str GvarLang.lg_java = refl

-- A format that the library names is found again by its name, but for the raw one, which is taken for
-- the natural one.
pub mi_format_str_to_enum-enum_to_str :
    (f : GvarFmt)
    → mi_format_str_to_enum (mi_format_enum_to_str f)
      ≡ elim f [ GvarFmt.fm_raw ↦ fm_natural | g ↦ g ]
unfolding mi_format_str_to_enum mi_format_enum_to_str str_eq
mi_format_str_to_enum-enum_to_str GvarFmt.fm_natural = refl
mi_format_str_to_enum-enum_to_str GvarFmt.fm_binary = refl
mi_format_str_to_enum-enum_to_str GvarFmt.fm_decimal = refl
mi_format_str_to_enum-enum_to_str GvarFmt.fm_hexadecimal = refl
mi_format_str_to_enum-enum_to_str GvarFmt.fm_octal = refl
mi_format_str_to_enum-enum_to_str GvarFmt.fm_raw = refl

some-injective : {a b : Bytes} → some a ≡ some b → a ≡ b
some-injective e = cc

-- The word that stands for a reason in the records of gdb.
abbrev pub reason_word : StopReason → Option Bytes
reason_word StopReason.sr_unknown = none
reason_word StopReason.sr_bkpt_hit = some (codes "breakpoint-hit")
reason_word StopReason.sr_wp_trigger = some (codes "watchpoint-trigger")
reason_word StopReason.sr_read_wp_trigger = some (codes "read-watchpoint-trigger")
reason_word StopReason.sr_access_wp_trigger = some (codes "access-watchpoint-trigger")
reason_word StopReason.sr_wp_scope = some (codes "watchpoint-scope")
reason_word StopReason.sr_function_finished = some (codes "function-finished")
reason_word StopReason.sr_location_reached = some (codes "location-reached")
reason_word StopReason.sr_end_stepping_range = some (codes "end-stepping-range")
reason_word StopReason.sr_exited_signalled = some (codes "exited-signalled")
reason_word StopReason.sr_exited = some (codes "exited")
reason_word StopReason.sr_exited_normally = some (codes "exited-normally")
reason_word StopReason.sr_signal_received = some (codes "signal-received")

-- A reason with the text that it was found for.
abbrev pub IsFoundBy : Bytes → StopReason → Type 0
IsFoundBy s r = (reason_word r ≡ some s) ⊎ (r ≡ sr_unknown)

find_reason-IsFoundBy :
    (s : Bytes) (table : List (Bytes × StopReason))
    → All (λ entry. reason_word entry.1 ≡ some entry.0) table
    → IsFoundBy s (find_reason s table)
unfolding find_reason
find_reason-IsFoundBy s [] a = inr refl
find_reason-IsFoundBy s (entry ∷ table) a = elim (Bool-cases (str_eq entry.0 s)) [
  | inl e ↦ rw e (inl (a.0 ∙ ap some ((str_eq_iff entry.0 s).0 e)))
  | inr e ↦ rw e (find_reason-IsFoundBy s table a.1)
]

reason_names-words : All (λ entry. reason_word entry.1 ≡ some entry.0) reason_names
unfolding reason_names
reason_names-words = (
  refl,
  (refl, (refl, (refl, (refl, (refl, (refl, (refl, (refl, (refl, (refl, (refl, tt))))))))))),
)

reason_word-read :
    (r : StopReason) (s : Bytes) → reason_word r ≡ some s → mi_reason_str_to_enum s ≡ r
unfolding mi_reason_str_to_enum reason_names find_reason str_eq
reason_word-read StopReason.sr_unknown s e = cc
reason_word-read StopReason.sr_bkpt_hit s e = rw (← some-injective e) refl
reason_word-read StopReason.sr_wp_trigger s e = rw (← some-injective e) refl
reason_word-read StopReason.sr_read_wp_trigger s e = rw (← some-injective e) refl
reason_word-read StopReason.sr_access_wp_trigger s e = rw (← some-injective e) refl
reason_word-read StopReason.sr_wp_scope s e = rw (← some-injective e) refl
reason_word-read StopReason.sr_function_finished s e = rw (← some-injective e) refl
reason_word-read StopReason.sr_location_reached s e = rw (← some-injective e) refl
reason_word-read StopReason.sr_end_stepping_range s e = rw (← some-injective e) refl
reason_word-read StopReason.sr_exited_signalled s e = rw (← some-injective e) refl
reason_word-read StopReason.sr_exited s e = rw (← some-injective e) refl
reason_word-read StopReason.sr_exited_normally s e = rw (← some-injective e) refl
reason_word-read StopReason.sr_signal_received s e = rw (← some-injective e) refl

-- The word of each reason is read as that reason, and any other text as the unknown one.
pub mi_reason_str_to_enum-reason_word :
    ((r : StopReason) (s : Bytes) → reason_word r ≡ some s → mi_reason_str_to_enum s ≡ r)
    × ((s : Bytes) → IsFoundBy s (mi_reason_str_to_enum s))
unfolding mi_reason_str_to_enum
mi_reason_str_to_enum-reason_word =
    (reason_word-read, λ s. find_reason-IsFoundBy s reason_names reason_names-words)

-- Every reason has an explanation, so the result is never null.
pub mi_reason_enum_to_str-some : (r : StopReason) → (s : Bytes) × (mi_reason_enum_to_str r ≡ some s)
unfolding mi_reason_enum_to_str
mi_reason_enum_to_str-some StopReason.sr_unknown = (_, refl)
mi_reason_enum_to_str-some StopReason.sr_bkpt_hit = (_, refl)
mi_reason_enum_to_str-some StopReason.sr_wp_trigger = (_, refl)
mi_reason_enum_to_str-some StopReason.sr_read_wp_trigger = (_, refl)
mi_reason_enum_to_str-some StopReason.sr_access_wp_trigger = (_, refl)
mi_reason_enum_to_str-some StopReason.sr_wp_scope = (_, refl)
mi_reason_enum_to_str-some StopReason.sr_function_finished = (_, refl)
mi_reason_enum_to_str-some StopReason.sr_location_reached = (_, refl)
mi_reason_enum_to_str-some StopReason.sr_end_stepping_range = (_, refl)
mi_reason_enum_to_str-some StopReason.sr_exited_signalled = (_, refl)
mi_reason_enum_to_str-some StopReason.sr_exited = (_, refl)
mi_reason_enum_to_str-some StopReason.sr_exited_normally = (_, refl)
mi_reason_enum_to_str-some StopReason.sr_signal_received = (_, refl)

get_elem?-lt {ℓ} :
    {A : Type ℓ} (xs : List A) (n : ℕ) → n < length xs → (x : A) × (get_elem? xs n ≡ some x)
unfolding get_elem?
get_elem?-lt [] n h = absurd (omega arith)
get_elem?-lt (x ∷ xs) zero h = (x, refl)
get_elem?-lt (x ∷ xs) (suc n) h = get_elem?-lt xs n (omega arith)

-- Whatever `int` the global `mi_error` is, a message is returned: the table is not read outside its
-- bounds.
pub mi_get_error_str-some : (e : ℤ) → (s : Bytes) × (mi_get_error_str e ≡ some s)
unfolding mi_get_error_str is_no_error at_int error_strs
mi_get_error_str-some (negsuc n) = (codes "Unknown", refl)
mi_get_error_str-some (pos n) = elim (Bool-cases (ltb mi_last_error n)) [
  | inl e ↦ (codes "Unknown", rw e)
  | inr e ↦ let (s, found) = get_elem?-lt error_strs n (ground arith) in (s, rw e found)
]
