-- ===== src/Extract/Variables/Changes.antt =====
-- The two forms in which gdb sends the changed variables.
use libmigdb.Base.{
  suc, length, Bytes, codes, str_eq, false, none, some, List, [], ◌∷◌, All, Bool-cases, inl, inr,
  ◌≡◌, refl, ap,
}
use libmigdb.World.{World, ret, Plenty, mi_calloc-Plenty}
use libmigdb.Tree.{Results, t_const, t_tuple, t_list, no_results, result, append}
use libmigdb.Parse.Print.{AreResults}
use libmigdb.Extract.{Libc, walk}
use libmigdb.Extract.Variables.{
  GvarChg, mi_alloc_gvar_chg, chg_const, chg_step, changes_v1, changes_v2, changelist,
}

-- The nodes behind the name of a change: none of them is a name.
abbrev pub HasNoName : Results → Type 0
HasNoName no_results = Unit
HasNoName (result none v rs) = HasNoName rs
HasNoName (result (some key) v rs) = (str_eq key (codes "name") ≡ false) × HasNoName rs

-- A change: its name, and the results behind it.
abbrev pub IsChange : Bytes × Results → Type 0
IsChange (text, fields) = AreResults fields × HasNoName fields

abbrev pub name_first : Bytes → Results → Results
name_first text fields = result (some (codes "name")) (t_const (some text)) fields

-- Each change in a tuple of its own.
abbrev pub as_v2 : List (Bytes × Results) → Results
as_v2 [] = no_results
as_v2 ((text, fields) ∷ cs) = result none (t_tuple (name_first text fields)) (as_v2 cs)

-- All changes in a row.
abbrev pub as_v1 : List (Bytes × Results) → Results
as_v1 [] = no_results
as_v1 ((text, fields) ∷ cs) = name_first text (append fields (as_v1 cs))

module _ (libc : Libc) where
  chg_const-some :
      (name s : Bytes) (n : GvarChg) (w : World)
      → (n' : GvarChg) × (chg_const libc name (some s) n w ≡ ret n' w)
  unfolding chg_const
  chg_const-some name s n w = elim (Bool-cases (str_eq name (codes "in_scope"))) [
    | inl e ↦ (record n { in_scope = str_eq s (codes "true") }, rw e)
    | inr e₁ ↦ elim (Bool-cases (str_eq name (codes "new_type"))) [
      | inl e ↦ (record n { new_type = some s }, rw (e₁, e))
      | inr e₂ ↦ elim (Bool-cases (str_eq name (codes "new_num_children"))) [
        | inl e ↦ (record n { new_num_children = libc.atoi s }, rw (e₁, e₂, e))
        | inr e₃ ↦ (n, rw (e₁, e₂, e₃))
      ]
    ]
  ]

  -- Both loops do the same with the nodes behind a name.
  changes_v1-append :
      (fields rest : Results) (n : GvarChg) (w : World)
      → AreResults fields
      → HasNoName fields
      → (n' : GvarChg) × (walk (chg_step libc) fields n w ≡ ret n' w)
        × (changes_v1 libc (some n) (append fields rest) w ≡ changes_v1 libc (some n') rest w)
  unfolding walk append chg_step changes_v1 AreResults
  changes_v1-append no_results rest n w a u = (n, refl, refl)
  changes_v1-append (result none v fs) rest n w a u = absurd a.0
  changes_v1-append (result (some key) (t_const none) fs) rest n w a u = absurd a.1
  changes_v1-append (result (some key) (t_tuple xs) fs) rest n w a u =
      changes_v1-append fs rest n w a.2 u.1
  changes_v1-append (result (some key) (t_list xs) fs) rest n w a u =
      changes_v1-append fs rest n w a.2 u.1
  changes_v1-append (result (some key) (t_const (some s)) fs) rest n w a u =
      let (n₁, e₁) = chg_const-some key s n w in
      let (n₂, e₂, e₃) = changes_v1-append fs rest n₁ w a.2 u.1 in
      (n₂, rw (u.0, e₁) e₂, rw (u.0, e₁) e₃)

  -- The change that the first of both forms starts with.
  abbrev named_chg : Bytes → GvarChg
  named_chg text = record mi_alloc_gvar_chg { name = some text }

  both_forms :
      (n : GvarChg) (cs : List (Bytes × Results)) (w : World)
      → All IsChange cs
      → Plenty w
      → (ns : List GvarChg) × (changes_v2 libc (as_v2 cs) w ≡ ret ns w)
        × (changes_v1 libc (some n) (as_v1 cs) w ≡ ret (some (n ∷ ns)) w)
        × (length ns ≡ length cs)
  unfolding changes_v1 changes_v2 walk chg_step str_eq
  both_forms n [] w c p = ([], refl, refl, refl)
  both_forms n ((text, fields) ∷ cs) w c p =
      let (n₁, walked, passed) =
        changes_v1-append fields (as_v1 cs) (named_chg text) w c.0.0 c.0.1 in
      let (ns, v₂, v₁, same) = both_forms n₁ cs w c.1 p in
      (
        n₁ ∷ ns,
        rw (mi_calloc-Plenty w p, walked, v₂),
        rw (mi_calloc-Plenty w p, passed, v₁),
        ap suc same,
      )

  -- With memory to spare, changed variables that each start with a name that is a string, followed by
  -- results of other names, are read alike from both forms of the response: a list of tuples (MI v2),
  -- and one tuple with all together (MI v1). The call returns one more than their number.
  pub changelist-as_v1-as_v2 :
      (cs : List (Bytes × Results)) (w : World)
      → All IsChange cs
      → Plenty w
      → (ns : List GvarChg) × (changelist libc (some (t_list (as_v2 cs))) w
          ≡ ret (suc (length cs), ns) w)
        × (changelist libc (some (t_tuple (as_v1 cs))) w ≡ ret (suc (length cs), ns) w)
  unfolding changelist changes_v1 changes_v2 walk chg_step str_eq
  changelist-as_v1-as_v2 [] w c p = ([], refl, refl)
  changelist-as_v1-as_v2 ((text, fields) ∷ cs) w c p =
      let (n₁, walked, passed) =
        changes_v1-append fields (as_v1 cs) (named_chg text) w c.0.0 c.0.1 in
      let (ns, v₂, v₁, same) = both_forms n₁ cs w c.1 p in
      (
        n₁ ∷ ns,
        rw (mi_calloc-Plenty w p, walked, v₂, same),
        rw (mi_calloc-Plenty w p, passed, v₁, same),
      )
