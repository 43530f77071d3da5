-- ===== src/Extract/Variables.antt =====
-- Variable objects and the list of those that changed (src/parse.c).
pub mod Changes
use libmigdb.Base.{
  ℕ, zero, suc, length, Bytes, codes, str_eq, if◌then◌else◌, ◌==◌, Bool, true, false, Option, none,
  some, List, [], ◌∷◌, ◌++◌,
}
use mathlib.Core.Option
use libmigdb.World.{M, pure, crash, mi_calloc, sys_alloc, ◌>>=◌}
use libmigdb.Tree.{Value, Results, t_const, t_tuple, t_list, no_results, result, Output, mi_cl_done}
use libmigdb.Enums.{
  GvarLang, lg_unknown, mi_lang_str_to_enum, GvarFmt, fm_natural, mi_format_str_to_enum,
}
use libmigdb.Connect.Handle.{Handle}
use libmigdb.Connect.Wait.{Wait}
use libmigdb.Query.{mi_get_rrecord, with_response, mi_res_done_var}
use libmigdb.Extract.{ℤ, pos, Libc, walk, required}

abbrev pub mi_attr_dont_know : ℕ
mi_attr_dont_know = 0

abbrev pub mi_attr_noneditable : ℕ
mi_attr_noneditable = 1

abbrev pub mi_attr_editable : ℕ
mi_attr_editable = 2

-- `struct mi_gvar_struct` without its links to other variables.
pub record Gvar : Type 0 where
  pub name : Option Bytes
  pub numchild : ℤ
  pub type : Option Bytes
  pub format : GvarFmt
  pub lang : GvarLang
  pub exp : Option Bytes
  pub attr : ℕ
  pub value : Option Bytes
  pub opened : Bool
  pub changed : Bool
  pub vischild : ℤ
  pub depth : ℤ
  pub ispointer : Bool

abbrev pub mi_alloc_gvar : Gvar
mi_alloc_gvar = record {
  name = none;
  numchild = pos 0;
  type = none;
  format = fm_natural;
  lang = lg_unknown;
  exp = none;
  attr = mi_attr_dont_know;
  value = none;
  opened = false;
  changed = false;
  vischild = pos 0;
  depth = pos 0;
  ispointer = false;
}

-- `l && res->type[l-1]=='*'`.
unfoldable pub ends_star : Bytes → Bool
ends_star [] = false
ends_star (c ∷ []) = c == b'*'
ends_star (c ∷ d ∷ s) = ends_star (d ∷ s)

abbrev pub attr_of : Bytes → ℕ
attr_of s = if str_eq s (codes "editable") then mi_attr_editable else mi_attr_noneditable

-- A changed variable.
pub record GvarChg : Type 0 where
  pub name : Option Bytes
  pub in_scope : Bool
  pub new_type : Option Bytes
  pub new_num_children : ℤ

abbrev pub mi_alloc_gvar_chg : GvarChg
mi_alloc_gvar_chg = record {
  name = none;
  in_scope = false;
  new_type = none;
  new_num_children = pos 0;
}

set_exp : Gvar → Bytes → Bool → Gvar
set_exp v s given = record v { exp = if given then some s else none }

-- `if (expression) res->exp=strdup(expression);`
with_expression : Option Bytes → Gvar → M Gvar
unfolding set_exp
with_expression none v = pure v
with_expression (some s) v = do given ← sys_alloc; pure (set_exp v s given)

-- `cur ? cur : mi_alloc_gvar()`.
gvar_block : Option Gvar → M (Option Gvar)
gvar_block (some v) = pure (some v)
gvar_block none = do given ← mi_calloc; pure (if given then some mi_alloc_gvar else none)

module _ (libc : Libc) where
  gvar_const : Bytes → Option Bytes → Gvar → M Gvar
  unfolding ends_star
  gvar_const name text v =
      if str_eq name (codes "name")
      then pure (record v { name = text })
      else if str_eq name (codes "numchild")
      then required text (λ s. pure (record v { numchild = libc.atoi s }))
      else if str_eq name (codes "type")
      then required text (λ s.
        pure (record v { type = some s; ispointer = if ends_star s then true else v.ispointer }))
      else if str_eq name (codes "lang")
      then required text (λ s. pure (record v { lang = mi_lang_str_to_enum s }))
      else if str_eq name (codes "exp")
      then pure (record v { exp = text })
      else if str_eq name (codes "format")
      then required text (λ s. pure (record v { format = mi_format_str_to_enum s }))
      else if str_eq name (codes "attr")
      then required text (λ s. pure (record v { attr = attr_of s }))
      else pure v

  gvar_step : Option Bytes → Value → Gvar → M Gvar
  unfolding gvar_const
  gvar_step var (t_const text) v = required var (λ name. gvar_const name text v)
  gvar_step var _ v = pure v

  filled_gvar : Results → Option Bytes → Option Gvar → M (Option Gvar)
  unfolding walk gvar_step with_expression
  filled_gvar c expression none = pure none
  filled_gvar c expression (some v) = do
    v₁ ← with_expression expression v
    v₂ ← walk gvar_step c v₁
    pure (some v₂)

  unfoldable pub mi_get_gvar : Output → Option Gvar → Option Bytes → M (Option Gvar)
  unfolding filled_gvar gvar_block
  mi_get_gvar o cur expression = do v ← gvar_block cur; filled_gvar o.c expression v

  record_gvar : Option Gvar → Option Bytes → Option Output → M (Option Gvar)
  unfolding mi_get_gvar
  record_gvar cur expression none = pure none
  record_gvar cur expression (some res) =
      if res.tclass == mi_cl_done then mi_get_gvar res cur expression else pure none

  unfoldable pub mi_res_gvar :
      Bool → List Wait → Handle → Option Gvar → Option Bytes → M (Option Gvar × Handle)
  unfolding with_response mi_get_rrecord record_gvar
  mi_res_gvar running waits h cur expression =
      with_response running waits h (λ r. record_gvar cur expression (mi_get_rrecord r))

  -- The fields of a change, but for its name.
  unfoldable pub chg_const : Bytes → Option Bytes → GvarChg → M GvarChg
  chg_const name text n =
      if str_eq name (codes "in_scope")
      then required text (λ s. pure (record n { in_scope = str_eq s (codes "true") }))
      else if str_eq name (codes "new_type")
      then pure (record n { new_type = text })
      else if str_eq name (codes "new_num_children")
      then required text (λ s. pure (record n { new_num_children = libc.atoi s }))
      else pure n

  unfoldable pub chg_step : Option Bytes → Value → GvarChg → M GvarChg
  unfolding chg_const
  chg_step var (t_const text) n = required var (λ name.
      if str_eq name (codes "name") then pure (record n { name = text }) else chg_const name text n)
  chg_step var _ n = pure n

  -- A null `r` faults, a first node that is no string gives null.
  unfoldable pub mi_get_gvar_chg : Results → M (Option GvarChg)
  unfolding walk chg_step
  mi_get_gvar_chg no_results = crash
  mi_get_gvar_chg (result var (t_const text) rs) = do
    given ← mi_calloc
    if given
        then (do n ← walk chg_step (result var (t_const text) rs) mi_alloc_gvar_chg; pure (some n))
        else pure none
  mi_get_gvar_chg (result var _ rs) = pure none

  link_chg : Option GvarChg → List GvarChg → List GvarChg
  link_chg none ns = ns
  link_chg (some n) ns = n ∷ ns

  -- MI v2: a list of tuples.
  unfoldable pub changes_v2 : Results → M (List GvarChg)
  unfolding mi_get_gvar_chg link_chg
  changes_v2 no_results = pure []
  changes_v2 (result var (t_tuple xs) rs) = do
    n ← mi_get_gvar_chg xs
    ns ← changes_v2 rs
    pure (link_chg n ns)
  changes_v2 (result var _ rs) = changes_v2 rs

  -- What the loop for MI v1 does with a node behind the name of a change.
  chg_v1 : Bytes → Option Bytes → Option GvarChg → M (Option GvarChg)
  unfolding chg_const
  chg_v1 name text (some n) = do n' ← chg_const name text n; pure (some n')
  chg_v1 name text none =
      if str_eq name (codes "in_scope")
      then crash
      else if str_eq name (codes "new_type")
      then crash
      else if str_eq name (codes "new_num_children")
      then crash
      else pure none

  -- MI v1: a tuple with all together; `n` is the change under construction. `none` is a block that
  -- was refused.
  unfoldable pub changes_v1 : Option GvarChg → Results → M (Option (List GvarChg))
  unfolding chg_v1 link_chg
  changes_v1 n no_results = pure (some (link_chg n []))
  changes_v1 n (result none (t_const text) rs) = crash
  changes_v1 n (result (some name) (t_const text) rs) =
      if str_eq name (codes "name")
      then (do
        given ← mi_calloc
        ns ←
            (if given
              then changes_v1 (some (record mi_alloc_gvar_chg { name = text })) rs
              else pure none)
        pure (Option.map (link_chg n) ns))
      else (do n' ← chg_v1 name text n; changes_v1 n' rs)
  changes_v1 n (result var _ rs) = changes_v1 n rs

  counted : List GvarChg → ℕ × List GvarChg
  counted ns = (suc (length ns), ns)

  counted_v1 : Option (List GvarChg) → ℕ × List GvarChg
  unfolding counted
  counted_v1 none = (0, [])
  counted_v1 (some ns) = counted ns

  -- The value returned, one more than the number of changes, and `*changed`. After a refused block
  -- `*changed` keeps pointing to what was released; it is empty here.
  unfoldable pub changelist : Option Value → M (ℕ × List GvarChg)
  unfolding changes_v1 changes_v2 counted counted_v1
  changelist none = pure (0, [])
  changelist (some (t_const text)) = pure (counted [])
  changelist (some (t_list rs)) = do ns ← changes_v2 rs; pure (counted ns)
  changelist (some (t_tuple rs)) = do ns ← changes_v1 none rs; pure (counted_v1 ns)

  unfoldable pub mi_res_changelist : Bool → List Wait → Handle → M ((ℕ × List GvarChg) × Handle)
  unfolding mi_res_done_var changelist
  mi_res_changelist running waits h = do
    res ← mi_res_done_var running waits h (codes "changelist")
    ns ← changelist res.0
    pure (ns, res.1)
