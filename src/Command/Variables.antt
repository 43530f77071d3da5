-- ===== src/Command/Variables.antt =====
-- Variable objects (src/var_obj.c). A null name is read by `printf`.
use libmigdb.Base.{
  ℕ, suc, leb, Bytes, codes, if◌then◌else◌, Bool, true, false, Option, none, some, List, [], ◌∷◌,
}
use libmigdb.World.{M, pure, ◌>>=◌}
use libmigdb.Enums.{GvarFmt, mi_format_enum_to_str}
use libmigdb.Connect.Handle.{Handle}
use libmigdb.Connect.Callbacks.{mi_version2u}
use libmigdb.Connect.Wait.{Wait}
use libmigdb.Query.{mi_res_simple_done, mi_res_value}
use libmigdb.Extract.{ℤ, Libc, required}
use libmigdb.Command.{send_line, command, Surroundings}
use libmigdb.Extract.Variables.{Gvar, GvarChg, mi_res_gvar, mi_res_changelist}
use libmigdb.Extract.Children.{Family, mi_res_children}
use libmigdb.Command.Breakpoint.{is_given}

unfoldable pub mi_var_delete : Handle → Bytes → M Handle
unfolding send_line
mi_var_delete h name = send_line h (codes "-var-delete " ∷ name ∷ codes "\n" ∷ [])

unfoldable pub mi_var_set_format : Handle → Bytes → Bytes → M Handle
unfolding send_line
mi_var_set_format h name format =
    send_line h (codes "-var-set-format \"" ∷ name ∷ codes "\" " ∷ format ∷ codes "\n" ∷ [])

unfoldable pub mi_var_show_format : Handle → Bytes → M Handle
unfolding send_line
mi_var_show_format h name = send_line h (codes "-var-show-format \"" ∷ name ∷ codes "\"\n" ∷ [])

unfoldable pub mi_var_info_num_children : Handle → Bytes → M Handle
unfolding send_line
mi_var_info_num_children h name =
    send_line h (codes "-var-info-num-children \"" ∷ name ∷ codes "\"\n" ∷ [])

unfoldable pub mi_var_info_type : Handle → Bytes → M Handle
unfolding send_line
mi_var_info_type h name = send_line h (codes "-var-info-type \"" ∷ name ∷ codes "\"\n" ∷ [])

unfoldable pub mi_var_info_expression : Handle → Bytes → M Handle
unfolding send_line
mi_var_info_expression h name =
    send_line h (codes "-var-info-expression \"" ∷ name ∷ codes "\"\n" ∷ [])

unfoldable pub mi_var_show_attributes : Handle → Bytes → M Handle
unfolding send_line
mi_var_show_attributes h name =
    send_line h (codes "-var-show-attributes \"" ∷ name ∷ codes "\"\n" ∷ [])

unfoldable pub mi_var_evaluate_expression : Handle → Bytes → M Handle
unfolding send_line
mi_var_evaluate_expression h name =
    send_line h (codes "-var-evaluate-expression \"" ∷ name ∷ codes "\"\n" ∷ [])

unfoldable pub mi_var_update : Handle → Option Bytes → M Handle
unfolding send_line
mi_var_update h (some name) = send_line h (codes "-var-update " ∷ name ∷ codes "\n" ∷ [])
mi_var_update h none = send_line h (codes "-var-update *\n" ∷ [])

unfoldable pub mi_var_assign : Handle → Bytes → Bytes → M Handle
unfolding send_line
mi_var_assign h name expression =
    send_line h (codes "-var-assign \"" ∷ name ∷ codes "\" \"" ∷ expression ∷ codes "\"\n" ∷ [])

unfoldable pub mi_var_list_children : Handle → Bytes → M Handle
unfolding send_line
mi_var_list_children h name =
    if leb (mi_version2u 2 0 0) h.version
    then send_line h (codes "-var-list-children --all-values \"" ∷ name ∷ codes "\"\n" ∷ [])
    else send_line h (codes "-var-list-children \"" ∷ name ∷ codes "\"\n" ∷ [])

unfoldable pub gmi_var_delete : Bool → List Wait → Handle → Gvar → M (Bool × Handle)
unfolding command mi_var_delete mi_res_simple_done
gmi_var_delete running waits h v =
    required v.name (λ name. command (mi_var_delete h name) (mi_res_simple_done running waits))

set_format : Gvar → GvarFmt → Bool → Gvar
set_format v fmt done = if done then record v { format = fmt } else v

-- The value returned, and the variable after the call.
unfoldable pub gmi_var_set_format :
    Bool → List Wait → Handle → Gvar → GvarFmt → M ((Bool × Gvar) × Handle)
unfolding command mi_var_set_format mi_res_simple_done set_format
gmi_var_set_format running waits h v fmt = required v.name (λ name. do
  r ←
      command (mi_var_set_format h name (mi_format_enum_to_str fmt))
        (mi_res_simple_done running waits)
  pure ((r.0, set_format v fmt r.0), r.1))

-- `res!=NULL`, with the new text in the field `value`.
set_value : Gvar → Option Bytes → Bool × Gvar
set_value v none = (false, v)
set_value v (some s) = (true, record v { value = some s })

unfoldable pub gmi_var_assign :
    Bool → List Wait → Handle → Gvar → Bytes → M ((Bool × Gvar) × Handle)
unfolding command mi_var_assign mi_res_value set_value
gmi_var_assign running waits h v expression = required v.name (λ name. do
  r ← command (mi_var_assign h name expression) (mi_res_value running waits)
  pure (set_value v r.0, r.1))

unfoldable pub gmi_var_evaluate_expression :
    Bool → List Wait → Handle → Gvar → M ((Bool × Gvar) × Handle)
unfolding command mi_var_evaluate_expression mi_res_value set_value
gmi_var_evaluate_expression running waits h v = required v.name (λ name. do
  r ← command (mi_var_evaluate_expression h name) (mi_res_value running waits)
  pure (set_value v r.0, r.1))

-- `mi_res_gvar(h,var,NULL)!=NULL`: the variable is filled in place.
filled : Gvar → Option Gvar → Bool × Gvar
filled v none = (false, v)
filled v (some v') = (true, v')

-- The name that `-var-update` gets.
updated_name : Option Gvar → Option Bytes
updated_name none = none
updated_name (some v) = v.name

module _ (libc : Libc) where
  -- A null name lets gdb choose; a `frame` below 0 is the current one.
  unfoldable pub mi_var_create : Handle → Option Bytes → ℤ → Bytes → M Handle
  unfolding send_line
  mi_var_create h name frame exp = send_line h (
      codes "-var-create "
      ∷ elim name [ some n ↦ n | none ↦ codes "-" ]
      ∷ codes " "
      ∷ (if is_given frame then libc.print_int frame else codes "*")
      ∷ codes " "
      ∷ exp
      ∷ codes "\n"
      ∷ [])

  unfoldable pub gmi_var_create_nm :
      Bool → List Wait → Handle → Option Bytes → ℤ → Bytes → M (Option Gvar × Handle)
  unfolding command mi_var_create mi_res_gvar
  gmi_var_create_nm running waits h name frame exp =
      command (mi_var_create h name frame exp)
        (λ h'. mi_res_gvar libc running waits h' none (some exp))

  unfoldable pub gmi_var_create : Bool → List Wait → Handle → ℤ → Bytes → M (Option Gvar × Handle)
  unfolding gmi_var_create_nm
  gmi_var_create running waits h frame exp = gmi_var_create_nm running waits h none frame exp

  -- A question about a variable, whose answer fills its fields.
  unfoldable pub asked :
      (Handle → Bytes → M Handle) → Bool → List Wait → Handle → Gvar → M ((Bool × Gvar) × Handle)
  unfolding command mi_res_gvar filled
  asked ask running waits h v = required v.name (λ name. do
    r ← command (ask h name) (λ h'. mi_res_gvar libc running waits h' (some v) none)
    pure (filled v r.0, r.1))

  unfoldable pub gmi_var_show_format : Bool → List Wait → Handle → Gvar → M ((Bool × Gvar) × Handle)
  unfolding asked mi_var_show_format
  gmi_var_show_format = asked mi_var_show_format

  unfoldable pub gmi_var_info_num_children :
      Bool → List Wait → Handle → Gvar → M ((Bool × Gvar) × Handle)
  unfolding asked mi_var_info_num_children
  gmi_var_info_num_children = asked mi_var_info_num_children

  unfoldable pub gmi_var_info_type : Bool → List Wait → Handle → Gvar → M ((Bool × Gvar) × Handle)
  unfolding asked mi_var_info_type
  gmi_var_info_type = asked mi_var_info_type

  unfoldable pub gmi_var_info_expression :
      Bool → List Wait → Handle → Gvar → M ((Bool × Gvar) × Handle)
  unfolding asked mi_var_info_expression
  gmi_var_info_expression = asked mi_var_info_expression

  unfoldable pub gmi_var_show_attributes :
      Bool → List Wait → Handle → Gvar → M ((Bool × Gvar) × Handle)
  unfolding asked mi_var_show_attributes
  gmi_var_show_attributes = asked mi_var_show_attributes

  -- What the two questions answer is not looked at.
  created : Surroundings → Option Gvar × Handle → M (Option Gvar × Handle)
  unfolding gmi_var_info_expression gmi_var_show_attributes
  created xs (none, h) = pure (none, h)
  created xs (some v, h) = do
    r ← gmi_var_info_expression (xs 0).0 (xs 0).1 h v
    q ← gmi_var_show_attributes (xs 1).0 (xs 1).1 r.1 (r.0).1
    pure (some (q.0).1, q.1)

  unfoldable pub gmi_full_var_create : Surroundings → Handle → ℤ → Bytes → M (Option Gvar × Handle)
  unfolding gmi_var_create_nm created
  gmi_full_var_create xs h frame exp = do
    r ← gmi_var_create_nm (xs 0).0 (xs 0).1 h none frame exp
    created (λ n. xs (suc n)) r

  unfoldable pub gmi_var_update :
      Bool → List Wait → Handle → Option Gvar → M ((ℕ × List GvarChg) × Handle)
  unfolding command mi_var_update updated_name mi_res_changelist
  gmi_var_update running waits h v =
      command (mi_var_update h (updated_name v)) (mi_res_changelist libc running waits)

  unfoldable pub gmi_var_list_children :
      Bool → List Wait → Handle → Family → M ((Bool × Family) × Handle)
  unfolding command mi_var_list_children mi_res_children
  gmi_var_list_children running waits h f = required f.var.name (λ name.
      command (mi_var_list_children h name) (λ h'. mi_res_children libc running waits h' f))
