-- ===== src/Debugger/Inspect.antt =====
-- Expressions, variables, registers, threads and settings of gdb (src/cpp_int.cc, src/mi_gdb.h): the
-- methods of `MIDebugger` that leave its state as it is.
use libmigdb.Base.{
  ◌+◌, Bytes, codes, if◌then◌else◌, Bool, true, false, ◌||◌, Option, none, some, List, [], ◌∷◌,
  ◌++◌, strip,
}
use libmigdb.World.{M, ret, pure, sys_alloc, set_error, mi_ok, ◌>>=◌, ◌>>◌}
use libmigdb.Connect.Handle.{Handle}
use libmigdb.Query.{mi_res_simple_done}
use libmigdb.Extract.Variables.{Gvar}
use libmigdb.Command.{mi_send, Surroundings}
use libmigdb.Command.Misc.{gmi_gdb_show}
use libmigdb.Command.Data.{gmi_data_evaluate_expression}
use libmigdb.Command.Variables.{gmi_var_assign, gmi_var_evaluate_expression, gmi_var_info_type}
use libmigdb.Debugger.{
  Debugger, Settings, Endian, en_unknown, en_little, en_big, Arch, ar_unknown, ar_ia32, ar_sparc,
  ar_pic14, ar_avr, is_stopped, is_target_specified, using, if_stopped, if_idle,
}

-- `strdup`.
unfoldable pub duplicate : Option Bytes → M (Option Bytes)
duplicate none = pure none
duplicate (some s) = do given ← sys_alloc; pure (if given then some s else none)

-- Without a result, the error of gdb is the result.
unfoldable pub or_gdb_error : Option Bytes → M (Option Bytes)
unfolding duplicate
or_gdb_error (some res) w = ret (some res) w
or_gdb_error none w = duplicate w.error_from_gdb w

-- `strstr(s,t)!=NULL`.
unfoldable pub strstr : Bytes → Bytes → Bool
unfolding strip
strstr [] t = elim (strip t []) [ none ↦ false | some rest ↦ true ]
strstr (c ∷ s) t =
    let later = strstr s t in elim (strip t (c ∷ s)) [ none ↦ later | some rest ↦ true ]

unfoldable pub endian_of : Bytes → Endian
unfolding strstr
endian_of s =
    if strstr s (codes "big")
    then en_big
    else if strstr s (codes "little")
    then en_little
    else en_unknown

unfoldable pub arch_of : Bytes → Arch
unfolding strstr
arch_of s =
    if strstr s (codes "i386")
    then ar_ia32
    else if strstr s (codes "sparc")
    then ar_sparc
    else if strstr s (codes "pic14")
    then ar_pic14
    else if strstr s (codes "avr")
    then ar_avr
    else ar_unknown

-- `!field && !f(h,var)`: the variable is asked for if the field is null.
unfoldable pub unless :
    Option Bytes
    → Gvar
    → (Handle → M ((Bool × Gvar) × Handle))
    → Debugger
    → M ((Bool × Gvar) × Debugger)
unfolding using
unless none v f d = using d f
unless (some field) v f d = pure ((true, v), d)

module _ (g : Settings) (xs : Surroundings) where
  unfoldable pub eval_expression : Bytes → Debugger → M (Option Bytes × Debugger)
  unfolding if_idle gmi_data_evaluate_expression or_gdb_error
  eval_expression exp d =
      if_idle none
        (λ h. do
          set_error mi_ok
          r ← gmi_data_evaluate_expression (xs 0).0 (xs 0).1 h exp
          res ← or_gdb_error r.0
          pure (res, r.1))
        d

  unfoldable pub modify_expression : Bytes → Bytes → Debugger → M (Option Bytes × Debugger)
  unfolding if_idle gmi_data_evaluate_expression or_gdb_error
  modify_expression exp new_val d =
      if_idle none
        (λ h. do
          r ← gmi_data_evaluate_expression (xs 0).0 (xs 0).1 h (exp ++ codes "=" ++ new_val)
          res ← or_gdb_error r.0
          pure (res, r.1))
        d

  unfoldable pub send : Bytes → Debugger → M (Bool × Debugger)
  unfolding if_idle mi_send mi_res_simple_done
  send text d =
      if_idle false
        (λ h. do h' ← mi_send h (text ++ codes "\n"); mi_res_simple_done (xs 0).0 (xs 0).1 h') d

  unfoldable pub type_known : Gvar → Debugger → M ((Bool × Gvar) × Debugger)
  unfolding unless gmi_var_info_type
  type_known v d = unless v.type v (λ h. gmi_var_info_type g.libc (xs 0).0 (xs 0).1 h v) d

  unfoldable pub value_known : Gvar → Debugger → M ((Bool × Gvar) × Debugger)
  unfolding unless gmi_var_evaluate_expression
  value_known v d = unless v.value v (λ h. gmi_var_evaluate_expression (xs 1).0 (xs 1).1 h v) d

  unfoldable pub empty_type : Bool × Gvar → M (Bool × Gvar)
  unfolding duplicate
  empty_type (true, v) = pure (true, v)
  empty_type (false, v) = do s ← duplicate (some []); pure (false, record v { type = s })

  unfoldable pub empty_value : Bool → Bool × Gvar → M (Bool × Gvar)
  unfolding duplicate
  empty_value ok (true, v) = pure (ok, v)
  empty_value ok (false, v) = do s ← duplicate (some []); pure (false, record v { value = s })

  -- There is no look at the state.
  unfoldable pub fill_one_type_val : Option Gvar → Debugger → M ((Bool × Option Gvar) × Debugger)
  unfolding type_known value_known empty_type empty_value
  fill_one_type_val none d = pure ((false, none), d)
  fill_one_type_val (some v) d = do
    r ← type_known v d
    t ← empty_type r.0
    q ← value_known t.1 r.1
    u ← empty_value t.0 q.0
    pure ((u.0, some u.1), q.1)

-- The chain of variables, up to the first that cannot be filled.
unfoldable pub fill_type_val :
    Settings → Surroundings → List Gvar → Debugger → M ((Bool × List Gvar) × Debugger)
unfolding type_known value_known
fill_type_val g xs [] d = pure ((true, []), d)
fill_type_val g xs (v ∷ vs) d =
    let next = fill_type_val g (λ i. xs (2 + i)) vs in
    (do
      r ← type_known g xs v d
      q ← (if (r.0).0 then value_known g xs (r.0).1 r.1 else pure r)
      p ← (if (q.0).0 then next q.1 else pure ((false, vs), q.1))
      pure (((p.0).0, (q.0).1 ∷ (p.0).1), p.1))

module _ (g : Settings) (xs : Surroundings) where
  unfoldable pub assign_gvar : Gvar → Bytes → Debugger → M ((Bool × Gvar) × Debugger)
  unfolding if_stopped gmi_var_assign
  assign_gvar var exp d =
      if_stopped (false, var) (λ h. gmi_var_assign (xs 0).0 (xs 0).1 h var exp) d

  -- `h->catch_console=1; ... h->catch_console=0;`
  unfoldable pub catching : Handle → Handle
  catching h = record h { catch_console = 1; catched_console = none }

  unfoldable pub console_answer : Option Bytes × Handle → Option Bytes × Handle
  console_answer (some res, h) = (some res, record h { catch_console = 0 })
  console_answer (none, h) =
      (h.catched_console, record h { catch_console = 0; catched_console = none })

  unfoldable pub show : Bytes → Debugger → M (Option Bytes × Debugger)
  unfolding if_idle catching console_answer gmi_gdb_show
  show var d =
      if_idle none
        (λ h. do r ← gmi_gdb_show (xs 0).0 (xs 0).1 (catching h) var; pure (console_answer r)) d

  unfoldable pub shown_endian : Option Bytes × Debugger → Endian × Debugger
  unfolding endian_of
  shown_endian (none, d) = (d.target_endian, d)
  shown_endian (some s, d) = (endian_of s, record d { target_endian = endian_of s })

  unfoldable pub known_endian : Endian → Debugger → M (Endian × Debugger)
  unfolding show shown_endian
  known_endian en_unknown d =
      if is_stopped d.state || is_target_specified d.state
      then (do r ← show (codes "endian") d; pure (shown_endian r))
      else pure (en_unknown, d)
  known_endian e d = pure (e, d)

  unfoldable pub get_target_endian : Debugger → M (Endian × Debugger)
  unfolding known_endian
  get_target_endian d = known_endian d.target_endian d

  unfoldable pub shown_arch : Option Bytes × Debugger → Arch × Debugger
  unfolding arch_of
  shown_arch (none, d) = (d.target_arch, d)
  shown_arch (some s, d) = (arch_of s, record d { target_arch = arch_of s })

  unfoldable pub known_arch : Arch → Debugger → M (Arch × Debugger)
  unfolding show shown_arch
  known_arch ar_unknown d =
      if is_stopped d.state || is_target_specified d.state
      then (do r ← show (codes "architecture") d; pure (shown_arch r))
      else pure (ar_unknown, d)
  known_arch a d = pure (a, d)

  unfoldable pub get_target_architecture : Debugger → M (Arch × Debugger)
  unfolding known_arch
  get_target_architecture d = known_arch d.target_arch d
