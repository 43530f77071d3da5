-- ===== src/Debugger/Registers.antt =====
-- The registers as `MIDebugger` gives them (src/mi_gdb.h, src/cpp_int.cc).
pub mod Values
use libmigdb.Base.{
  ℕ, suc, if◌then◌else◌, Bool, true, false, Option, none, some, Bytes, List, [], ◌∷◌,
}
use libmigdb.World.{M, pure, ◌>>=◌}
use libmigdb.Enums.{fm_natural}
use libmigdb.Connect.Handle.{Handle}
use libmigdb.Extract.{ℤ, eq_int}
use libmigdb.Extract.Registers.{ChgReg}
use libmigdb.Command.{Surroundings}
use libmigdb.Command.Data.{
  gmi_data_list_register_names, gmi_data_list_register_names_l, gmi_data_list_changed_registers,
  gmi_data_list_register_values, gmi_data_list_all_register_values,
}
use libmigdb.Debugger.{Debugger, Settings, if_stopped, if_selected}

-- The loop that looks for the changed register of that number, whose value is taken out.
unfoldable pub take_value : ℤ → List ChgReg → Option (Option Bytes × List ChgReg)
take_value n [] = none
take_value n (c ∷ chg) =
    let later : Option (Option Bytes × List ChgReg) = elim (take_value n chg) [
      | none ↦ none
      | some (val, chg') ↦ some (val, c ∷ chg')
    ] in
    if eq_int c.reg n then some (c.val, record c { val = none } ∷ chg) else later

-- After the search for a register: `next` goes on with the others.
unfoldable pub updated_reg :
    (List ChgReg → ℕ × List ChgReg)
    → List ChgReg
    → ChgReg
    → Option (Option Bytes × List ChgReg)
    → ℕ × List ChgReg
updated_reg next chg r none = ((next chg).0, record r { updated = false } ∷ (next chg).1)
updated_reg next chg r (some (val, chg')) =
    (suc (next chg').0, record r { updated = true; val = val } ∷ (next chg').1)

-- How many are updated, and the registers.
unfoldable pub update : List ChgReg → List ChgReg → ℕ × List ChgReg
unfolding take_value updated_reg
update chg [] = (0, [])
update chg (r ∷ regs) =
    let next : List ChgReg → ℕ × List ChgReg = λ c. update c regs in
    updated_reg next chg r (take_value r.reg chg)

-- Without changed registers the list is left as it is.
unfoldable pub updated_by : List ChgReg → List ChgReg → ℕ × List ChgReg
unfolding update
updated_by [] regs = (0, regs)
updated_by (c ∷ chg) regs = update (c ∷ chg) regs

module _ (g : Settings) (xs : Surroundings) where
  unfoldable pub get_register_names : Debugger → M ((List ChgReg × Option ℕ) × Debugger)
  unfolding if_selected gmi_data_list_register_names
  get_register_names d = if_selected ([], none) (gmi_data_list_register_names (xs 0).0 (xs 0).1) d

  unfoldable pub get_register_names_l : List ChgReg → Debugger → M ((Bool × List ChgReg) × Debugger)
  unfolding if_selected gmi_data_list_register_names_l
  get_register_names_l chg d =
      if_selected (false, chg) (λ h. gmi_data_list_register_names_l g.libc (xs 0).0 (xs 0).1 h chg)
        d

  unfoldable pub get_register_values : List ChgReg → Debugger → M ((Bool × List ChgReg) × Debugger)
  unfolding if_stopped gmi_data_list_register_values
  get_register_values chg d =
      if_stopped (false, chg)
        (λ h. gmi_data_list_register_values g.libc (xs 0).0 (xs 0).1 h fm_natural chg) d

  unfoldable pub get_all_register_values : Debugger → M ((List ChgReg × Option ℕ) × Debugger)
  unfolding if_stopped gmi_data_list_all_register_values
  get_all_register_values d =
      if_stopped ([], none)
        (λ h. gmi_data_list_all_register_values g.libc (xs 0).0 (xs 0).1 h fm_natural) d

  -- Null, if the values are refused.
  unfoldable pub with_values : List ChgReg × Handle → M (List ChgReg × Handle)
  unfolding gmi_data_list_register_values
  with_values ([], h) = pure ([], h)
  with_values (c ∷ chg, h) = do
    r ← gmi_data_list_register_values g.libc (xs 1).0 (xs 1).1 h fm_natural (c ∷ chg)
    pure (if (r.0).0 then (r.0).1 else [], r.1)

  unfoldable pub get_changed_registers : Debugger → M (List ChgReg × Debugger)
  unfolding if_stopped gmi_data_list_changed_registers with_values
  get_changed_registers d =
      if_stopped []
        (λ h. do r ← gmi_data_list_changed_registers g.libc (xs 0).0 (xs 0).1 h; with_values r) d

  unfoldable pub update_registers : List ChgReg → Debugger → M ((ℕ × List ChgReg) × Debugger)
  unfolding get_changed_registers updated_by
  update_registers regs d = do r ← get_changed_registers d; pure (updated_by r.0 regs, r.1)
