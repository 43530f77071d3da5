-- ===== src/Debugger/Wrappers.antt =====
-- The methods of `MIDebugger` that the class itself defines (src/mi_gdb.h): a guard, and one function
-- of the library.
use libmigdb.Base.{ℕ, Bytes, Bool, false, Option, none, List, []}
use libmigdb.World.{M}
use libmigdb.Enums.{GvarFmt}
use libmigdb.Extract.{ℤ, pos}
use libmigdb.Extract.Frames.{Frame}
use libmigdb.Extract.Variables.{Gvar, GvarChg}
use libmigdb.Extract.Children.{Family}
use libmigdb.Extract.Memory.{Memory, no_memory}
use libmigdb.Extract.Assembly.{AsmInsns}
use libmigdb.Command.{Surroundings}
use libmigdb.Command.Misc.{gmi_gdb_version}
use libmigdb.Command.Threads.{gmi_thread_list_ids, gmi_thread_select, gmi_thread_list_all_threads}
use libmigdb.Command.Data.{
  gmi_dir, gmi_read_memory, gmi_data_disassemble_se, gmi_data_disassemble_fl,
}
use libmigdb.Command.Variables.{
  gmi_var_delete, gmi_var_set_format, gmi_var_evaluate_expression, gmi_var_show_format,
  gmi_var_show_attributes, gmi_full_var_create, gmi_var_update, gmi_var_list_children,
}
use libmigdb.Debugger.{Debugger, Settings, if_stopped, if_idle}

module _ (g : Settings) (xs : Surroundings) where
  unfoldable pub add_gvar : Bytes → ℤ → Debugger → M (Option Gvar × Debugger)
  unfolding if_stopped gmi_full_var_create
  add_gvar exp frame d = if_stopped none (λ h. gmi_full_var_create g.libc xs h frame exp) d

  unfoldable pub del_gvar : Gvar → Debugger → M (Bool × Debugger)
  unfolding if_stopped gmi_var_delete
  del_gvar var d = if_stopped false (λ h. gmi_var_delete (xs 0).0 (xs 0).1 h var) d

  unfoldable pub eval_gvar : Gvar → Debugger → M ((Bool × Gvar) × Debugger)
  unfolding if_stopped gmi_var_evaluate_expression
  eval_gvar var d =
      if_stopped (false, var) (λ h. gmi_var_evaluate_expression (xs 0).0 (xs 0).1 h var) d

  unfoldable pub get_child_gvar : Family → Debugger → M ((Bool × Family) × Debugger)
  unfolding if_stopped gmi_var_list_children
  get_child_gvar var d =
      if_stopped (false, var) (λ h. gmi_var_list_children g.libc (xs 0).0 (xs 0).1 h var) d

  unfoldable pub fill_attr : Gvar → Debugger → M ((Bool × Gvar) × Debugger)
  unfolding if_stopped gmi_var_show_attributes
  fill_attr var d =
      if_stopped (false, var) (λ h. gmi_var_show_attributes g.libc (xs 0).0 (xs 0).1 h var) d

  unfoldable pub fill_format : Gvar → Debugger → M ((Bool × Gvar) × Debugger)
  unfolding if_stopped gmi_var_show_format
  fill_format var d =
      if_stopped (false, var) (λ h. gmi_var_show_format g.libc (xs 0).0 (xs 0).1 h var) d

  unfoldable pub set_format_gvar : Gvar → GvarFmt → Debugger → M ((Bool × Gvar) × Debugger)
  unfolding if_stopped gmi_var_set_format
  set_format_gvar var format d =
      if_stopped (false, var) (λ h. gmi_var_set_format (xs 0).0 (xs 0).1 h var format) d

  unfoldable pub list_changed_gvar : Debugger → M ((ℕ × List GvarChg) × Debugger)
  unfolding if_stopped gmi_var_update
  list_changed_gvar d = if_stopped (0, []) (λ h. gmi_var_update g.libc (xs 0).0 (xs 0).1 h none) d

  unfoldable pub version : Debugger → M (Bool × Debugger)
  unfolding if_idle gmi_gdb_version
  version d = if_idle false (gmi_gdb_version (xs 0).0 (xs 0).1) d

  unfoldable pub path_sources : Option Bytes → Debugger → M (Bool × Debugger)
  unfolding if_idle gmi_dir
  path_sources path d = if_idle false (λ h. gmi_dir (xs 0).0 (xs 0).1 h path) d

  -- `room` is how many bytes `dest` can hold.
  unfoldable pub read_memory : Bytes → ℕ → ℕ → Bool → Debugger → M ((Bool × Memory) × Debugger)
  unfolding if_stopped gmi_read_memory
  read_memory exp size room conv_addr d =
      if_stopped (false, no_memory room)
        (λ h. gmi_read_memory g.libc (xs 0).0 (xs 0).1 h exp size room conv_addr) d

  unfoldable pub thread_list_ids : Debugger → M ((ℤ × List ℤ) × Debugger)
  unfolding if_stopped gmi_thread_list_ids
  thread_list_ids d = if_stopped (pos 0, []) (gmi_thread_list_ids g.libc (xs 0).0 (xs 0).1) d

  unfoldable pub thread_list : Debugger → M (List Frame × Debugger)
  unfolding if_stopped gmi_thread_list_all_threads
  thread_list d = if_stopped [] (gmi_thread_list_all_threads g.libc (xs 0).0 (xs 0).1) d

  unfoldable pub thread_select : ℤ → Debugger → M (Option Frame × Debugger)
  unfolding if_stopped gmi_thread_select
  thread_select id d = if_stopped none (λ h. gmi_thread_select g.libc (xs 0).0 (xs 0).1 h id) d

  unfoldable pub disassemble : Bytes → Bytes → ℤ → Debugger → M (List AsmInsns × Debugger)
  unfolding if_stopped gmi_data_disassemble_se
  disassemble start end mode d =
      if_stopped [] (λ h. gmi_data_disassemble_se g.libc (xs 0).0 (xs 0).1 h start end mode) d

  unfoldable pub disassemble_lines : Bytes → ℤ → ℤ → ℤ → Debugger → M (List AsmInsns × Debugger)
  unfolding if_stopped gmi_data_disassemble_fl
  disassemble_lines file line lines mode d =
      if_stopped [] (λ h. gmi_data_disassemble_fl g.libc (xs 0).0 (xs 0).1 h file line lines mode) d
