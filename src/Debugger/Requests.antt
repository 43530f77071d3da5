-- ===== src/Debugger/Requests.antt =====
-- The methods of `MIDebugger` as requests to one object, and a run of several requests.
use libmigdb.Base.{ℕ, Bytes, Bool, Option, List, [], ◌∷◌}
use libmigdb.World.{M, pure, ◌>>=◌}
use libmigdb.Enums.{GvarFmt}
use libmigdb.Connect.Handle.{Handle}
use libmigdb.Extract.{ℤ}
use libmigdb.Extract.Breakpoints.{Bkpt, Wp, WpMode}
use libmigdb.Extract.Variables.{Gvar}
use libmigdb.Extract.Children.{Family}
use libmigdb.Extract.Registers.{ChgReg}
use libmigdb.Command.{Surroundings}
use libmigdb.Debugger.Points.{
  breakpoint_line, breakpoint, breakpoint_again, breakpoint_full, break_delete, break_after,
  watchpoint, watch_delete,
}
use libmigdb.Debugger.Running.{run, stop, poll, continue, run_or_continue, kill}
use libmigdb.Debugger.Target.{
  connect, disconnect, select_target_x11, select_target_linux, select_target_remote,
  select_target_pid, target_unselect, get_error_number_st,
}
use libmigdb.Debugger.Walk.{
  run_to_main, step_over, trace_into, go_to, go_to_addr, finish_fun, return_now, call_stack,
}
use libmigdb.Debugger.Inspect.{
  eval_expression, modify_expression, send, fill_one_type_val, fill_type_val, assign_gvar, show,
  get_target_endian, get_target_architecture,
}
use libmigdb.Debugger.Wrappers.{
  add_gvar, del_gvar, eval_gvar, get_child_gvar, fill_attr, fill_format, set_format_gvar,
  list_changed_gvar, version, path_sources, read_memory, thread_list_ids, thread_list,
  thread_select, disassemble, disassemble_lines,
}
use libmigdb.Debugger.Registers.{
  get_register_names, get_register_names_l, get_register_values, get_all_register_values,
  get_changed_registers, update_registers,
}
use libmigdb.Debugger.Callbacks.{
  set_console_cb, set_target_cb, set_log_cb, set_async_cb, set_to_gdb_cb, set_from_gdb_cb,
  set_time_out_cb, set_time_out, force_mi_version,
}
use libmigdb.Debugger.{Debugger, Settings}

-- A method with its arguments. `connect` has what `mi_connect_local` returns, and the two methods that
-- open a terminal have its name.
pub data Request : Type 0 where
  call_connect : Option Handle → Request
  call_disconnect : Request
  call_select_target_x11 call_select_target_linux :
      Option Bytes → Bytes → Option Bytes → Option Bytes → Request
  call_select_target_remote : Bytes → Bytes → Option Bytes → Bool → Request
  call_select_target_pid : Bytes → ℤ → Request
  call_target_unselect call_run call_stop call_poll call_continue call_run_or_continue call_kill
        call_run_to_main call_finish_fun :
      Request
  call_step_over call_trace_into : Bool → Request
  call_go_to : Bytes → ℤ → Request
  call_go_to_addr : ℕ → Request
  call_get_error_number_st call_return_now : Request
  call_breakpoint_line : Bytes → ℤ → Request
  call_breakpoint : Bytes → Bool → Option Bytes → ℤ → ℤ → Bool → Request
  call_breakpoint_again : Bkpt → Request
  call_breakpoint_full : Bytes → ℤ → Bool → Option Bytes → ℤ → ℤ → Bool → Request
  call_break_delete : Option Bkpt → Request
  call_break_after : Bkpt → Request
  call_watchpoint : WpMode → Bytes → Request
  call_watch_delete : Option Wp → Request
  call_call_stack : Bool → Request
  call_eval_expression call_send call_show : Bytes → Request
  call_modify_expression : Bytes → Bytes → Request
  call_fill_one_type_val : Option Gvar → Request
  call_fill_type_val : List Gvar → Request
  call_assign_gvar : Gvar → Bytes → Request
  call_add_gvar : Bytes → ℤ → Request
  call_del_gvar call_eval_gvar call_fill_attr call_fill_format : Gvar → Request
  call_get_child_gvar : Family → Request
  call_set_format_gvar : Gvar → GvarFmt → Request
  call_path_sources : Option Bytes → Request
  call_read_memory : Bytes → ℕ → ℕ → Bool → Request
  call_thread_select : ℤ → Request
  call_disassemble : Bytes → Bytes → ℤ → Request
  call_disassemble_lines : Bytes → ℤ → ℤ → ℤ → Request
  call_get_register_names_l call_get_register_values call_update_registers : List ChgReg → Request
  call_get_target_endian call_get_target_architecture call_list_changed_gvar call_version : Request
  call_thread_list_ids call_thread_list : Request
  call_get_register_names call_get_all_register_values call_get_changed_registers : Request
  call_set_console_cb call_set_target_cb call_set_log_cb call_set_async_cb : Bool → Request
  call_set_to_gdb_cb call_set_from_gdb_cb call_set_time_out_cb : Bool → Request
  call_set_time_out : ℤ → Request
  call_force_mi_version : ℕ → ℕ → ℕ → Request

-- The value returned is left out.
unfoldable pub forget : {A : Type 0} → (Debugger → M (A × Debugger)) → Debugger → M Debugger
forget f d = do r ← f d; pure r.1

unfoldable pub perform : Settings → Surroundings → Request → Debugger → M Debugger
unfolding forget
perform g xs (call_connect a) d = forget (connect a) d
perform g xs call_disconnect d = forget (disconnect xs) d
perform g xs (call_select_target_x11 a b c e) d = forget (select_target_x11 g xs a b c e) d
perform g xs (call_select_target_linux a b c e) d = forget (select_target_linux g xs a b c e) d
perform g xs (call_select_target_remote a b c e) d = forget (select_target_remote g xs a b c e) d
perform g xs (call_select_target_pid a b) d = forget (select_target_pid g xs a b) d
perform g xs call_target_unselect d = forget (target_unselect xs) d
perform g xs call_run d = forget (run xs) d
perform g xs call_stop d = forget (stop) d
perform g xs call_poll d = forget (poll g) d
perform g xs call_continue d = forget (continue xs) d
perform g xs call_run_or_continue d = forget (run_or_continue xs) d
perform g xs call_kill d = forget (kill xs) d
perform g xs call_run_to_main d = forget (run_to_main g xs) d
perform g xs call_finish_fun d = forget (finish_fun g xs) d
perform g xs (call_step_over a) d = forget (step_over g xs a) d
perform g xs (call_trace_into a) d = forget (trace_into g xs a) d
perform g xs (call_go_to a b) d = forget (go_to g xs a b) d
perform g xs (call_go_to_addr a) d = forget (go_to_addr g xs a) d
perform g xs call_get_error_number_st d = forget (get_error_number_st xs) d
perform g xs call_return_now d = forget (return_now g xs) d
perform g xs (call_breakpoint_line a b) d = forget (breakpoint_line g xs a b) d
perform g xs (call_breakpoint a b c e f i) d = forget (breakpoint g xs a b c e f i) d
perform g xs (call_breakpoint_again a) d = forget (breakpoint_again g xs a) d
perform g xs (call_breakpoint_full a b c e f i j) d = forget (breakpoint_full g xs a b c e f i j) d
perform g xs (call_break_delete a) d = forget (break_delete g xs a) d
perform g xs (call_break_after a) d = forget (break_after g xs a) d
perform g xs (call_watchpoint a b) d = forget (watchpoint g xs a b) d
perform g xs (call_watch_delete a) d = forget (watch_delete g xs a) d
perform g xs (call_call_stack a) d = forget (call_stack g xs a) d
perform g xs (call_eval_expression a) d = forget (eval_expression g xs a) d
perform g xs (call_send a) d = forget (send g xs a) d
perform g xs (call_show a) d = forget (show g xs a) d
perform g xs (call_modify_expression a b) d = forget (modify_expression g xs a b) d
perform g xs (call_fill_one_type_val a) d = forget (fill_one_type_val g xs a) d
perform g xs (call_fill_type_val a) d = forget (fill_type_val g xs a) d
perform g xs (call_assign_gvar a b) d = forget (assign_gvar g xs a b) d
perform g xs (call_add_gvar a b) d = forget (add_gvar g xs a b) d
perform g xs (call_del_gvar a) d = forget (del_gvar g xs a) d
perform g xs (call_eval_gvar a) d = forget (eval_gvar g xs a) d
perform g xs (call_fill_attr a) d = forget (fill_attr g xs a) d
perform g xs (call_fill_format a) d = forget (fill_format g xs a) d
perform g xs (call_get_child_gvar a) d = forget (get_child_gvar g xs a) d
perform g xs (call_set_format_gvar a b) d = forget (set_format_gvar g xs a b) d
perform g xs (call_path_sources a) d = forget (path_sources g xs a) d
perform g xs (call_read_memory a b c e) d = forget (read_memory g xs a b c e) d
perform g xs (call_thread_select a) d = forget (thread_select g xs a) d
perform g xs (call_disassemble a b c) d = forget (disassemble g xs a b c) d
perform g xs (call_disassemble_lines a b c e) d = forget (disassemble_lines g xs a b c e) d
perform g xs (call_get_register_names_l a) d = forget (get_register_names_l g xs a) d
perform g xs (call_get_register_values a) d = forget (get_register_values g xs a) d
perform g xs (call_update_registers a) d = forget (update_registers g xs a) d
perform g xs call_get_target_endian d = forget (get_target_endian g xs) d
perform g xs call_get_target_architecture d = forget (get_target_architecture g xs) d
perform g xs call_list_changed_gvar d = forget (list_changed_gvar g xs) d
perform g xs call_version d = forget (version g xs) d
perform g xs call_thread_list_ids d = forget (thread_list_ids g xs) d
perform g xs call_thread_list d = forget (thread_list g xs) d
perform g xs call_get_register_names d = forget (get_register_names g xs) d
perform g xs call_get_all_register_values d = forget (get_all_register_values g xs) d
perform g xs call_get_changed_registers d = forget (get_changed_registers g xs) d
perform g xs (call_set_console_cb a) d = forget (set_console_cb a) d
perform g xs (call_set_target_cb a) d = forget (set_target_cb a) d
perform g xs (call_set_log_cb a) d = forget (set_log_cb a) d
perform g xs (call_set_async_cb a) d = forget (set_async_cb a) d
perform g xs (call_set_to_gdb_cb a) d = forget (set_to_gdb_cb a) d
perform g xs (call_set_from_gdb_cb a) d = forget (set_from_gdb_cb a) d
perform g xs (call_set_time_out_cb a) d = forget (set_time_out_cb a) d
perform g xs (call_set_time_out a) d = forget (set_time_out a) d
perform g xs (call_force_mi_version a b c) d = forget (force_mi_version a b c) d

-- Each request with what its surroundings answer.
unfoldable pub perform_all : Settings → List (Surroundings × Request) → Debugger → M Debugger
unfolding perform
perform_all g [] d = pure d
perform_all g (q ∷ qs) d = let next = perform_all g qs in (do d' ← perform g q.0 q.1 d; next d')
