-- ===== src/Debugger/Steps/Perform.antt =====
-- Every method of `MIDebugger` as a transition, and runs of methods.
use libmigdb.Base.{Option, Bool, true, false, refl, List, [], ◌∷◌, ◌≡◌}
use libmigdb.World.{World, Outcome, ret, continue}
use libmigdb.World.After.{After, returns, After-continue, After-weaken}
use libmigdb.Command.{Surroundings}
use libmigdb.Debugger.Steps.Documented.{IsMove, Step-IsMove}
use libmigdb.Debugger.{State, Mode, disconnected, Debugger, Settings}
use libmigdb.Debugger.Callbacks.{
  force_mi_version, set_async_cb, set_console_cb, set_from_gdb_cb, set_log_cb, set_target_cb,
  set_time_out_cb, set_time_out, set_to_gdb_cb,
}
use libmigdb.Debugger.Inspect.{assign_gvar, eval_expression, modify_expression, send}
use libmigdb.Debugger.Points.{
  break_after, breakpoint, breakpoint_again, breakpoint_full, breakpoint_line, watchpoint,
}
use libmigdb.Debugger.Registers.{
  get_all_register_values, get_changed_registers, get_register_names, get_register_names_l,
  get_register_values,
}
use libmigdb.Debugger.Walk.{call_stack, return_now}
use libmigdb.Debugger.Wrappers.{
  add_gvar, del_gvar, disassemble, disassemble_lines, eval_gvar, fill_attr, fill_format,
  get_child_gvar, list_changed_gvar, path_sources, read_memory, set_format_gvar, thread_list,
  thread_list_ids, thread_select, version,
}
use libmigdb.Debugger.Requests.{
  Request, forget, perform, perform_all, call_add_gvar, call_assign_gvar, call_break_after,
  call_break_delete, call_breakpoint, call_breakpoint_again, call_breakpoint_full,
  call_breakpoint_line, call_call_stack, call_connect, call_continue, call_del_gvar,
  call_disassemble, call_disassemble_lines, call_disconnect, call_eval_expression, call_eval_gvar,
  call_fill_attr, call_fill_format, call_fill_one_type_val, call_fill_type_val, call_finish_fun,
  call_force_mi_version, call_get_all_register_values, call_get_changed_registers,
  call_get_child_gvar, call_get_error_number_st, call_get_register_names, call_get_register_names_l,
  call_get_register_values, call_get_target_architecture, call_get_target_endian, call_go_to,
  call_go_to_addr, call_kill, call_list_changed_gvar, call_modify_expression, call_path_sources,
  call_poll, call_read_memory, call_return_now, call_run, call_run_or_continue, call_run_to_main,
  call_select_target_linux, call_select_target_pid, call_select_target_remote,
  call_select_target_x11, call_send, call_set_async_cb, call_set_console_cb, call_set_format_gvar,
  call_set_from_gdb_cb, call_set_log_cb, call_set_target_cb, call_set_time_out_cb,
  call_set_time_out, call_set_to_gdb_cb, call_show, call_step_over, call_stop, call_target_unselect,
  call_thread_list, call_thread_list_ids, call_thread_select, call_trace_into,
  call_update_registers, call_version, call_watch_delete, call_watchpoint,
}
use libmigdb.Debugger.Steps.{
  Kind, Step, IsConsistent, Follows, AfterMethod, if_stopped-Follows, if_selected-Follows,
  if_idle-Follows, connecting, disconnecting, selecting, attaching, unselecting, starts, resumes,
  going, polling, killing, giving_up, looking, stays, connects, runs, continues, goes, goes_on,
  hears_stop, hears_exit, hears_end, gives_up,
}
use libmigdb.Debugger.Steps.Running.{
  run-Follows, continue-Follows, run_or_continue-Follows, stop-Follows, kill-Follows, poll-Follows,
}
use libmigdb.Debugger.Steps.Target.{
  connect-Follows, disconnect-Follows, select_target_x11-Follows, select_target_linux-Follows,
  select_target_remote-Follows, select_target_pid-Follows, target_unselect-Follows,
  get_error_number_st-Follows,
}
use libmigdb.Debugger.Steps.Others.{
  setting-Follows, break_delete-Follows, watch_delete-Follows, run_to_main-Follows,
  step_over-Follows, trace_into-Follows, go_to-Follows, go_to_addr-Follows, finish_fun-Follows,
  show-Follows, get_target_endian-Follows, get_target_architecture-Follows,
  update_registers-Follows, fill_one_type_val-Follows, fill_type_val-Follows,
}

-- What each method is for.
abbrev pub kind : Request → Kind
kind (call_connect _) = connecting
kind call_disconnect = disconnecting
kind (call_select_target_x11 _ _ _ _) = selecting
kind (call_select_target_linux _ _ _ _) = selecting
kind (call_select_target_remote _ _ _ _) = selecting
kind (call_select_target_pid _ _) = attaching
kind call_target_unselect = unselecting
kind call_run = starts
kind call_poll = polling
kind call_continue = resumes
kind call_run_or_continue = going
kind call_kill = killing
kind call_run_to_main = starts
kind call_finish_fun = resumes
kind (call_step_over _) = going
kind (call_trace_into _) = going
kind (call_go_to _ _) = going
kind (call_go_to_addr _) = going
kind call_get_error_number_st = giving_up
kind _ = looking

-- The value returned does not matter.
forgotten-Follows :
    {A : Type 0} {k : Kind} {d : Debugger} (o : Outcome (A × Debugger))
    → AfterMethod k d o
    → After (λ d' _. Follows k d d') (continue o (λ r. ret r.1))
forgotten-Follows o r = After-continue r (λ q w p. returns p)

pub perform-Follows :
    (g : Settings) (xs : Surroundings) (q : Request) (d : Debugger) (w : World)
    → After (λ d' _. Follows (kind q) d d') (perform g xs q d w)
unfolding perform forget add_gvar assign_gvar break_after breakpoint breakpoint_again
    breakpoint_full breakpoint_line call_stack del_gvar disassemble disassemble_lines
    eval_expression eval_gvar fill_attr fill_format force_mi_version get_all_register_values
    get_changed_registers get_child_gvar get_register_names get_register_names_l get_register_values
    list_changed_gvar modify_expression path_sources read_memory return_now send set_async_cb
    set_console_cb set_format_gvar set_from_gdb_cb set_log_cb set_target_cb set_time_out_cb
    set_time_out set_to_gdb_cb thread_list thread_list_ids thread_select version watchpoint
perform-Follows g xs (call_connect a) d w = forgotten-Follows _ (connect-Follows a d w)
perform-Follows g xs call_disconnect d w = forgotten-Follows _ (disconnect-Follows xs d w)
perform-Follows g xs (call_select_target_x11 a b c e) d w =
    forgotten-Follows _ (select_target_x11-Follows g xs a b c e d w)
perform-Follows g xs (call_select_target_linux a b c e) d w =
    forgotten-Follows _ (select_target_linux-Follows g xs a b c e d w)
perform-Follows g xs (call_select_target_remote a b c e) d w =
    forgotten-Follows _ (select_target_remote-Follows g xs a b c e d w)
perform-Follows g xs (call_select_target_pid a b) d w =
    forgotten-Follows _ (select_target_pid-Follows g xs a b d w)
perform-Follows g xs call_target_unselect d w = forgotten-Follows _ (target_unselect-Follows xs d w)
perform-Follows g xs call_run d w = forgotten-Follows _ (run-Follows starts xs d w runs)
perform-Follows g xs call_stop d w = forgotten-Follows _ (stop-Follows looking xs d w)
perform-Follows g xs call_poll d w = forgotten-Follows _ (poll-Follows g d w)
perform-Follows g xs call_continue d w =
    forgotten-Follows _ (continue-Follows resumes xs d w continues)
perform-Follows g xs call_run_or_continue d w =
    forgotten-Follows _ (run_or_continue-Follows going xs d w goes goes_on)
perform-Follows g xs call_kill d w = forgotten-Follows _ (kill-Follows xs d w)
perform-Follows g xs call_run_to_main d w =
    forgotten-Follows _ (run_to_main-Follows starts g xs d w runs)
perform-Follows g xs call_finish_fun d w = forgotten-Follows _ (finish_fun-Follows g xs d w)
perform-Follows g xs (call_step_over a) d w = forgotten-Follows _ (step_over-Follows g xs d w a)
perform-Follows g xs (call_trace_into a) d w = forgotten-Follows _ (trace_into-Follows g xs d w a)
perform-Follows g xs (call_go_to a b) d w = forgotten-Follows _ (go_to-Follows g xs d w a b)
perform-Follows g xs (call_go_to_addr a) d w = forgotten-Follows _ (go_to_addr-Follows g xs d w a)
perform-Follows g xs call_get_error_number_st d w =
    forgotten-Follows _ (get_error_number_st-Follows xs d w)
perform-Follows g xs call_return_now d w = forgotten-Follows _ (if_stopped-Follows looking d _ w _)
perform-Follows g xs (call_breakpoint_line a b) d w =
    forgotten-Follows _ (if_selected-Follows looking d _ w _)
perform-Follows g xs (call_breakpoint a b c e f i) d w =
    forgotten-Follows _ (if_selected-Follows looking d _ w _)
perform-Follows g xs (call_breakpoint_again a) d w =
    forgotten-Follows _ (if_selected-Follows looking d _ w _)
perform-Follows g xs (call_breakpoint_full a b c e f i j) d w =
    forgotten-Follows _ (if_selected-Follows looking d _ w _)
perform-Follows g xs (call_break_delete a) d w =
    forgotten-Follows _ (break_delete-Follows g xs a d w)
perform-Follows g xs (call_break_after a) d w =
    forgotten-Follows _ (if_selected-Follows looking d _ w _)
perform-Follows g xs (call_watchpoint a b) d w =
    forgotten-Follows _ (if_selected-Follows looking d _ w _)
perform-Follows g xs (call_watch_delete a) d w =
    forgotten-Follows _ (watch_delete-Follows g xs a d w)
perform-Follows g xs (call_call_stack a) d w =
    forgotten-Follows _ (if_stopped-Follows looking d _ w _)
perform-Follows g xs (call_eval_expression a) d w =
    forgotten-Follows _ (if_idle-Follows looking d _ w _)
perform-Follows g xs (call_send a) d w = forgotten-Follows _ (if_idle-Follows looking d _ w _)
perform-Follows g xs (call_show a) d w = forgotten-Follows _ (show-Follows g xs d w a)
perform-Follows g xs (call_modify_expression a b) d w =
    forgotten-Follows _ (if_idle-Follows looking d _ w _)
perform-Follows g xs (call_fill_one_type_val a) d w =
    forgotten-Follows _ (fill_one_type_val-Follows g xs a d w)
perform-Follows g xs (call_fill_type_val a) d w =
    forgotten-Follows _ (fill_type_val-Follows g xs a d w)
perform-Follows g xs (call_assign_gvar a b) d w =
    forgotten-Follows _ (if_stopped-Follows looking d _ w _)
perform-Follows g xs (call_add_gvar a b) d w =
    forgotten-Follows _ (if_stopped-Follows looking d _ w _)
perform-Follows g xs (call_del_gvar a) d w =
    forgotten-Follows _ (if_stopped-Follows looking d _ w _)
perform-Follows g xs (call_eval_gvar a) d w =
    forgotten-Follows _ (if_stopped-Follows looking d _ w _)
perform-Follows g xs (call_fill_attr a) d w =
    forgotten-Follows _ (if_stopped-Follows looking d _ w _)
perform-Follows g xs (call_fill_format a) d w =
    forgotten-Follows _ (if_stopped-Follows looking d _ w _)
perform-Follows g xs (call_get_child_gvar a) d w =
    forgotten-Follows _ (if_stopped-Follows looking d _ w _)
perform-Follows g xs (call_set_format_gvar a b) d w =
    forgotten-Follows _ (if_stopped-Follows looking d _ w _)
perform-Follows g xs (call_path_sources a) d w =
    forgotten-Follows _ (if_idle-Follows looking d _ w _)
perform-Follows g xs (call_read_memory a b c e) d w =
    forgotten-Follows _ (if_stopped-Follows looking d _ w _)
perform-Follows g xs (call_thread_select a) d w =
    forgotten-Follows _ (if_stopped-Follows looking d _ w _)
perform-Follows g xs (call_disassemble a b c) d w =
    forgotten-Follows _ (if_stopped-Follows looking d _ w _)
perform-Follows g xs (call_disassemble_lines a b c e) d w =
    forgotten-Follows _ (if_stopped-Follows looking d _ w _)
perform-Follows g xs (call_get_register_names_l a) d w =
    forgotten-Follows _ (if_selected-Follows looking d _ w _)
perform-Follows g xs (call_get_register_values a) d w =
    forgotten-Follows _ (if_stopped-Follows looking d _ w _)
perform-Follows g xs (call_update_registers a) d w =
    forgotten-Follows _ (update_registers-Follows g xs a d w)
perform-Follows g xs call_get_target_endian d w =
    forgotten-Follows _ (get_target_endian-Follows g xs d w)
perform-Follows g xs call_get_target_architecture d w =
    forgotten-Follows _ (get_target_architecture-Follows g xs d w)
perform-Follows g xs call_list_changed_gvar d w =
    forgotten-Follows _ (if_stopped-Follows looking d _ w _)
perform-Follows g xs call_version d w = forgotten-Follows _ (if_idle-Follows looking d _ w _)
perform-Follows g xs call_thread_list_ids d w =
    forgotten-Follows _ (if_stopped-Follows looking d _ w _)
perform-Follows g xs call_thread_list d w = forgotten-Follows _ (if_stopped-Follows looking d _ w _)
perform-Follows g xs call_get_register_names d w =
    forgotten-Follows _ (if_selected-Follows looking d _ w _)
perform-Follows g xs call_get_all_register_values d w =
    forgotten-Follows _ (if_stopped-Follows looking d _ w _)
perform-Follows g xs call_get_changed_registers d w =
    forgotten-Follows _ (if_stopped-Follows looking d _ w _)
perform-Follows g xs (call_set_console_cb a) d w = forgotten-Follows _ (setting-Follows _ d w)
perform-Follows g xs (call_set_target_cb a) d w = forgotten-Follows _ (setting-Follows _ d w)
perform-Follows g xs (call_set_log_cb a) d w = forgotten-Follows _ (setting-Follows _ d w)
perform-Follows g xs (call_set_async_cb a) d w = forgotten-Follows _ (setting-Follows _ d w)
perform-Follows g xs (call_set_to_gdb_cb a) d w = forgotten-Follows _ (setting-Follows _ d w)
perform-Follows g xs (call_set_from_gdb_cb a) d w = forgotten-Follows _ (setting-Follows _ d w)
perform-Follows g xs (call_set_time_out_cb a) d w = forgotten-Follows _ (setting-Follows _ d w)
perform-Follows g xs (call_set_time_out a) d w = forgotten-Follows _ (setting-Follows _ d w)
perform-Follows g xs (call_force_mi_version a b c) d w = forgotten-Follows _ (setting-Follows _ d w)

-- Every method of `Request` that returns, on any object and whatever its surroundings answer, leaves the
-- object in its state, or takes a transition that the table or the comments name for what the method
-- is for, or one of four that they do not name: attaching to a process leads to `stopped`; detaching,
-- which only a process or a remote target allows, leads from `stopped` to `connected`; so does, from
-- any state, the exit of a process that was attached; and `GetErrorNumberSt` can disconnect.
pub perform-Step :
    (g : Settings) (xs : Surroundings) (q : Request) (d : Debugger) (w : World)
    → After (λ d' _. IsMove (kind q) d.mode d.state d'.state) (perform g xs q d w)
perform-Step g xs q d w =
    After-weaken (perform-Follows g xs q d w)
      (λ d' _ r. Step-IsMove (kind q) d.mode d.state d'.state r.step)

-- After any sequence of methods on an object that has a handle unless it is disconnected, the object
-- has a handle unless it is disconnected.
pub perform_all-IsConsistent :
    (g : Settings) (qs : List (Surroundings × Request)) (d : Debugger) (w : World)
    → IsConsistent d
    → After (λ d' _. IsConsistent d') (perform_all g qs d w)
unfolding perform_all
perform_all-IsConsistent g [] d w c = returns c
perform_all-IsConsistent g (q ∷ qs) d w c =
    After-continue (perform-Follows g q.0 q.1 d w)
      (λ d' w₁ r. perform_all-IsConsistent g qs d' w₁ (r.kept c))

abbrev is_connecting : Kind → Bool
is_connecting connecting = true
is_connecting _ = false

Step-disconnected :
    (k : Kind) (m : Option Mode) (s : State)
    → is_connecting k ≡ false
    → Step k m disconnected s
    → s ≡ disconnected
Step-disconnected k m s e stays = refl
Step-disconnected k m s e connects = cc
Step-disconnected k m s e (hears_stop a) = cc
Step-disconnected k m s e (hears_exit a) = cc
Step-disconnected k m s e (hears_end a) = cc
Step-disconnected k m s e gives_up = refl

-- None of the requests is for `Connect`.
abbrev pub NoneConnects : List (Surroundings × Request) → Type 0
NoneConnects [] = Unit {0}
NoneConnects (q ∷ qs) = (is_connecting (kind q.1) ≡ false) × NoneConnects qs

-- After any sequence of methods without a call of `Connect`, a disconnected object is disconnected.
pub perform_all-disconnected :
    (g : Settings) (qs : List (Surroundings × Request)) (d : Debugger) (w : World)
    → NoneConnects qs
    → d.state ≡ disconnected
    → After (λ d' _. d'.state ≡ disconnected) (perform_all g qs d w)
unfolding perform_all
perform_all-disconnected g [] d w n e = returns e
perform_all-disconnected g (q ∷ qs) d w n e =
    After-continue (perform-Follows g q.0 q.1 d w) (λ d' w₁ r.
      perform_all-disconnected g qs d' w₁ n.1
        (Step-disconnected (kind q.1) d.mode d'.state n.0 (rw⁻¹ e r.step)))
