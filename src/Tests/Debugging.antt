-- ===== src/Tests/Debugging.antt =====
-- The class `MIDebugger` at concrete input.
use libmigdb.Base
use libmigdb.Base.{
  ℕ, Bytes, codes, Bool, true, false, Option, none, some, List, [], ◌∷◌, ◌++◌, ◌≡◌, refl, inl,
}
use libmigdb.World.{World, ret, fault, pure, ◌>>=◌, mi_gdb_died}
use libmigdb.World.After.{After}
use libmigdb.Tree.{Results, t_const, no_results, result}
use libmigdb.Enums.{sr_bkpt_hit}
use libmigdb.Connect.Handle.{Handle}
use libmigdb.Connect.Response.Lines.{line_bytes-IsLineByte}
use libmigdb.Connect.Wait.Dialogue.{ready_for, all_kept, world_after_all}
use libmigdb.Query.Stops.{stop_line}
use libmigdb.Extract.Stop.{Stop, mi_alloc_stop, mi_get_stopped}
use libmigdb.Command.{Surroundings, line_of}
use libmigdb.Command.Sent.{dialogue}
use libmigdb.Debugger.Running.{run, poll}
use libmigdb.Debugger.Target.{destroy, get_error_number_st}
use libmigdb.Debugger.{
  disconnected, target_specified, running, stopped, dm_x11, Debugger, new_debugger, Settings,
}
use libmigdb.Debugger.Requests.{Request, call_run, call_poll, call_kill, perform, perform_all}
use libmigdb.Debugger.Steps.{IsConsistent}
use libmigdb.Debugger.Steps.Documented.{IsMove}
use libmigdb.Debugger.Steps.Perform.{
  kind, perform-Step, perform_all-IsConsistent, perform_all-disconnected,
}
use libmigdb.Debugger.Steps.Ending.{get_error_number_st-fault}
use libmigdb.Debugger.Death.{Ends, destroy-Ends}
use libmigdb.Debugger.Dialogue.{start_command, started, run-sent_lines}
use libmigdb.Extract.{pos}
use libmigdb.Extract.Registers.{ChgReg, mi_alloc_chg_reg}
use libmigdb.Debugger.Registers.{get_changed_registers, update_registers}
use libmigdb.Debugger.Registers.Values.{refreshed, update_registers-refreshed}
use libmigdb.Debugger.Polling.{poll-stop}
use libmigdb.Tests.Parser.{calm}
use libmigdb.Tests.Dialogue.{new_handle, script, waiting}
use libmigdb.Tests.Commands.{decimal, waiting-IsAwaited}

abbrev settings : Settings
settings = record { libc = decimal; psym_search = true; conn = none; main_func = none }

abbrev pub answers : Surroundings
answers i = (true, ready_for script)

-- A target is selected, and gdb has sent its answer to the next command.
abbrev selected : Debugger
selected = record new_debugger {
  state = target_specified;
  mode = some dm_x11;
  pre_run = some false;
  h = some waiting;
}

perform-Step_example :
    After
      (λ (d' : Debugger) (_ : World).
        IsMove (kind call_run) (some dm_x11) target_specified d'.state)
      (perform settings answers call_run selected calm)
perform-Step_example = perform-Step settings answers call_run selected calm

abbrev requests : List (Surroundings × Request)
requests = (answers, call_run) ∷ (answers, call_poll) ∷ (answers, call_kill) ∷ []

perform_all-IsConsistent_example :
    After
      (λ (d' : Debugger) (_ : World). IsConsistent d')
      (perform_all settings requests selected calm)
perform_all-IsConsistent_example = perform_all-IsConsistent settings requests selected calm refl

perform_all-disconnected_example :
    After
      (λ (d' : Debugger) (_ : World). d'.state ≡ disconnected)
      (perform_all settings requests new_debugger calm)
perform_all-disconnected_example =
    perform_all-disconnected settings requests new_debugger calm (refl, (refl, (refl, tt))) refl

-- gdb has died.
abbrev dead : Debugger
dead = record selected { h = some (record new_handle { died = true }) }

destroy-Ends_example :
    Ends false
      (destroy settings answers answers ([] ∷ []) (record dead { state = stopped }) calm)
      calm
destroy-Ends_example =
    destroy-Ends settings answers answers ([] ∷ []) (record dead { state = stopped })
      (record new_handle { died = true }) calm dm_x11 refl refl refl refl refl (refl, tt)

abbrev mourning : World
mourning = record calm { error = mi_gdb_died }

abbrev buried : Debugger
buried = record dead { state = disconnected; h = none }

dead_returns : get_error_number_st answers dead mourning ≡ ret (mi_gdb_died, buried) mourning
unfolding get_error_number_st
dead_returns = refl

get_error_number_st-fault_example : get_error_number_st answers buried mourning ≡ fault
get_error_number_st-fault_example =
    get_error_number_st-fault answers answers dead buried mourning mourning refl dead_returns

run-sent_lines_example :
    (h' : Handle) × (run answers selected calm
      ≡ ret (false, started false (record selected { h = some h' })) (world_after_all script calm))
    × (h'.pipe ≡ codes "=x")
    × (h'.events
        ≡ waiting.events
          ++ dialogue (line_of (start_command false ∷ [])) script (codes " ") waiting.callbacks)
run-sent_lines_example =
    run-sent_lines false script (codes " ") (codes "=x") selected waiting calm refl
      waiting-IsAwaited refl refl refl

-- A stop without a reason.
abbrev unexplained : Results
unexplained = result (some (codes "thread-id")) (t_const (some (codes "1"))) no_results

abbrev unexplained_stop : Stop
unexplained_stop = record mi_alloc_stop { have_thread_id = true; thread_id = pos 1 }

-- The stop was collected, and the prompt comes next.
abbrev reported : Handle
reported = record new_handle {
  pipe = codes "(gdb) \n=x";
  po = all_kept (stop_line unexplained ∷ []);
  has_last = true;
}

-- The program runs to a temporary breakpoint.
abbrev resumed : Debugger
resumed = record selected { state = running; h = some reported; waiting_temp_bkpt = true }

poll-stop_example :
    (h' : Handle) × (poll settings resumed calm
      ≡ ret
          (
            some (some (record unexplained_stop { reason = sr_bkpt_hit })),
            record resumed { h = some h'; state = stopped; waiting_temp_bkpt = false },
          )
          calm)
    × (h'.pipe ≡ codes "=x")
    × (h'.po ≡ [])
unfolding mi_get_stopped libmigdb.Base.str_eq libmigdb.World.mi_calloc
poll-stop_example =
    poll-stop settings [] [] unexplained unexplained_stop (codes " ") (codes "=x") resumed dm_x11
      reported calm refl refl refl
      (record { in_pipe = refl; none_partial = refl; chained = inl refl })
      (line_bytes-IsLineByte (codes " ") refl) refl tt refl refl

abbrev two_registers : List ChgReg
two_registers =
    record mi_alloc_chg_reg { reg = pos 1 } ∷ record mi_alloc_chg_reg { reg = pos 2 } ∷ []

update_registers-refreshed_example :
    update_registers settings answers two_registers selected calm
    ≡ (get_changed_registers settings answers selected >>= λ r.
          pure (refreshed r.0 two_registers, r.1))
        calm
update_registers-refreshed_example =
    update_registers-refreshed settings answers two_registers selected calm ((refl, tt), (tt, tt))
