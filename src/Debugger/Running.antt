-- ===== src/Debugger/Running.antt =====
-- Running, stopping and killing the program (src/cpp_int.cc), and what `Poll` makes of a response.
use libmigdb.Base.{
  Bytes, codes, str_eq, if◌then◌else◌, Bool, true, false, ◌||◌, ◌&&◌, Option, none, some,
}
use libmigdb.World.{M, pure, crash, ◌>>=◌}
use libmigdb.Enums.{
  StopReason, sr_unknown, sr_bkpt_hit, sr_exited_signalled, sr_exited, sr_exited_normally,
}
use libmigdb.Connect.Response.{mi_get_response}
use libmigdb.Extract.Stop.{Stop, mi_res_stop}
use libmigdb.Command.{Surroundings}
use libmigdb.Command.Misc.{gmi_gdb_set, gmi_gdb_show}
use libmigdb.Command.Control.{gmi_exec_run, gmi_exec_continue, gmi_exec_interrupt, gmi_exec_kill}
use libmigdb.Debugger.{
  State, connected, target_specified, stopped, Mode, dm_pid, Debugger, Settings, is_disconnected,
  is_target_specified, is_running, is_stopped, using, move_if, starting,
}

-- `preRun` is read without a value if no target was selected.
unfoldable pub run_from : Surroundings → Option Bool → Debugger → M (Bool × Debugger)
unfolding starting gmi_exec_continue gmi_exec_run
run_from xs none d = crash
run_from xs (some true) d = starting (gmi_exec_continue (xs 0).0 (xs 0).1) d
run_from xs (some false) d = starting (gmi_exec_run (xs 0).0 (xs 0).1) d

unfoldable pub run : Surroundings → Debugger → M (Bool × Debugger)
unfolding run_from
run xs d = if is_target_specified d.state then run_from xs d.pre_run d else pure (false, d)

unfoldable pub stop : Debugger → M (Bool × Debugger)
unfolding using gmi_exec_interrupt
stop d = if is_running d.state then using d gmi_exec_interrupt else pure (false, d)

unfoldable pub is_exit_reason : StopReason → Bool
is_exit_reason sr_exited_signalled = true
is_exit_reason sr_exited = true
is_exit_reason sr_exited_normally = true
is_exit_reason _ = false

-- The state after an exit. `mode` is read without a value if no target was selected.
unfoldable pub exit_state : Option Mode → M State
exit_state none = crash
exit_state (some dm_pid) = pure connected
exit_state (some _) = pure target_specified

unfoldable pub stop_state : Debugger → StopReason → M State
unfolding is_exit_reason exit_state
stop_state d reason = if is_exit_reason reason then exit_state d.mode else pure stopped

unfoldable pub is_unknown : StopReason → Bool
is_unknown sr_unknown = true
is_unknown _ = false

-- `sr_unknown` is the stop at the temporary breakpoint.
unfoldable pub temp_bkpt : Debugger → Stop → Stop × Debugger
unfolding is_unknown
temp_bkpt d st =
    if is_unknown st.reason && d.waiting_temp_bkpt
    then (record st { reason = sr_bkpt_hit }, record d { waiting_temp_bkpt = false })
    else (st, d)

unfoldable pub known : Stop × Debugger → Option Stop × Debugger
known (st, d) = (some st, d)

-- After the record of the stop was looked for.
unfoldable pub noted : Option Stop → Debugger → M (Option Stop × Debugger)
unfolding stop_state temp_bkpt known
noted none d = pure (none, if is_running d.state then record d { state = stopped } else d)
noted (some st) d = do
  s ← stop_state d st.reason
  pure (known (temp_bkpt (record d { state = s }) st))

unfoldable pub responded : Settings → Bool × Debugger → M (Option (Option Stop) × Debugger)
unfolding using mi_res_stop noted
responded g (false, d) = pure (none, d)
responded g (true, d) = do r ← using d (mi_res_stop g.libc); q ← noted r.0 r.1; pure (some q.0, q.1)

-- `none` for the value 0; otherwise `rs`.
unfoldable pub poll : Settings → Debugger → M (Option (Option Stop) × Debugger)
unfolding using mi_get_response responded
poll g d =
    if is_disconnected d.state
    then pure (none, d)
    else (do r ← using d mi_get_response; responded g r)

unfoldable pub continue : Surroundings → Debugger → M (Bool × Debugger)
unfolding starting gmi_exec_continue
continue xs d =
    if is_stopped d.state then starting (gmi_exec_continue (xs 0).0 (xs 0).1) d else pure (false, d)

unfoldable pub run_or_continue : Surroundings → Debugger → M (Bool × Debugger)
unfolding run continue
run_or_continue xs d = if is_target_specified d.state then run xs d else continue xs d

-- `gmi_gdb_set(h,"confirm",prev)` if there is a value to go back to.
unfoldable pub revert : Surroundings → Option Bytes → Debugger → M Debugger
unfolding using gmi_gdb_set
revert xs none d = pure d
revert xs (some prev) d = do
  r ← using d (λ h. gmi_gdb_set (xs 3).0 (xs 3).1 h (codes "confirm") prev)
  pure r.1

unfoldable pub do_kill : Surroundings → Option Bytes → Debugger → M (Bool × Debugger)
unfolding using gmi_exec_kill revert
do_kill xs prev d = do
  r ← using d (gmi_exec_kill (xs 2).0 (xs 2).1)
  d' ← revert xs prev r.1
  pure (move_if target_specified (r.0, d'))

unfoldable pub confirm_off : Surroundings → Bytes → Bool × Debugger → M (Bool × Debugger)
unfolding do_kill
confirm_off xs prev (false, d) = pure (false, d)
confirm_off xs prev (true, d) = do_kill xs (some prev) d

unfoldable pub confirm_known : Surroundings → Option Bytes × Debugger → M (Bool × Debugger)
unfolding using gmi_gdb_set do_kill confirm_off
confirm_known xs (none, d) = pure (false, d)
confirm_known xs (some prev, d) = if str_eq prev (codes "off") then do_kill xs none d else (do
  r ← using d (λ h. gmi_gdb_set (xs 1).0 (xs 1).1 h (codes "confirm") (codes "off"))
  confirm_off xs prev r)

unfoldable pub kill : Surroundings → Debugger → M (Bool × Debugger)
unfolding using gmi_gdb_show confirm_known
kill xs d =
    if is_stopped d.state || is_running d.state
    then (do
      r ← using d (λ h. gmi_gdb_show (xs 0).0 (xs 0).1 h (codes "confirm"))
      confirm_known xs r)
    else pure (false, d)
