-- ===== src/Debugger/Polling.antt =====
-- What `Poll` makes of a stop that gdb has reported.
use libmigdb.Base.{
  Bytes, codes, if◌then◌else◌, ap, Bool, true, false, ◌&&◌, some, List, [], ◌∷◌, ◌++◌, ◌≡◌, refl,
  ◌∙◌, All,
}
use libmigdb.World.{World, ret, Plenty}
use libmigdb.Tree.{Results}
use libmigdb.Enums.{
  StopReason, sr_exited, sr_exited_normally, sr_exited_signalled, sr_unknown, sr_bkpt_hit,
  sr_wp_trigger, sr_read_wp_trigger, sr_access_wp_trigger, sr_wp_scope, sr_function_finished,
  sr_location_reached, sr_end_stepping_range, sr_signal_received,
}
use libmigdb.Parse.Print.{Line, output_of}
use libmigdb.Connect.Handle.{Handle}
use libmigdb.Connect.Response.{mi_get_response, mi_retire_response}
use libmigdb.Connect.Response.Lines.{IsReady, IsLineByte, mi_get_response-prompt}
use libmigdb.Connect.Wait.Dialogue.{all_kept}
use libmigdb.Query.Stops.{IsNoStop, stop_line, mi_get_stop_record-all_kept}
use libmigdb.Extract.{Libc}
use libmigdb.Extract.Stop.{Stop, mi_get_stopped, mi_res_stop, stop_of}
use libmigdb.Debugger.Running.{
  is_exit_reason, exit_state, stop_state, temp_bkpt, is_unknown, known, noted, responded, poll,
}
use libmigdb.Debugger.{
  State, connected, target_specified, stopped, Mode, dm_x11, dm_linux, dm_remote, dm_pid, Debugger,
  Settings, is_disconnected,
}
use libmigdb.Debugger.Steps.{using-some}

-- Where a stop leads to: after an exit there is a target again, but for a process that was attached.
abbrev pub exit_target : Mode → State
exit_target dm_pid = connected
exit_target _ = target_specified

abbrev pub stop_target : StopReason → Mode → State
stop_target sr_exited m = exit_target m
stop_target sr_exited_normally m = exit_target m
stop_target sr_exited_signalled m = exit_target m
stop_target _ m = stopped

-- The unknown reason stands for the temporary breakpoint that is waited for, which is then forgotten.
abbrev pub announced : StopReason → Bool → StopReason
announced sr_unknown true = sr_bkpt_hit
announced r _ = r

abbrev pub still_waiting : StopReason → Bool → Bool
still_waiting sr_unknown _ = false
still_waiting _ waiting = waiting

mi_res_stop-stop_line :
    (libc : Libc) (before after : List Line) (c : Results) (st : Stop) (h : Handle) (w : World)
    → h.po ≡ all_kept (before ++ stop_line c ∷ after)
    → All IsNoStop before
    → mi_get_stopped libc c w ≡ ret (some st) w
    → mi_res_stop libc h w ≡ ret (some st, record h { po = []; has_last = false }) w
unfolding mi_res_stop mi_retire_response stop_of output_of
mi_res_stop-stop_line libc before after c st h w e n a =
    rw (e, mi_get_stop_record-all_kept before after c n, a) refl

exit_state-target : (m : Mode) (w : World) → exit_state (some m) w ≡ ret (exit_target m) w
unfolding exit_state
exit_state-target dm_x11 w = refl
exit_state-target dm_linux w = refl
exit_state-target dm_remote w = refl
exit_state-target dm_pid w = refl

stop_state-target :
    (reason : StopReason) (d : Debugger) (m : Mode) (w : World)
    → d.mode ≡ some m
    → stop_state d reason w ≡ ret (stop_target reason m) w
unfolding stop_state is_exit_reason
stop_state-target sr_exited d m w e = rw e (exit_state-target m w)
stop_state-target sr_exited_normally d m w e = rw e (exit_state-target m w)
stop_state-target sr_exited_signalled d m w e = rw e (exit_state-target m w)
stop_state-target sr_unknown d m w e = refl
stop_state-target sr_bkpt_hit d m w e = refl
stop_state-target sr_wp_trigger d m w e = refl
stop_state-target sr_read_wp_trigger d m w e = refl
stop_state-target sr_access_wp_trigger d m w e = refl
stop_state-target sr_wp_scope d m w e = refl
stop_state-target sr_function_finished d m w e = refl
stop_state-target sr_location_reached d m w e = refl
stop_state-target sr_end_stepping_range d m w e = refl
stop_state-target sr_signal_received d m w e = refl

-- What `temp_bkpt` does for either value of `waitingTempBkpt`.
temp_bkpt-announced :
    (d : Debugger) (st : Stop) (r : StopReason) (waiting : Bool)
    → let before : Stop × Debugger =
        if is_unknown r && waiting
        then (record st { reason = sr_bkpt_hit }, record d { waiting_temp_bkpt = false })
        else (record st { reason = r }, record d { waiting_temp_bkpt = waiting }) in
      let after : Stop × Debugger = (
        record st { reason = announced r waiting },
        record d { waiting_temp_bkpt = still_waiting r waiting },
      ) in
      before ≡ after
unfolding is_unknown
temp_bkpt-announced d st sr_unknown true = refl
temp_bkpt-announced d st sr_unknown false = refl
temp_bkpt-announced d st sr_bkpt_hit waiting = refl
temp_bkpt-announced d st sr_wp_trigger waiting = refl
temp_bkpt-announced d st sr_read_wp_trigger waiting = refl
temp_bkpt-announced d st sr_access_wp_trigger waiting = refl
temp_bkpt-announced d st sr_wp_scope waiting = refl
temp_bkpt-announced d st sr_function_finished waiting = refl
temp_bkpt-announced d st sr_location_reached waiting = refl
temp_bkpt-announced d st sr_end_stepping_range waiting = refl
temp_bkpt-announced d st sr_exited_signalled waiting = refl
temp_bkpt-announced d st sr_exited waiting = refl
temp_bkpt-announced d st sr_exited_normally waiting = refl
temp_bkpt-announced d st sr_signal_received waiting = refl

noted-stop :
    (d : Debugger) (m : Mode) (st : Stop) (w : World)
    → d.mode ≡ some m
    → noted (some st) d w
      ≡ ret
          (
            some (record st { reason = announced st.reason d.waiting_temp_bkpt }),
            record d {
              state = stop_target st.reason m;
              waiting_temp_bkpt = still_waiting st.reason d.waiting_temp_bkpt;
            },
          )
          w
unfolding noted known temp_bkpt
noted-stop d m st w e = rw (stop_state-target st.reason d m w e) (
    ap (λ q. ret (known q) w)
      (temp_bkpt-announced (record d { state = stop_target st.reason m }) st st.reason
        d.waiting_temp_bkpt))

-- When the prompt is the next line in the pipe, the first stop among the records that were collected
-- before can be read, and memory is to spare, `Poll` on a connected object with a target returns that
-- stop, with a hit breakpoint in place of an unknown reason if a temporary breakpoint was waited for,
-- which it no longer is. The object moves to `stopped`, but after an exit to `target_specified`, or
-- to `connected` if the target was a process that it had attached to. The records are gone.
pub poll-stop :
    (g : Settings) (before after : List Line) (c : Results) (st : Stop) (s rest : Bytes)
    (d : Debugger) (m : Mode) (h : Handle) (w : World)
    → is_disconnected d.state ≡ false
    → d.mode ≡ some m
    → d.h ≡ some h
    → IsReady (codes "(gdb)" ++ s) rest h
    → All IsLineByte s
    → h.po ≡ all_kept (before ++ stop_line c ∷ after)
    → All IsNoStop before
    → mi_get_stopped g.libc c w ≡ ret (some st) w
    → Plenty w
    → (h' : Handle) × (poll g d w
        ≡ ret
            (
              some (some (record st { reason = announced st.reason d.waiting_temp_bkpt })),
              record d {
                h = some h';
                state = stop_target st.reason m;
                waiting_temp_bkpt = still_waiting st.reason d.waiting_temp_bkpt;
              },
            )
            w)
      × (h'.pipe ≡ rest)
      × (h'.po ≡ [])
unfolding poll responded
poll-stop g before after c st s rest d m h w a e k r b o n f p =
    let (h₁, got, pipe, partial, died, callbacks, events, po) =
      mi_get_response-prompt s rest h w b p r in
    let h' : Handle = record h₁ { po = []; has_last = false } in
    (
      h',
      rw
          (
            a,
            using-some d mi_get_response w h k,
            got,
            mi_res_stop-stop_line g.libc before after c st h₁ w (po ∙ o) n f,
            noted-stop (record d { h = some h' }) m st w e,
          )
          refl,
      pipe,
      refl,
    )
