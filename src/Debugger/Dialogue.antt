-- ===== src/Debugger/Dialogue.antt =====
-- `Run` as a dialogue with gdb.
use libmigdb.Base.{
  Bytes, codes, if◌then◌else◌, Bool, true, false, some, List, [], ◌∷◌, ◌++◌, ◌≡◌, refl, ◌∙◌,
}
use libmigdb.World.{World, ret, M, Plenty}
use libmigdb.Tree.{mi_cl_running}
use libmigdb.Parse.Print.{Line}
use libmigdb.Connect.Handle.{Handle}
use libmigdb.Connect.Wait.Dialogue.{ready_for, world_after_all}
use libmigdb.Query.{mi_res_simple, mi_res_simple_running}
use libmigdb.Query.Answers.{IsAwaited, answer_of, has_class}
use libmigdb.Command.{line_of, send_line, command, Surroundings}
use libmigdb.Command.Control.{mi_exec_run, mi_exec_continue, gmi_exec_run, gmi_exec_continue}
use libmigdb.Command.Sent.{dialogue, command-sent_lines}
use libmigdb.Debugger.Running.{run_from, run}
use libmigdb.Debugger.{target_specified, running, Debugger, starting}
use libmigdb.Debugger.Steps.{using-some}

-- What starts the program: it waits already when the target was selected with `preRun`.
abbrev pub start_command : Bool → Bytes
start_command pre_run = if pre_run then codes "-exec-continue\n" else codes "-exec-run\n"

abbrev pub started : Bool → Debugger → Debugger
started ok d = if ok then record d { state = running } else d

starting-started :
    (f : Handle → M (Bool × Handle)) (d : Debugger) (h h' : Handle) (ok : Bool) (w w' : World)
    → d.h ≡ some h
    → f h w ≡ ret (ok, h') w'
    → starting f d w ≡ ret (ok, started ok (record d { h = some h' })) w'
unfolding starting
starting-started f d h h' true w w' e got = rw (using-some d f w h e, got) refl
starting-started f d h h' false w w' e got = rw (using-some d f w h e, got) refl

run-run_from :
    (pre_run : Bool) (xs : Surroundings) (d : Debugger) (w : World)
    → d.state ≡ target_specified
    → d.pre_run ≡ some pre_run
    → run xs d w ≡ run_from xs (some pre_run) d w
unfolding run
run-run_from pre_run xs d w e f = rw (e, f) refl

module _ (xs : Surroundings) (d : Debugger) (h h' : Handle) (ok : Bool) (w w' : World) where
  run_from-run :
      d.h ≡ some h
      → command
          (send_line h (start_command false ∷ []))
          (λ k. mi_res_simple (xs 0).0 (xs 0).1 k mi_cl_running)
          w
        ≡ ret (ok, h') w'
      → run_from xs (some false) d w ≡ ret (ok, started ok (record d { h = some h' })) w'
  unfolding run_from gmi_exec_run mi_exec_run mi_res_simple_running
  run_from-run e got = starting-started (gmi_exec_run (xs 0).0 (xs 0).1) d h h' ok w w' e got

  run_from-continue :
      d.h ≡ some h
      → command
          (send_line h (start_command true ∷ []))
          (λ k. mi_res_simple (xs 0).0 (xs 0).1 k mi_cl_running)
          w
        ≡ ret (ok, h') w'
      → run_from xs (some true) d w ≡ ret (ok, started ok (record d { h = some h' })) w'
  unfolding run_from gmi_exec_continue mi_exec_continue mi_res_simple_running
  run_from-continue e got =
      starting-started (gmi_exec_continue (xs 0).0 (xs 0).1) d h h' ok w w' e got

-- When gdb answers with printable lines, none an exit record, and its prompt, nothing is left over in
-- the handle and memory is to spare, `Run` on a selected target writes the command that starts the
-- program, or that resumes it when `preRun` is set, once, before anything of the response is heard;
-- it returns whether the response is `running`, and then, and only then, moves to `running`.
pub run-sent_lines :
    (pre_run : Bool) (ls : List Line) (s rest : Bytes) (d : Debugger) (h : Handle) (w : World)
    → Plenty w
    → IsAwaited ls s rest h
    → d.state ≡ target_specified
    → d.pre_run ≡ some pre_run
    → d.h ≡ some h
    → (h' : Handle) × (run (λ i. (true, ready_for ls)) d w
        ≡ ret
            (
              has_class mi_cl_running (answer_of ls),
              started (has_class mi_cl_running (answer_of ls)) (record d { h = some h' }),
            )
            (world_after_all ls w))
      × (h'.pipe ≡ rest)
      × (h'.events ≡ h.events ++ dialogue (line_of (start_command pre_run ∷ [])) ls s h.callbacks)
run-sent_lines true ls s rest d h w p i e f k =
    let (h', got, pipe, po, told) =
      command-sent_lines (start_command true ∷ []) mi_cl_running ls s rest h w p i in
    (h', run-run_from true _ d w e f ∙ run_from-continue _ d h h' _ w _ k got, pipe, told)
run-sent_lines false ls s rest d h w p i e f k =
    let (h', got, pipe, po, told) =
      command-sent_lines (start_command false ∷ []) mi_cl_running ls s rest h w p i in
    (h', run-run_from false _ d w e f ∙ run_from-run _ d h h' _ w _ k got, pipe, told)
