-- ===== src/Debugger/Walk.antt =====
-- Stepping through the program (src/cpp_int.cc), and the call stack.
use libmigdb.Base.{
  ℕ, ◌+◌, Bytes, codes, if◌then◌else◌, Bool, true, false, Option, none, some, List, [], ◌∷◌, ◌++◌,
}
use libmigdb.World.{M, pure, ◌>>=◌}
use libmigdb.Connect.Handle.{Handle}
use libmigdb.Extract.{ℤ, pos, negsuc}
use libmigdb.Extract.Frames.{Frame}
use libmigdb.Extract.Breakpoints.{Bkpt}
use libmigdb.Command.{Surroundings}
use libmigdb.Command.Stack.{gmi_stack_list_frames, gmi_stack_list_arguments}
use libmigdb.Command.Control.{
  gmi_exec_finish, gmi_exec_next, gmi_exec_next_instruction, gmi_exec_step,
  gmi_exec_step_instruction, gmi_exec_until, gmi_exec_until_addr, gmi_exec_return,
}
use libmigdb.Debugger.Points.{snprintf, breakpoint}
use libmigdb.Debugger.Running.{run}
use libmigdb.Debugger.{
  Debugger, Settings, mi_get_main_func, is_target_specified, is_stopped, if_stopped, starting,
}

-- The arguments are transferred to the other list, as far as both go.
unfoldable pub transfer : List Frame → List Frame → List Frame
transfer [] fr₂ = []
transfer (p ∷ fr₁) [] = p ∷ fr₁
transfer (p ∷ fr₁) (p₂ ∷ fr₂) = record p { args = p₂.args } ∷ transfer fr₁ fr₂

module _ (g : Settings) (xs : Surroundings) where
  unfoldable pub run_past : Option Bkpt × Debugger → M (Bool × Debugger)
  unfolding run
  run_past (none, d) = pure (false, d)
  run_past (some b, d) = run (λ i. xs (1 + i)) (record d { waiting_temp_bkpt = true })

  -- Run up to a temporary breakpoint.
  unfoldable pub run_to : Bytes → Debugger → M (Bool × Debugger)
  unfolding breakpoint run_past
  run_to where_ d = do
    b ← breakpoint g xs where_ true none (negsuc 0) (negsuc 0) false d
    run_past b

  unfoldable pub run_to_main : Debugger → M (Bool × Debugger)
  unfolding run_to
  run_to_main d =
      if is_target_specified d.state then run_to (mi_get_main_func g) d else pure (false, d)

  unfoldable pub step_over : Bool → Debugger → M (Bool × Debugger)
  unfolding run_to_main starting gmi_exec_next_instruction gmi_exec_next
  step_over inst d =
      if is_target_specified d.state
      then run_to_main d
      else if is_stopped d.state
      then starting
          (λ h.
            if inst
            then gmi_exec_next_instruction (xs 0).0 (xs 0).1 h
            else gmi_exec_next g.libc (xs 0).0 (xs 0).1 h)
          d
      else pure (false, d)

  unfoldable pub trace_into : Bool → Debugger → M (Bool × Debugger)
  unfolding run_to_main starting gmi_exec_step_instruction gmi_exec_step
  trace_into inst d =
      if is_target_specified d.state
      then run_to_main d
      else if is_stopped d.state
      then starting
          (λ h.
            if inst
            then gmi_exec_step_instruction (xs 0).0 (xs 0).1 h
            else gmi_exec_step g.libc (xs 0).0 (xs 0).1 h)
          d
      else pure (false, d)

  -- The buffer has room for the longest number.
  unfoldable pub go_to : Bytes → ℤ → Debugger → M (Bool × Debugger)
  unfolding run_to starting gmi_exec_until
  go_to file line d =
      if is_target_specified d.state
      then run_to (file ++ codes ":" ++ g.libc.print_int line) d
      else if is_stopped d.state
      then starting (λ h. gmi_exec_until g.libc (xs 0).0 (xs 0).1 h (some file) line) d
      else pure (false, d)

  unfoldable pub go_to_addr : ℕ → Debugger → M (Bool × Debugger)
  unfolding run_to snprintf starting gmi_exec_until_addr
  go_to_addr addr d =
      if is_target_specified d.state
      then run_to (snprintf 32 (codes "*" ++ g.libc.print_pointer addr)) d
      else if is_stopped d.state
      then starting (λ h. gmi_exec_until_addr g.libc (xs 0).0 (xs 0).1 h addr) d
      else pure (false, d)

  unfoldable pub finish_fun : Debugger → M (Bool × Debugger)
  unfolding starting gmi_exec_finish
  finish_fun d =
      if is_stopped d.state then starting (gmi_exec_finish (xs 0).0 (xs 0).1) d else pure (false, d)

  unfoldable pub return_now : Debugger → M (Option Frame × Debugger)
  unfolding if_stopped gmi_exec_return
  return_now d = if_stopped none (gmi_exec_return g.libc (xs 0).0 (xs 0).1) d

  unfoldable pub with_arguments : Bool → List Frame × Handle → M (List Frame × Handle)
  unfolding gmi_stack_list_arguments transfer
  with_arguments true (f ∷ fr₁, h) = do
    r ← gmi_stack_list_arguments g.libc (xs 1).0 (xs 1).1 h (pos 1)
    pure (transfer (f ∷ fr₁) r.0, r.1)
  with_arguments args (fr₁, h) = pure (fr₁, h)

  unfoldable pub call_stack : Bool → Debugger → M (List Frame × Debugger)
  unfolding if_stopped gmi_stack_list_frames with_arguments
  call_stack args d =
      if_stopped []
        (λ h. do r ← gmi_stack_list_frames g.libc (xs 0).0 (xs 0).1 h; with_arguments args r) d
