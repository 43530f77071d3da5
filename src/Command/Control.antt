-- ===== src/Command/Control.antt =====
-- The commands of program control (src/prg_control.c).
use libmigdb.Base.{
  ℕ, suc, Bytes, codes, if◌then◌else◌, Bool, true, false, Option, none, some, List, [], ◌∷◌, ◌++◌,
}
use libmigdb.World.{M, pure, ◌>>=◌}
use libmigdb.Connect.Handle.{Handle, interrupted}
use libmigdb.Connect.Wait.{Wait}
use libmigdb.Query.{mi_res_simple_done, mi_res_simple_running}
use libmigdb.Extract.{ℤ, pos, Libc}
use libmigdb.Extract.Frames.{Frame, mi_res_frame}
use libmigdb.Command.{send_line, command}

-- `psym_search` is what `mi_get_workaround` says of `MI_PSYM_SEARCH`.
unfoldable pub mi_file_exec_and_symbols : Bool → Handle → Bytes → M Handle
unfolding send_line
mi_file_exec_and_symbols psym_search h file = send_line h (
    (if psym_search then codes "file -readnow " else codes "-file-exec-and-symbols ")
    ∷ file
    ∷ codes "\n"
    ∷ [])

unfoldable pub mi_file_symbol_file : Bool → Handle → Bytes → M Handle
unfolding send_line
mi_file_symbol_file psym_search h file = send_line h (
    (if psym_search then codes "symbol-file -readnow " else codes "-file-symbol-file ")
    ∷ file
    ∷ codes "\n"
    ∷ [])

unfoldable pub mi_exec_run : Handle → M Handle
unfolding send_line
mi_exec_run h = send_line h (codes "-exec-run\n" ∷ [])

unfoldable pub mi_exec_continue : Handle → M Handle
unfolding send_line
mi_exec_continue h = send_line h (codes "-exec-continue\n" ∷ [])

unfoldable pub mi_exec_finish : Handle → M Handle
unfolding send_line
mi_exec_finish h = send_line h (codes "-exec-finish\n" ∷ [])

unfoldable pub mi_exec_interrupt : Handle → M Handle
unfolding send_line
mi_exec_interrupt h = send_line h (codes "-exec-interrupt\n" ∷ [])

unfoldable pub mi_exec_next_instruction : Handle → M Handle
unfolding send_line
mi_exec_next_instruction h = send_line h (codes "-exec-next-instruction\n" ∷ [])

unfoldable pub mi_exec_step_instruction : Handle → M Handle
unfolding send_line
mi_exec_step_instruction h = send_line h (codes "-exec-step-instruction\n" ∷ [])

unfoldable pub mi_exec_return : Handle → M Handle
unfolding send_line
mi_exec_return h = send_line h (codes "-exec-return\n" ∷ [])

unfoldable pub mi_exec_kill : Handle → M Handle
unfolding send_line
mi_exec_kill h = send_line h (codes "kill\n" ∷ [])

unfoldable pub mi_exec_arguments : Handle → Bytes → M Handle
unfolding send_line
mi_exec_arguments h args = send_line h (codes "-exec-arguments " ∷ args ∷ codes "\n" ∷ [])

unfoldable pub mi_target_terminal : Handle → Bytes → M Handle
unfolding send_line
mi_target_terminal h tty_name = send_line h (codes "tty " ∷ tty_name ∷ codes "\n" ∷ [])

-- `if (count>1)`.
abbrev pub repeated : ℤ → Bool
repeated (pos (suc (suc n))) = true
repeated _ = false

unfoldable pub gmi_exec_run : Bool → List Wait → Handle → M (Bool × Handle)
unfolding command mi_exec_run mi_res_simple_running
gmi_exec_run running waits h = command (mi_exec_run h) (mi_res_simple_running running waits)

unfoldable pub gmi_exec_continue : Bool → List Wait → Handle → M (Bool × Handle)
unfolding command mi_exec_continue mi_res_simple_running
gmi_exec_continue running waits h =
    command (mi_exec_continue h) (mi_res_simple_running running waits)

unfoldable pub gmi_exec_finish : Bool → List Wait → Handle → M (Bool × Handle)
unfolding command mi_exec_finish mi_res_simple_running
gmi_exec_finish running waits h = command (mi_exec_finish h) (mi_res_simple_running running waits)

-- `kill` with `SIGINT`.
unfoldable pub gmi_exec_interrupt : Handle → M (Bool × Handle)
gmi_exec_interrupt h = pure (true, record h { events = h.events ++ interrupted ∷ [] })

unfoldable pub gmi_exec_next_instruction : Bool → List Wait → Handle → M (Bool × Handle)
unfolding command mi_exec_next_instruction mi_res_simple_running
gmi_exec_next_instruction running waits h =
    command (mi_exec_next_instruction h) (mi_res_simple_running running waits)

unfoldable pub gmi_exec_step_instruction : Bool → List Wait → Handle → M (Bool × Handle)
unfolding command mi_exec_step_instruction mi_res_simple_running
gmi_exec_step_instruction running waits h =
    command (mi_exec_step_instruction h) (mi_res_simple_running running waits)

unfoldable pub gmi_exec_kill : Bool → List Wait → Handle → M (Bool × Handle)
unfolding command mi_exec_kill mi_res_simple_done
gmi_exec_kill running waits h = command (mi_exec_kill h) (mi_res_simple_done running waits)

unfoldable pub gmi_target_terminal : Bool → List Wait → Handle → Bytes → M (Bool × Handle)
unfolding command mi_target_terminal mi_res_simple_done
gmi_target_terminal running waits h tty_name =
    command (mi_target_terminal h tty_name) (mi_res_simple_done running waits)

unfoldable pub gmi_file_symbol_file : Bool → Bool → List Wait → Handle → Bytes → M (Bool × Handle)
unfolding command mi_file_symbol_file mi_res_simple_done
gmi_file_symbol_file psym_search running waits h file =
    command (mi_file_symbol_file psym_search h file) (mi_res_simple_done running waits)

-- The second command of `gmi_set_exec`, when the first was done and there are arguments. Its
-- surroundings answer on their own.
set_arguments : Bool → List Wait → Option Bytes → Bool × Handle → M (Bool × Handle)
unfolding command mi_exec_arguments mi_res_simple_done
set_arguments running waits args (false, h) = pure (false, h)
set_arguments running waits none (true, h) = pure (true, h)
set_arguments running waits (some args) (true, h) =
    command (mi_exec_arguments h args) (mi_res_simple_done running waits)

unfoldable pub gmi_set_exec :
    Bool → Bool → List Wait → Bool → List Wait → Handle → Bytes → Option Bytes → M (Bool × Handle)
unfolding command mi_file_exec_and_symbols mi_res_simple_done set_arguments
gmi_set_exec psym_search running waits running' waits' h file args = do
  r ← command (mi_file_exec_and_symbols psym_search h file) (mi_res_simple_done running waits)
  set_arguments running' waits' args r

module _ (libc : Libc) where
  unfoldable pub mi_exec_next : Handle → ℤ → M Handle
  unfolding send_line
  mi_exec_next h count =
      if repeated count
      then send_line h (codes "-exec-next " ∷ libc.print_int count ∷ codes "\n" ∷ [])
      else send_line h (codes "-exec-next\n" ∷ [])

  unfoldable pub mi_exec_step : Handle → ℤ → M Handle
  unfolding send_line
  mi_exec_step h count =
      if repeated count
      then send_line h (codes "-exec-step " ∷ libc.print_int count ∷ codes "\n" ∷ [])
      else send_line h (codes "-exec-step\n" ∷ [])

  unfoldable pub mi_exec_until : Handle → Option Bytes → ℤ → M Handle
  unfolding send_line
  mi_exec_until h none line = send_line h (codes "-exec-until\n" ∷ [])
  mi_exec_until h (some file) line =
      send_line h (codes "-exec-until " ∷ file ∷ codes ":" ∷ libc.print_int line ∷ codes "\n" ∷ [])

  unfoldable pub mi_exec_until_addr : Handle → ℕ → M Handle
  unfolding send_line
  mi_exec_until_addr h addr =
      send_line h (codes "-exec-until *" ∷ libc.print_pointer addr ∷ codes "\n" ∷ [])

  unfoldable pub gmi_exec_next : Bool → List Wait → Handle → M (Bool × Handle)
  unfolding command mi_exec_next mi_res_simple_running
  gmi_exec_next running waits h =
      command (mi_exec_next h (pos 1)) (mi_res_simple_running running waits)

  unfoldable pub gmi_exec_next_cnt : Bool → List Wait → Handle → ℤ → M (Bool × Handle)
  unfolding command mi_exec_next mi_res_simple_running
  gmi_exec_next_cnt running waits h count =
      command (mi_exec_next h count) (mi_res_simple_running running waits)

  unfoldable pub gmi_exec_step : Bool → List Wait → Handle → M (Bool × Handle)
  unfolding command mi_exec_step mi_res_simple_running
  gmi_exec_step running waits h =
      command (mi_exec_step h (pos 1)) (mi_res_simple_running running waits)

  unfoldable pub gmi_exec_step_cnt : Bool → List Wait → Handle → ℤ → M (Bool × Handle)
  unfolding command mi_exec_step mi_res_simple_running
  gmi_exec_step_cnt running waits h count =
      command (mi_exec_step h count) (mi_res_simple_running running waits)

  unfoldable pub gmi_exec_until : Bool → List Wait → Handle → Option Bytes → ℤ → M (Bool × Handle)
  unfolding command mi_exec_until mi_res_simple_running
  gmi_exec_until running waits h file line =
      command (mi_exec_until h file line) (mi_res_simple_running running waits)

  unfoldable pub gmi_exec_until_addr : Bool → List Wait → Handle → ℕ → M (Bool × Handle)
  unfolding command mi_exec_until_addr mi_res_simple_running
  gmi_exec_until_addr running waits h addr =
      command (mi_exec_until_addr h addr) (mi_res_simple_running running waits)

  unfoldable pub gmi_exec_return : Bool → List Wait → Handle → M (Option Frame × Handle)
  unfolding command mi_exec_return mi_res_frame
  gmi_exec_return running waits h = command (mi_exec_return h) (mi_res_frame libc running waits)
