-- ===== src/Command/Breakpoint.antt =====
-- The commands of the breakpoint table (src/breakpoint.c).
use libmigdb.Base.{
  Bytes, codes, if◌then◌else◌, Bool, true, false, Option, none, some, List, [], ◌∷◌,
}
use libmigdb.World.{M}
use libmigdb.Tree.{Value}
use libmigdb.Connect.Handle.{Handle}
use libmigdb.Connect.Wait.{Wait}
use libmigdb.Query.{mi_res_simple_done, mi_res_done_var}
use libmigdb.Extract.{ℤ, pos, negsuc, Libc}
use libmigdb.Extract.Breakpoints.{Bkpt, mi_res_bkpt, WpMode, wm_write, wm_rw, Wp, mi_res_wp}
use libmigdb.Command.{send_line, command}

-- `n>=0`.
abbrev pub is_given : ℤ → Bool
is_given (pos n) = true
is_given (negsuc n) = false

-- `"-x"` if the option is set.
abbrev pub flag : Bool → Bytes → Bytes
flag set s = if set then s else []

abbrev pub space : Bytes
space = codes " "

unfoldable pub mi_break_list : Handle → M Handle
unfolding send_line
mi_break_list h = send_line h (codes "-break-list\n" ∷ [])

unfoldable pub gmi_break_list : Bool → List Wait → Handle → M (Option Value × Handle)
unfolding command mi_break_list mi_res_done_var
gmi_break_list running waits h =
    command (mi_break_list h) (λ h'. mi_res_done_var running waits h' (codes "BreakpointTable"))

-- A watchpoint whose mode is not `wm_write` is for reads unless it is for both.
unfoldable pub mi_break_watch : Handle → WpMode → Bytes → M Handle
unfolding send_line
mi_break_watch h wm_write exp = send_line h (codes "-break-watch \"" ∷ exp ∷ codes "\"\n" ∷ [])
mi_break_watch h wm_rw exp = send_line h (codes "-break-watch -a \"" ∷ exp ∷ codes "\"\n" ∷ [])
mi_break_watch h _ exp = send_line h (codes "-break-watch -r \"" ∷ exp ∷ codes "\"\n" ∷ [])

module _ (libc : Libc) where
  unfoldable pub mi_break_insert_fl : Handle → Bytes → ℤ → M Handle
  unfolding send_line
  mi_break_insert_fl h file line =
      send_line h
        (codes "-break-insert " ∷ file ∷ codes ":" ∷ libc.print_int line ∷ codes "\n" ∷ [])

  -- `s_count` or `s_thread`: 32 bytes hold every `int`.
  unfoldable pub number_of : ℤ → Bytes
  number_of n = if is_given n then libc.print_int n else []

  -- The condition stands in quotes here.
  unfoldable pub quoted : Option Bytes → List Bytes → List Bytes
  quoted none rest = rest
  quoted (some cond) rest = codes "-c \"" ∷ cond ∷ codes "\" " ∷ rest

  unfoldable pub mi_break_insert : Handle → Bool → Bool → Option Bytes → ℤ → ℤ → Bytes → M Handle
  unfolding send_line number_of quoted
  mi_break_insert h temporary hard_assist cond count thread location = send_line h (
      codes "-break-insert "
      ∷ flag temporary (codes "-t")
      ∷ space
      ∷ flag hard_assist (codes "-h")
      ∷ space
      ∷ quoted cond (
          flag (is_given count) (codes "-i")
          ∷ space
          ∷ number_of count
          ∷ space
          ∷ flag (is_given thread) (codes "-p")
          ∷ space
          ∷ number_of thread
          ∷ space
          ∷ location
          ∷ codes "\n"
          ∷ []))

  -- Here it stands without.
  condition : Option Bytes → Bytes
  condition none = []
  condition (some cond) = cond

  abbrev has_condition : Option Bytes → Bool
  has_condition none = false
  has_condition (some cond) = true

  unfoldable pub mi_break_insert_flf :
      Handle → Bytes → ℤ → Bool → Bool → Option Bytes → ℤ → ℤ → M Handle
  unfolding send_line number_of condition
  mi_break_insert_flf h file line temporary hard_assist cond count thread = send_line h (
      codes "-break-insert "
      ∷ flag temporary (codes "-t")
      ∷ space
      ∷ flag hard_assist (codes "-h")
      ∷ space
      ∷ flag (has_condition cond) (codes "-c")
      ∷ space
      ∷ condition cond
      ∷ space
      ∷ flag (is_given count) (codes "-i")
      ∷ space
      ∷ number_of count
      ∷ space
      ∷ flag (is_given thread) (codes "-p")
      ∷ space
      ∷ number_of thread
      ∷ space
      ∷ file
      ∷ codes ":"
      ∷ libc.print_int line
      ∷ codes "\n"
      ∷ [])

  unfoldable pub mi_break_delete : Handle → ℤ → M Handle
  unfolding send_line
  mi_break_delete h number =
      send_line h (codes "-break-delete " ∷ libc.print_int number ∷ codes "\n" ∷ [])

  unfoldable pub mi_break_enable : Handle → ℤ → M Handle
  unfolding send_line
  mi_break_enable h number =
      send_line h (codes "-break-enable " ∷ libc.print_int number ∷ codes "\n" ∷ [])

  unfoldable pub mi_break_disable : Handle → ℤ → M Handle
  unfolding send_line
  mi_break_disable h number =
      send_line h (codes "-break-disable " ∷ libc.print_int number ∷ codes "\n" ∷ [])

  unfoldable pub mi_break_after : Handle → ℤ → ℤ → M Handle
  unfolding send_line
  mi_break_after h number count = send_line h (
      codes "-break-after "
      ∷ libc.print_int number
      ∷ space
      ∷ libc.print_int count
      ∷ codes "\n"
      ∷ [])

  unfoldable pub mi_break_condition : Handle → ℤ → Bytes → M Handle
  unfolding send_line
  mi_break_condition h number cond =
      send_line h
        (codes "-break-condition " ∷ libc.print_int number ∷ space ∷ cond ∷ codes "\n" ∷ [])

  unfoldable pub gmi_break_insert : Bool → List Wait → Handle → Bytes → ℤ → M (Option Bkpt × Handle)
  unfolding command mi_break_insert_fl mi_res_bkpt
  gmi_break_insert running waits h file line =
      command (mi_break_insert_fl h file line) (mi_res_bkpt libc running waits)

  unfoldable pub gmi_break_insert_full :
      Bool
      → List Wait
      → Handle
      → Bool
      → Bool
      → Option Bytes
      → ℤ
      → ℤ
      → Bytes
      → M (Option Bkpt × Handle)
  unfolding command mi_break_insert mi_res_bkpt
  gmi_break_insert_full running waits h temporary hard_assist cond count thread location =
      command (mi_break_insert h temporary hard_assist cond count thread location)
        (mi_res_bkpt libc running waits)

  unfoldable pub gmi_break_insert_full_fl :
      Bool
      → List Wait
      → Handle
      → Bytes
      → ℤ
      → Bool
      → Bool
      → Option Bytes
      → ℤ
      → ℤ
      → M (Option Bkpt × Handle)
  unfolding command mi_break_insert_flf mi_res_bkpt
  gmi_break_insert_full_fl running waits h file line temporary hard_assist cond count thread =
      command (mi_break_insert_flf h file line temporary hard_assist cond count thread)
        (mi_res_bkpt libc running waits)

  unfoldable pub gmi_break_delete : Bool → List Wait → Handle → ℤ → M (Bool × Handle)
  unfolding command mi_break_delete mi_res_simple_done
  gmi_break_delete running waits h number =
      command (mi_break_delete h number) (mi_res_simple_done running waits)

  unfoldable pub gmi_break_set_times : Bool → List Wait → Handle → ℤ → ℤ → M (Bool × Handle)
  unfolding command mi_break_after mi_res_simple_done
  gmi_break_set_times running waits h number count =
      command (mi_break_after h number count) (mi_res_simple_done running waits)

  unfoldable pub gmi_break_set_condition : Bool → List Wait → Handle → ℤ → Bytes → M (Bool × Handle)
  unfolding command mi_break_condition mi_res_simple_done
  gmi_break_set_condition running waits h number cond =
      command (mi_break_condition h number cond) (mi_res_simple_done running waits)

  unfoldable pub gmi_break_state : Bool → List Wait → Handle → ℤ → Bool → M (Bool × Handle)
  unfolding command mi_break_enable mi_break_disable mi_res_simple_done
  gmi_break_state running waits h number enable =
      command (if enable then mi_break_enable h number else mi_break_disable h number)
        (mi_res_simple_done running waits)

  unfoldable pub gmi_break_watch :
      Bool → List Wait → Handle → WpMode → Bytes → M (Option Wp × Handle)
  unfolding command mi_break_watch mi_res_wp
  gmi_break_watch running waits h mode exp =
      command (mi_break_watch h mode exp) (mi_res_wp libc running waits)
