-- ===== src/Command/Stack.antt =====
-- Stack manipulation (src/stack_man.c).
use libmigdb.Base.{codes, if◌then◌else◌, Bool, Option, some, List, [], ◌∷◌}
use libmigdb.World.{M, pure, ◌>>=◌}
use libmigdb.Tree.{Value, t_const}
use libmigdb.Connect.Handle.{Handle}
use libmigdb.Connect.Wait.{Wait}
use libmigdb.Query.{mi_res_simple_done, mi_res_done_var}
use libmigdb.Extract.{ℤ, negsuc, Libc, required}
use libmigdb.Command.{send_line, command}
use libmigdb.Extract.Frames.{Frame, mi_res_frame, mi_res_frames_array}
use libmigdb.Command.Breakpoint.{is_given}

unfoldable pub mi_stack_info_frame : Handle → M Handle
unfolding send_line
mi_stack_info_frame h = send_line h (codes "frame\n" ∷ [])

module _ (libc : Libc) where
  -- A `from` below 0 stands for all frames.
  unfoldable pub mi_stack_list_frames : Handle → ℤ → ℤ → M Handle
  unfolding send_line
  mi_stack_list_frames h from to =
      if is_given from
      then send_line h (
          codes "-stack-list-frames "
          ∷ libc.print_int from
          ∷ codes " "
          ∷ libc.print_int to
          ∷ codes "\n"
          ∷ [])
      else send_line h (codes "-stack-list-frames\n" ∷ [])

  unfoldable pub mi_stack_list_arguments : Handle → ℤ → ℤ → ℤ → M Handle
  unfolding send_line
  mi_stack_list_arguments h show from to =
      if is_given from
      then send_line h (
          codes "-stack-list-arguments "
          ∷ libc.print_int show
          ∷ codes " "
          ∷ libc.print_int from
          ∷ codes " "
          ∷ libc.print_int to
          ∷ codes "\n"
          ∷ [])
      else send_line h (codes "-stack-list-arguments " ∷ libc.print_int show ∷ codes "\n" ∷ [])

  unfoldable pub mi_stack_info_depth : Handle → ℤ → M Handle
  unfolding send_line
  mi_stack_info_depth h depth =
      if is_given depth
      then send_line h (codes "-stack-info-depth " ∷ libc.print_int depth ∷ codes "\n" ∷ [])
      else send_line h (codes "-stack-info-depth\n" ∷ [])

  unfoldable pub mi_stack_select_frame : Handle → ℤ → M Handle
  unfolding send_line
  mi_stack_select_frame h framenum =
      send_line h (codes "-stack-select-frame " ∷ libc.print_int framenum ∷ codes "\n" ∷ [])

  unfoldable pub mi_stack_list_locals : Handle → ℤ → M Handle
  unfolding send_line
  mi_stack_list_locals h show =
      send_line h (codes "-stack-list-locals " ∷ libc.print_int show ∷ codes "\n" ∷ [])

  unfoldable pub gmi_stack_list_frames : Bool → List Wait → Handle → M (List Frame × Handle)
  unfolding command mi_stack_list_frames mi_res_frames_array
  gmi_stack_list_frames running waits h =
      command (mi_stack_list_frames h (negsuc 0) (negsuc 0))
        (λ h'. mi_res_frames_array libc running waits h' (codes "stack"))

  unfoldable pub gmi_stack_list_frames_r :
      Bool → List Wait → Handle → ℤ → ℤ → M (List Frame × Handle)
  unfolding command mi_stack_list_frames mi_res_frames_array
  gmi_stack_list_frames_r running waits h from to =
      command (mi_stack_list_frames h from to)
        (λ h'. mi_res_frames_array libc running waits h' (codes "stack"))

  unfoldable pub gmi_stack_list_arguments : Bool → List Wait → Handle → ℤ → M (List Frame × Handle)
  unfolding command mi_stack_list_arguments mi_res_frames_array
  gmi_stack_list_arguments running waits h show =
      command (mi_stack_list_arguments h show (negsuc 0) (negsuc 0))
        (λ h'. mi_res_frames_array libc running waits h' (codes "stack-args"))

  unfoldable pub gmi_stack_list_arguments_r :
      Bool → List Wait → Handle → ℤ → ℤ → ℤ → M (List Frame × Handle)
  unfolding command mi_stack_list_arguments mi_res_frames_array
  gmi_stack_list_arguments_r running waits h show from to =
      command (mi_stack_list_arguments h show from to)
        (λ h'. mi_res_frames_array libc running waits h' (codes "stack-args"))

  unfoldable pub gmi_stack_info_frame : Bool → List Wait → Handle → M (Option Frame × Handle)
  unfolding command mi_stack_info_frame mi_res_frame
  gmi_stack_info_frame running waits h =
      command (mi_stack_info_frame h) (mi_res_frame libc running waits)

  depth_of : Option Value → M ℤ
  depth_of (some (t_const text)) = required text (λ s. pure (libc.atoi s))
  depth_of _ = pure (negsuc 0)

  unfoldable pub gmi_stack_info_depth : Bool → List Wait → Handle → ℤ → M (ℤ × Handle)
  unfolding command mi_stack_info_depth mi_res_done_var depth_of
  gmi_stack_info_depth running waits h max_depth = do
    r ←
        command (mi_stack_info_depth h max_depth)
          (λ h'. mi_res_done_var running waits h' (codes "depth"))
    n ← depth_of r.0
    pure (n, r.1)

  unfoldable pub gmi_stack_info_depth_get : Bool → List Wait → Handle → M (ℤ × Handle)
  unfolding gmi_stack_info_depth
  gmi_stack_info_depth_get running waits h = gmi_stack_info_depth running waits h (negsuc 0)

  unfoldable pub gmi_stack_select_frame : Bool → List Wait → Handle → ℤ → M (Bool × Handle)
  unfolding command mi_stack_select_frame mi_res_simple_done
  gmi_stack_select_frame running waits h framenum =
      command (mi_stack_select_frame h framenum) (mi_res_simple_done running waits)

  unfoldable pub gmi_stack_list_locals : Bool → List Wait → Handle → ℤ → M (Option Value × Handle)
  unfolding command mi_stack_list_locals mi_res_done_var
  gmi_stack_list_locals running waits h show =
      command (mi_stack_list_locals h show)
        (λ h'. mi_res_done_var running waits h' (codes "locals"))
