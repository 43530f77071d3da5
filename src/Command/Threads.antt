-- ===== src/Command/Threads.antt =====
-- Thread commands (src/thread.c).
use libmigdb.Base.{codes, Bool, Option, List, [], ◌∷◌}
use libmigdb.World.{M}
use libmigdb.Connect.Handle.{Handle}
use libmigdb.Connect.Wait.{Wait}
use libmigdb.Extract.{ℤ, Libc}
use libmigdb.Command.{send_line, command}
use libmigdb.Extract.Frames.{Frame, mi_res_frame, mi_res_frames_list}
use libmigdb.Extract.Threads.{mi_res_thread_ids}

unfoldable pub mi_thread_list_ids : Handle → M Handle
unfolding send_line
mi_thread_list_ids h = send_line h (codes "-thread-list-ids\n" ∷ [])

unfoldable pub mi_thread_list_all_threads : Handle → M Handle
unfolding send_line
mi_thread_list_all_threads h = send_line h (codes "info threads\n" ∷ [])

module _ (libc : Libc) where
  unfoldable pub mi_thread_select : Handle → ℤ → M Handle
  unfolding send_line
  mi_thread_select h id =
      send_line h (codes "-thread-select " ∷ libc.print_int id ∷ codes "\n" ∷ [])

  unfoldable pub gmi_thread_list_ids : Bool → List Wait → Handle → M ((ℤ × List ℤ) × Handle)
  unfolding command mi_thread_list_ids mi_res_thread_ids
  gmi_thread_list_ids running waits h =
      command (mi_thread_list_ids h) (mi_res_thread_ids libc running waits)

  unfoldable pub gmi_thread_select : Bool → List Wait → Handle → ℤ → M (Option Frame × Handle)
  unfolding command mi_thread_select mi_res_frame
  gmi_thread_select running waits h id =
      command (mi_thread_select h id) (mi_res_frame libc running waits)

  unfoldable pub gmi_thread_list_all_threads : Bool → List Wait → Handle → M (List Frame × Handle)
  unfolding command mi_thread_list_all_threads mi_res_frames_list
  gmi_thread_list_all_threads running waits h =
      command (mi_thread_list_all_threads h) (mi_res_frames_list libc running waits)
