-- ===== src/Command/Target.antt =====
-- Target manipulation (src/target_man.c).
use libmigdb.Base.{suc, Bytes, codes, Bool, true, false, Option, List, [], ◌∷◌}
use libmigdb.World.{M, pure, ◌>>=◌}
use libmigdb.Connect.Handle.{Handle}
use libmigdb.Connect.Wait.{Wait}
use libmigdb.Query.{mi_res_simple_done, mi_res_simple_connected}
use libmigdb.Extract.{ℤ, Libc}
use libmigdb.Command.{send_line, command, Surroundings, mi_send_commands}
use libmigdb.Extract.Frames.{Frame, mi_res_frame}

unfoldable pub mi_target_select : Handle → Bytes → Bytes → M Handle
unfolding send_line
mi_target_select h type params =
    send_line h (codes "-target-select " ∷ type ∷ codes " " ∷ params ∷ codes "\n" ∷ [])

unfoldable pub mi_target_detach : Handle → M Handle
unfolding send_line
mi_target_detach h = send_line h (codes "-target-detach\n" ∷ [])

unfoldable pub mi_target_download : Handle → M Handle
unfolding send_line
mi_target_download h = send_line h (codes "-target-download\n" ∷ [])

-- `conn` is what the file of `gdb_conn` holds.
select_done : Surroundings → Option (List Bytes) → Bool × Handle → M (Bool × Handle)
unfolding mi_send_commands
select_done xs conn (false, h) = pure (false, h)
select_done xs conn (true, h) = do h' ← mi_send_commands xs h conn; pure (true, h')

unfoldable pub gmi_target_select :
    Surroundings → Option (List Bytes) → Handle → Bytes → Bytes → M (Bool × Handle)
unfolding command mi_target_select mi_res_simple_connected select_done
gmi_target_select xs conn h type params = do
  r ← command (mi_target_select h type params) (mi_res_simple_connected (xs 0).0 (xs 0).1)
  select_done (λ n. xs (suc n)) conn r

unfoldable pub gmi_target_detach : Bool → List Wait → Handle → M (Bool × Handle)
unfolding command mi_target_detach mi_res_simple_done
gmi_target_detach running waits h = command (mi_target_detach h) (mi_res_simple_done running waits)

unfoldable pub gmi_target_download : Bool → List Wait → Handle → M (Bool × Handle)
unfolding command mi_target_download mi_res_simple_done
gmi_target_download running waits h =
    command (mi_target_download h) (mi_res_simple_done running waits)

module _ (libc : Libc) where
  unfoldable pub mi_target_attach : Handle → ℤ → M Handle
  unfolding send_line
  mi_target_attach h pid = send_line h (codes "attach " ∷ libc.print_int pid ∷ codes "\n" ∷ [])

  unfoldable pub gmi_target_attach : Bool → List Wait → Handle → ℤ → M (Option Frame × Handle)
  unfolding command mi_target_attach mi_res_frame
  gmi_target_attach running waits h pid =
      command (mi_target_attach h pid) (mi_res_frame libc running waits)
