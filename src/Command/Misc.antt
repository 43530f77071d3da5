-- ===== src/Command/Misc.antt =====
-- Miscellaneous commands (src/misc.c).
use libmigdb.Base.{Bytes, codes, str_eq, if◌then◌else◌, Bool, Option, List, [], ◌∷◌}
use libmigdb.World.{M}
use libmigdb.Connect.Handle.{Handle}
use libmigdb.Connect.Wait.{Wait}
use libmigdb.Query.{mi_res_simple_done, mi_res_simple_exit, mi_res_value}
use libmigdb.Command.{send_line, command}

unfoldable pub mi_gdb_exit : Handle → M Handle
unfolding send_line
mi_gdb_exit h = send_line h (codes "-gdb-exit\n" ∷ [])

unfoldable pub mi_gdb_version : Handle → M Handle
unfolding send_line
mi_gdb_version h = send_line h (codes "-gdb-version\n" ∷ [])

unfoldable pub mi_gdb_set : Handle → Bytes → Bytes → M Handle
unfolding send_line
mi_gdb_set h var val = send_line h (codes "-gdb-set " ∷ var ∷ codes " " ∷ val ∷ codes "\n" ∷ [])

unfoldable pub mi_gdb_show : Handle → Bytes → M Handle
unfolding send_line
mi_gdb_show h var =
    if str_eq var (codes "architecture")
    then send_line h (codes "show " ∷ var ∷ codes "\n" ∷ [])
    else send_line h (codes "-gdb-show " ∷ var ∷ codes "\n" ∷ [])

-- No result is used.
unfoldable pub gmi_gdb_exit : Bool → List Wait → Handle → M (Bool × Handle)
unfolding command mi_gdb_exit mi_res_simple_exit
gmi_gdb_exit running waits h = command (mi_gdb_exit h) (mi_res_simple_exit running waits)

unfoldable pub gmi_gdb_version : Bool → List Wait → Handle → M (Bool × Handle)
unfolding command mi_gdb_version mi_res_simple_done
gmi_gdb_version running waits h = command (mi_gdb_version h) (mi_res_simple_done running waits)

unfoldable pub gmi_gdb_set : Bool → List Wait → Handle → Bytes → Bytes → M (Bool × Handle)
unfolding command mi_gdb_set mi_res_simple_done
gmi_gdb_set running waits h var val =
    command (mi_gdb_set h var val) (mi_res_simple_done running waits)

unfoldable pub gmi_gdb_show : Bool → List Wait → Handle → Bytes → M (Option Bytes × Handle)
unfolding command mi_gdb_show mi_res_value
gmi_gdb_show running waits h var = command (mi_gdb_show h var) (mi_res_value running waits)
