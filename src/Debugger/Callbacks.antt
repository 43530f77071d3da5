-- ===== src/Debugger/Callbacks.antt =====
-- The methods of `MIDebugger` that set a callback, the time-out or the version (src/mi_gdb.h): they use the handle in any state.
use libmigdb.Extract.{ℤ}
use libmigdb.Base.{ℕ, Bool}
use libmigdb.World.{M, pure}
use libmigdb.Connect.Handle.{Handle}
use libmigdb.Connect.Callbacks.{
  mi_set_console_cb, mi_set_target_cb, mi_set_log_cb, mi_set_async_cb, mi_set_to_gdb_cb,
  mi_set_from_gdb_cb, mi_set_time_out_cb, mi_set_time_out, mi_force_version,
}
use libmigdb.Debugger.{Debugger, using}

-- A change of the handle.
unfoldable pub setting : (Handle → Handle) → Debugger → M (Unit {0} × Debugger)
unfolding using
setting f d = using d (λ h. pure (tt, f h))

unfoldable pub set_console_cb : Bool → Debugger → M (Unit {0} × Debugger)
unfolding setting mi_set_console_cb
set_console_cb cb = setting (mi_set_console_cb cb)

unfoldable pub set_target_cb : Bool → Debugger → M (Unit {0} × Debugger)
unfolding setting mi_set_target_cb
set_target_cb cb = setting (mi_set_target_cb cb)

unfoldable pub set_log_cb : Bool → Debugger → M (Unit {0} × Debugger)
unfolding setting mi_set_log_cb
set_log_cb cb = setting (mi_set_log_cb cb)

unfoldable pub set_async_cb : Bool → Debugger → M (Unit {0} × Debugger)
unfolding setting mi_set_async_cb
set_async_cb cb = setting (mi_set_async_cb cb)

unfoldable pub set_to_gdb_cb : Bool → Debugger → M (Unit {0} × Debugger)
unfolding setting mi_set_to_gdb_cb
set_to_gdb_cb cb = setting (mi_set_to_gdb_cb cb)

unfoldable pub set_from_gdb_cb : Bool → Debugger → M (Unit {0} × Debugger)
unfolding setting mi_set_from_gdb_cb
set_from_gdb_cb cb = setting (mi_set_from_gdb_cb cb)

unfoldable pub set_time_out_cb : Bool → Debugger → M (Unit {0} × Debugger)
unfolding setting mi_set_time_out_cb
set_time_out_cb cb = setting (mi_set_time_out_cb cb)

unfoldable pub set_time_out : ℤ → Debugger → M (Unit {0} × Debugger)
unfolding setting mi_set_time_out
set_time_out to = setting (mi_set_time_out to)

unfoldable pub force_mi_version : ℕ → ℕ → ℕ → Debugger → M (Unit {0} × Debugger)
unfolding setting mi_force_version
force_mi_version major middle minor = setting (mi_force_version major middle minor)
