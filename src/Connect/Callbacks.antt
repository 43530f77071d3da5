-- ===== src/Connect/Callbacks.antt =====
-- The functions that set and get the callbacks, the time-out and the version (src/connect.c). Of a
-- callback and its data the model keeps whether the callback is set.
use libmigdb.Extract.{ℤ}
use libmigdb.Base.{ℕ, ◌+◌, ◌*◌, ◌%◌, Bool}
use libmigdb.Connect.Handle.{Handle}

unfoldable pub mi_set_console_cb : Bool → Handle → Handle
mi_set_console_cb cb h = record h { callbacks = record h.callbacks { has_console = cb } }

unfoldable pub mi_set_target_cb : Bool → Handle → Handle
mi_set_target_cb cb h = record h { callbacks = record h.callbacks { has_target = cb } }

unfoldable pub mi_set_log_cb : Bool → Handle → Handle
mi_set_log_cb cb h = record h { callbacks = record h.callbacks { has_log = cb } }

unfoldable pub mi_get_console_cb : Handle → Bool
mi_get_console_cb h = h.callbacks.has_console

unfoldable pub mi_get_target_cb : Handle → Bool
mi_get_target_cb h = h.callbacks.has_target

unfoldable pub mi_get_log_cb : Handle → Bool
mi_get_log_cb h = h.callbacks.has_log

unfoldable pub mi_set_async_cb : Bool → Handle → Handle
mi_set_async_cb cb h = record h { callbacks = record h.callbacks { has_async = cb } }

unfoldable pub mi_get_async_cb : Handle → Bool
mi_get_async_cb h = h.callbacks.has_async

unfoldable pub mi_set_to_gdb_cb : Bool → Handle → Handle
mi_set_to_gdb_cb cb h = record h { callbacks = record h.callbacks { has_to_gdb_echo = cb } }

unfoldable pub mi_set_from_gdb_cb : Bool → Handle → Handle
mi_set_from_gdb_cb cb h = record h { callbacks = record h.callbacks { has_from_gdb_echo = cb } }

unfoldable pub mi_get_to_gdb_cb : Handle → Bool
mi_get_to_gdb_cb h = h.callbacks.has_to_gdb_echo

unfoldable pub mi_get_from_gdb_cb : Handle → Bool
mi_get_from_gdb_cb h = h.callbacks.has_from_gdb_echo

unfoldable pub mi_set_time_out_cb : Bool → Handle → Handle
mi_set_time_out_cb cb h = record h { callbacks = record h.callbacks { has_time_out_cb = cb } }

unfoldable pub mi_get_time_out_cb : Handle → Bool
mi_get_time_out_cb h = h.callbacks.has_time_out_cb

unfoldable pub mi_set_time_out : ℤ → Handle → Handle
mi_set_time_out to h = record h { time_out = to }

unfoldable pub mi_get_time_out : Handle → ℤ
mi_get_time_out h = h.time_out

-- `MI_VERSION2U`, an `unsigned` of 32 bits.
abbrev pub mi_version2u : ℕ → ℕ → ℕ → ℕ
mi_version2u maj mid min = (maj * 16777216 + mid * 65536 + min) % 4294967296

unfoldable pub mi_force_version : ℕ → ℕ → ℕ → Handle → Handle
mi_force_version maj mid min h = record h { version = mi_version2u maj mid min }
