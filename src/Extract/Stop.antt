-- ===== src/Extract/Stop.antt =====
-- Why gdb stopped (src/parse.c): `mi_get_stopped` and `mi_res_stop`.
pub mod Shapes
use libmigdb.Base.{
  ℕ, Bytes, codes, str_eq, if◌then◌else◌, ◌&&◌, ◌||◌, not, Bool, true, false, Option, none, some,
  List, [], ◌∷◌,
}
use libmigdb.World.{M, pure, crash, mi_calloc, ◌>>=◌}
use libmigdb.Tree.{Value, Results, t_const, t_tuple, t_list, no_results, result, Output}
use libmigdb.Enums.{StopReason, sr_unknown, mi_reason_str_to_enum}
use libmigdb.Connect.Handle.{Handle}
use libmigdb.Connect.Response.{mi_retire_response}
use libmigdb.Query.{mi_get_stop_record}
use libmigdb.Extract.{ℤ, pos, Libc, walk, required}
use libmigdb.Extract.Frames.{Frame, mi_parse_frame}
use libmigdb.Extract.Breakpoints.{Wp, WpMode, wm_write, wm_read, wm_rw, mi_get_wp}

-- `struct mi_stop_struct`.
pub record Stop : Type 0 where
  pub reason : StopReason
  pub have_thread_id : Bool
  pub have_bkptno : Bool
  pub have_exit_code : Bool
  pub have_wpno : Bool
  pub thread_id : ℤ
  pub frame : Option Frame
  pub bkptno : ℤ
  pub wp : Option Wp
  pub wp_old : Option Bytes
  pub wp_val : Option Bytes
  pub wpno : ℤ
  pub gdb_result_var : Option Bytes
  pub return_value : Option Bytes
  pub signal_name : Option Bytes
  pub signal_meaning : Option Bytes
  pub exit_code : ℤ

abbrev pub mi_alloc_stop : Stop
mi_alloc_stop = record {
  reason = sr_unknown;
  have_thread_id = false;
  have_bkptno = false;
  have_exit_code = false;
  have_wpno = false;
  thread_id = pos 0;
  frame = none;
  bkptno = pos 0;
  wp = none;
  wp_old = none;
  wp_val = none;
  wpno = pos 0;
  gdb_result_var = none;
  return_value = none;
  signal_name = none;
  signal_meaning = none;
  exit_code = pos 0;
}

abbrev pub is_some : {A : Type 0} → Option A → Bool
is_some none = false
is_some (some a) = true

-- A node of `value`: its text is taken without a look at its type, and only a string has one.
unfoldable pub value_step : Option Bytes → Value → Stop → M Stop
value_step none v st = crash
value_step (some name) v st =
    if str_eq name (codes "value") || str_eq name (codes "new")
    then (elim v [ t_const text ↦ pure (record st { wp_val = text }) | _ ↦ crash ])
    else if str_eq name (codes "old")
    then (elim v [ t_const text ↦ pure (record st { wp_old = text }) | _ ↦ crash ])
    else pure st

module _ (libc : Libc) where
  -- A node of string type. The test in front of `wpnum` is the one of the source.
  unfoldable pub stop_const : Bytes → Option Bytes → Stop → M Stop
  stop_const name text st =
      if str_eq name (codes "reason")
      then required text (λ s. pure (record st { reason = mi_reason_str_to_enum s }))
      else if not st.have_thread_id && str_eq name (codes "thread-id")
      then required text (λ s. pure (record st { have_thread_id = true; thread_id = libc.atoi s }))
      else if not st.have_bkptno && str_eq name (codes "bkptno")
      then required text (λ s. pure (record st { have_bkptno = true; bkptno = libc.atoi s }))
      else if not st.have_bkptno && str_eq name (codes "wpnum")
      then required text (λ s. pure (record st { have_wpno = true; wpno = libc.atoi s }))
      else if str_eq name (codes "gdb-result-var")
      then pure (record st { gdb_result_var = text })
      else if str_eq name (codes "return-value")
      then pure (record st { return_value = text })
      else if str_eq name (codes "signal-name")
      then pure (record st { signal_name = text })
      else if str_eq name (codes "signal-meaning")
      then pure (record st { signal_meaning = text })
      else if not st.have_exit_code && str_eq name (codes "exit-code")
      then required text (λ s. pure (record st { have_exit_code = true; exit_code = libc.atoi s }))
      else pure st

  set_frame : Stop → Option Frame → Stop
  set_frame st frame = record st { frame = frame }

  set_wp : Stop → Option Wp → Stop
  set_wp st wp = record st { wp = wp }

  watched : Results → WpMode → Stop → M Stop
  unfolding set_wp
  watched rs m st = do wp ← mi_get_wp libc rs m; pure (set_wp st wp)

  -- A node that is a tuple or a list.
  unfoldable pub stop_nested : Bytes → Results → Stop → M Stop
  unfolding set_frame watched walk value_step
  stop_nested name rs st =
      if str_eq name (codes "frame")
      then (do frame ← mi_parse_frame libc rs; pure (set_frame st frame))
      else if not (is_some st.wp) && str_eq name (codes "wpt")
      then watched rs wm_write st
      else if not (is_some st.wp) && str_eq name (codes "hw-rwpt")
      then watched rs wm_read st
      else if not (is_some st.wp) && str_eq name (codes "hw-awpt")
      then watched rs wm_rw st
      else if not (is_some st.wp_old || is_some st.wp_val) && str_eq name (codes "value")
      then walk value_step rs st
      else pure st

  unfoldable pub stop_step : Option Bytes → Value → Stop → M Stop
  unfolding stop_const stop_nested
  stop_step var (t_const text) st = required var (λ name. stop_const name text st)
  stop_step var (t_tuple rs) st = required var (λ name. stop_nested name rs st)
  stop_step var (t_list rs) st = required var (λ name. stop_nested name rs st)

  unfoldable pub mi_get_stopped : Results → M (Option Stop)
  unfolding walk stop_step
  mi_get_stopped r = do
    given ← mi_calloc
    if given then (do st ← walk stop_step r mi_alloc_stop; pure (some st)) else pure none

  unfoldable pub stop_of : Option Output → M (Option Stop)
  unfolding mi_get_stopped
  stop_of none = pure none
  stop_of (some sr) = mi_get_stopped sr.c

  -- The records that have been collected, without waiting.
  unfoldable pub mi_res_stop : Handle → M (Option Stop × Handle)
  unfolding mi_retire_response mi_get_stop_record stop_of
  mi_res_stop h = do
    let (o, h') = mi_retire_response h
    st ← stop_of (mi_get_stop_record o)
    pure (st, h')
