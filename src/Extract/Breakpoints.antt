-- ===== src/Extract/Breakpoints.antt =====
-- Breakpoints and watchpoints (src/parse.c, src/alloc.c).
pub mod Fields
use libmigdb.Base.{
  ℕ, zero, suc, Bytes, codes, starts, str_eq, if◌then◌else◌, ◌==◌, Bool, true, false, Option, none,
  some, List, [], ◌∷◌,
}
use libmigdb.World.{M, pure, crash, mi_calloc, ◌>>=◌}
use libmigdb.Tree.{Value, Results, t_const, t_tuple, t_list, no_results, result, Output}
use libmigdb.Connect.Handle.{Handle}
use libmigdb.Connect.Wait.{Wait}
use libmigdb.Query.{mi_get_rrecord, with_response, mi_res_done_var}
use libmigdb.Extract.{ℤ, pos, negsuc, Libc, walk, required}

pub data BkpType : Type 0 where
  t_unknown t_breakpoint t_hw : BkpType

pub data BkpDisp : Type 0 where
  d_unknown d_keep d_del : BkpDisp

pub data BkpMode : Type 0 where
  m_file_line m_function m_file_function m_address : BkpMode

pub record Bkpt : Type 0 where
  pub number : ℤ
  pub type : BkpType
  pub disp : BkpDisp
  pub enabled : Bool
  pub addr : ℕ
  pub func : Option Bytes
  pub file : Option Bytes
  pub line : ℤ
  pub ignore : ℤ
  pub times : ℤ
  pub cond : Option Bytes
  pub file_abs : Option Bytes
  pub thread : ℤ
  pub mode : BkpMode

abbrev pub mi_alloc_bkpt : Bkpt
mi_alloc_bkpt = record {
  number = pos 0;
  type = t_unknown;
  disp = d_unknown;
  enabled = false;
  addr = 0;
  func = none;
  file = none;
  line = pos 0;
  ignore = negsuc 0;
  times = pos 0;
  cond = none;
  file_abs = none;
  thread = negsuc 0;
  mode = m_file_line;
}

abbrev pub bkp_type : Bytes → BkpType
bkp_type s = if str_eq s (codes "breakpoint") then t_breakpoint else t_unknown

abbrev pub bkp_disp : Bytes → BkpDisp
bkp_disp s =
    if str_eq s (codes "keep") then d_keep else if str_eq s (codes "del") then d_del else d_unknown

-- A watchpoint.
pub data WpMode : Type 0 where
  wm_unknown wm_write wm_read wm_rw : WpMode

pub record Wp : Type 0 where
  pub number : ℤ
  pub exp : Option Bytes
  pub mode : WpMode
  pub enabled : Bool

abbrev pub mi_alloc_wp : Wp
mi_alloc_wp = record { number = pos 0; exp = none; mode = wm_unknown; enabled = false }

-- The mode that the name of a node stands for.
unfoldable pub wp_mode : Option Bytes → WpMode
wp_mode none = wm_unknown
wp_mode (some name) =
    if str_eq name (codes "wpt")
    then wm_write
    else if str_eq name (codes "hw-rwpt")
    then wm_read
    else if str_eq name (codes "hw-awpt")
    then wm_rw
    else wm_unknown

module _ (libc : Libc) where
  unfoldable pub bkpt_const : Bytes → Option Bytes → Bkpt → M Bkpt
  bkpt_const name text b =
      if str_eq name (codes "number")
      then required text (λ s. pure (record b { number = libc.atoi s }))
      else if str_eq name (codes "type")
      then required text (λ s. pure (record b { type = bkp_type s }))
      else if str_eq name (codes "disp")
      then required text (λ s. pure (record b { disp = bkp_disp s }))
      else if str_eq name (codes "enabled")
      then required text (λ s. pure (record b { enabled = starts b'y' s }))
      else if str_eq name (codes "addr")
      then required text (λ s. pure (record b { addr = libc.strtoul s }))
      else if str_eq name (codes "func")
      then pure (record b { func = text })
      else if str_eq name (codes "file")
      then pure (record b { file = text })
      else if str_eq name (codes "line")
      then required text (λ s. pure (record b { line = libc.atoi s }))
      else if str_eq name (codes "times")
      then required text (λ s. pure (record b { times = libc.atoi s }))
      else if str_eq name (codes "ignore")
      then required text (λ s. pure (record b { ignore = libc.atoi s }))
      else if str_eq name (codes "cond")
      then pure (record b { cond = text })
      else pure b

  -- Here a null `var` is passed over.
  unfoldable pub bkpt_step : Option Bytes → Value → Bkpt → M Bkpt
  unfolding bkpt_const
  bkpt_step (some name) (t_const text) b = bkpt_const name text b
  bkpt_step _ _ b = pure b

  unfoldable pub mi_get_bkpt : Results → M (Option Bkpt)
  unfolding walk bkpt_step
  mi_get_bkpt p = do
    given ← mi_calloc
    if given then (do b ← walk bkpt_step p mi_alloc_bkpt; pure (some b)) else pure none

  tuple_bkpt : Option Value → M (Option Bkpt)
  unfolding mi_get_bkpt
  tuple_bkpt (some (t_tuple rs)) = mi_get_bkpt rs
  tuple_bkpt _ = pure none

  unfoldable pub mi_res_bkpt : Bool → List Wait → Handle → M (Option Bkpt × Handle)
  unfolding mi_res_done_var tuple_bkpt
  mi_res_bkpt running waits h = do
    r ← mi_res_done_var running waits h (codes "bkpt")
    b ← tuple_bkpt r.0
    pure (b, r.1)

  wp_const : Bytes → Option Bytes → Wp → M Wp
  wp_const name text wp =
      if str_eq name (codes "number")
      then required text (λ s. pure (record wp { number = libc.atoi s; enabled = true }))
      else if str_eq name (codes "exp")
      then pure (record wp { exp = text })
      else pure wp

  unfoldable pub wp_step : Option Bytes → Value → Wp → M Wp
  unfolding wp_const
  wp_step (some name) (t_const text) wp = wp_const name text wp
  wp_step _ _ wp = pure wp

  unfoldable pub mi_get_wp : Results → WpMode → M (Option Wp)
  unfolding walk wp_step
  mi_get_wp p m = do
    given ← mi_calloc
    if given
        then (do wp ← walk wp_step p (record mi_alloc_wp { mode = m }); pure (some wp))
        else pure none

  wp_value : WpMode → Value → M (Option Wp)
  unfolding mi_get_wp
  wp_value m (t_tuple rs) = mi_get_wp rs m
  wp_value m _ = pure none

  -- The first node with such a name.
  unfoldable pub find_wp : Results → M (Option Wp)
  unfolding wp_mode wp_value
  find_wp no_results = pure none
  find_wp (result var v rs) =
      let rest = find_wp rs in elim (wp_mode var) [ wm_unknown ↦ rest | m ↦ wp_value m v ]

  unfoldable pub mi_parse_wp_res : Output → M (Option Wp)
  unfolding find_wp
  mi_parse_wp_res r = find_wp r.c

  record_wp : Option Output → M (Option Wp)
  unfolding mi_parse_wp_res
  record_wp none = pure none
  record_wp (some res) = mi_parse_wp_res res

  unfoldable pub mi_res_wp : Bool → List Wait → Handle → M (Option Wp × Handle)
  unfolding with_response mi_get_rrecord record_wp
  mi_res_wp running waits h = with_response running waits h (λ r. record_wp (mi_get_rrecord r))
