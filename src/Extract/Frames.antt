-- ===== src/Extract/Frames.antt =====
-- Stack frames (src/parse.c): `mi_parse_frame`, and the functions that wait for a response with frames.
pub mod Fields
use libmigdb.Base.{
  ℕ, Bytes, codes, str_eq, if◌then◌else◌, ◌==◌, ◌&&◌, Bool, true, false, Option, none, some, List,
  [], ◌∷◌,
}
use libmigdb.World.{M, pure, crash, mi_calloc, ◌>>=◌}
use libmigdb.Tree.{Value, Results, t_const, t_tuple, t_list, no_results, result, Output, mi_cl_done}
use libmigdb.Connect.Handle.{Handle}
use libmigdb.Connect.Wait.{Wait}
use libmigdb.Query.{mi_get_rrecord, with_response, mi_res_done_var}
use libmigdb.Extract.{ℤ, pos, Libc, walk, required}

-- `struct mi_frames_struct`; `next` is the rest of a list of frames.
pub record Frame : Type 0 where
  pub level : ℤ
  pub addr : ℕ
  pub func : Option Bytes
  pub file : Option Bytes
  pub from : Option Bytes
  pub line : ℤ
  pub args : Results
  pub thread_id : ℤ

-- The block is zero.
abbrev pub mi_alloc_frames : Frame
mi_alloc_frames = record {
  level = pos 0;
  addr = 0;
  func = none;
  file = none;
  from = none;
  line = pos 0;
  args = no_results;
  thread_id = pos 0;
}

module _ (libc : Libc) where
  -- A node of string type.
  unfoldable pub frame_const : Bytes → Option Bytes → Frame → M Frame
  frame_const name text fr =
      if str_eq name (codes "level")
      then required text (λ s. pure (record fr { level = libc.atoi s }))
      else if str_eq name (codes "addr")
      then required text (λ s. pure (record fr { addr = libc.strtoul s }))
      else if str_eq name (codes "func")
      then pure (record fr { func = text })
      else if str_eq name (codes "file")
      then pure (record fr { file = text })
      else if str_eq name (codes "from")
      then pure (record fr { from = text })
      else if str_eq name (codes "line")
      then required text (λ s. pure (record fr { line = libc.atoi s }))
      else pure fr

  unfoldable pub frame_step : Option Bytes → Value → Frame → M Frame
  unfolding frame_const
  frame_step var (t_const text) fr = required var (λ name. frame_const name text fr)
  frame_step var (t_list rs) fr =
      required var
        (λ name. if str_eq name (codes "args") then pure (record fr { args = rs }) else pure fr)
  frame_step var (t_tuple rs) fr = pure fr

  unfoldable pub mi_parse_frame : Results → M (Option Frame)
  unfolding walk frame_step
  mi_parse_frame c = do
    given ← mi_calloc
    if given then (do fr ← walk frame_step c mi_alloc_frames; pure (some fr)) else pure none

  tuple_frame : Option Value → M (Option Frame)
  unfolding mi_parse_frame
  tuple_frame (some (t_tuple rs)) = mi_parse_frame rs
  tuple_frame _ = pure none

  unfoldable pub mi_res_frame : Bool → List Wait → Handle → M (Option Frame × Handle)
  unfolding mi_res_done_var tuple_frame
  mi_res_frame running waits h = do
    r ← mi_res_done_var running waits h (codes "frame")
    f ← tuple_frame r.0
    pure (f, r.1)

  abbrev is_tuple : Value → Bool
  is_tuple (t_tuple rs) = true
  is_tuple _ = false

  link_frame : Option Frame → List Frame → List Frame
  link_frame none fs = fs
  link_frame (some f) fs = f ∷ fs

  -- The loop over the frames of an array: nodes that are no frame are passed over, as is a frame for
  -- which there is no memory.
  unfoldable pub frames_chain : Results → M (List Frame)
  unfolding link_frame tuple_frame
  frames_chain no_results = pure []
  frames_chain (result var v rs) =
      let rest = frames_chain rs in
      required var (λ name.
        if str_eq name (codes "frame") && is_tuple v
        then (do f ← tuple_frame (some v); fs ← rest; pure (link_frame f fs))
        else rest)

  list_frames : Option Value → M (List Frame)
  unfolding frames_chain
  list_frames (some (t_list rs)) = frames_chain rs
  list_frames _ = pure []

  unfoldable pub mi_res_frames_array : Bool → List Wait → Handle → Bytes → M (List Frame × Handle)
  unfolding mi_res_done_var list_frames
  mi_res_frames_array running waits h var = do
    r ← mi_res_done_var running waits h var
    fs ← list_frames r.0
    pure (fs, r.1)

  record_frames : Option Output → M (List Frame)
  unfolding frames_chain
  record_frames none = pure []
  record_frames (some res) = if res.tclass == mi_cl_done then frames_chain res.c else pure []

  unfoldable pub mi_res_frames_list : Bool → List Wait → Handle → M (List Frame × Handle)
  unfolding with_response mi_get_rrecord record_frames
  mi_res_frames_list running waits h =
      with_response running waits h (λ r. record_frames (mi_get_rrecord r))
