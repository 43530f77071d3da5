-- ===== src/Extract/Frames/Fields.antt =====
-- The fields of a frame against the entries of the tree that it is read from.
use libmigdb.Base.{Bytes, codes, str_eq, if◌then◌else◌, none, some, inl, inr, ◌≡◌, refl}
use libmigdb.World.{World, ret, Plenty, mi_calloc-Plenty}
use libmigdb.Tree.{Results, t_const, t_tuple, t_list, no_results, result}
use libmigdb.Parse.Print.{AreResults}
use libmigdb.Extract.{Libc, walk, pick, is_key}
use libmigdb.Extract.Frames.{Frame, mi_alloc_frames, frame_step, mi_parse_frame}

-- The last list of that name, or `a`.
unfoldable pub pick_list : Bytes → Results → Results → Results
pick_list key a no_results = a
pick_list key a (result (some name) (t_list xs) rs) =
    let rest = pick_list key a rs in
    let found = pick_list key xs rs in if str_eq name key then found else rest
pick_list key a (result _ _ rs) = pick_list key a rs

-- Each field by itself: what the last entry of its name says.
abbrev pub frame_of : Libc → Results → Frame → Frame
frame_of libc rs fr = record {
  level = pick libc.atoi (codes "level") fr.level rs;
  addr = pick libc.strtoul (codes "addr") fr.addr rs;
  func = pick some (codes "func") fr.func rs;
  file = pick some (codes "file") fr.file rs;
  from = pick some (codes "from") fr.from rs;
  line = pick libc.atoi (codes "line") fr.line rs;
  args = pick_list (codes "args") fr.args rs;
  thread_id = fr.thread_id;
}

module _ (libc : Libc) where
  walk-frame_step :
      (rs : Results) (fr : Frame) (w : World)
      → AreResults rs
      → walk (frame_step libc) rs fr w ≡ ret (frame_of libc rs fr) w
  unfolding walk frame_step pick pick_list str_eq AreResults
  walk-frame_step no_results fr w n = refl
  walk-frame_step (result none v rs) fr w n = absurd n.0
  walk-frame_step (result (some name) (t_const none) rs) fr w n = absurd n.1
  walk-frame_step (result (some name) (t_tuple xs) rs) fr w n = walk-frame_step rs fr w n.2
  walk-frame_step (result (some name) (t_list xs) rs) fr w n = elim (is_key name (codes "args")) [
    | inl e ↦ rw e (walk-frame_step rs (record fr { args = xs }) w n.2)
    | inr e ↦ rw e (walk-frame_step rs fr w n.2)
  ]
  walk-frame_step (result (some name) (t_const (some s)) rs) fr w n =
      elim (is_key name (codes "level")) [
        | inl e ↦ rw e (walk-frame_step rs (record fr { level = libc.atoi s }) w n.2)
        | inr e₁ ↦ elim (is_key name (codes "addr")) [
          | inl e ↦ rw e (walk-frame_step rs (record fr { addr = libc.strtoul s }) w n.2)
          | inr e₂ ↦ elim (is_key name (codes "func")) [
            | inl e ↦ rw e (walk-frame_step rs (record fr { func = some s }) w n.2)
            | inr e₃ ↦ elim (is_key name (codes "file")) [
              | inl e ↦ rw e (walk-frame_step rs (record fr { file = some s }) w n.2)
              | inr e₄ ↦ elim (is_key name (codes "from")) [
                | inl e ↦ rw e (walk-frame_step rs (record fr { from = some s }) w n.2)
                | inr e₅ ↦ elim (is_key name (codes "line")) [
                  | inl e ↦ rw e (walk-frame_step rs (record fr { line = libc.atoi s }) w n.2)
                  | inr e₆ ↦ rw (e₁, e₂, e₃, e₄, e₅, e₆) (walk-frame_step rs fr w n.2)
                ]
              ]
            ]
          ]
        ]
      ]

  -- With memory to spare, the frame that is read from named results, in any order and among any
  -- others, has in each field what the last string of the field's name says, for `args` the last
  -- list, and zero or null where there is none.
  pub mi_parse_frame-frame_of :
      (rs : Results) (w : World)
      → AreResults rs
      → Plenty w
      → mi_parse_frame libc rs w ≡ ret (some (frame_of libc rs mi_alloc_frames)) w
  unfolding mi_parse_frame
  mi_parse_frame-frame_of rs w n p =
      rw (mi_calloc-Plenty w p, walk-frame_step rs mi_alloc_frames w n)
