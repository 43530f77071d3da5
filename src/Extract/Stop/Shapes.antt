-- ===== src/Extract/Stop/Shapes.antt =====
-- The stops that gdb documents, read from their records.
use libmigdb.Base.{Bytes, codes, str_eq, true, some, ◌≡◌}
use libmigdb.World.{World, ret, Plenty, mi_calloc-Plenty}
use libmigdb.Tree.{Results, t_const, t_tuple, no_results, result}
use libmigdb.Parse.Print.{AreResults}
use libmigdb.Enums.{mi_reason_str_to_enum}
use libmigdb.Extract.{Libc, walk}
use libmigdb.Extract.Frames.{mi_alloc_frames}
use libmigdb.Extract.Frames.Fields.{frame_of, mi_parse_frame-frame_of}
use libmigdb.Extract.Breakpoints.{mi_alloc_wp, wm_write}
use libmigdb.Extract.Breakpoints.Fields.{wp_of, mi_get_wp-wp_of}
use libmigdb.Extract.Stop.{
  mi_alloc_stop, value_step, stop_const, stop_nested, stop_step, mi_get_stopped,
}

-- `key=text` in front of other results.
abbrev pub text_of : Bytes → Bytes → Results → Results
text_of key text rs = result (some key) (t_const (some text)) rs

abbrev pub tuple_of : Bytes → Results → Results → Results
tuple_of key xs rs = result (some key) (t_tuple xs) rs

-- A breakpoint: reason, thread, number and frame.
abbrev pub bkpt_stop : Bytes → Bytes → Bytes → Results → Results
bkpt_stop reason thread number frame = text_of (codes "reason") reason (
    text_of (codes "thread-id") thread
      (text_of (codes "bkptno") number (tuple_of (codes "frame") frame no_results)))

-- A watchpoint for writes: reason, thread, the watchpoint, both values and the frame.
abbrev pub wp_stop : Bytes → Bytes → Results → Bytes → Bytes → Results → Results
wp_stop reason thread wp old new frame = text_of (codes "reason") reason (
    text_of (codes "thread-id") thread (
      tuple_of (codes "wpt") wp (
        tuple_of (codes "value") (text_of (codes "old") old (text_of (codes "new") new no_results))
          (tuple_of (codes "frame") frame no_results))))

module _ (libc : Libc) where
  -- With memory to spare, the record of a stop with a reason, a thread, a breakpoint number and a frame
  -- of named results is read into exactly these fields, whatever their texts are.
  pub mi_get_stopped-bkpt_stop :
      (reason thread number : Bytes) (frame : Results) (w : World)
      → AreResults frame
      → Plenty w
      → mi_get_stopped libc (bkpt_stop reason thread number frame) w
        ≡ ret
            (some (record mi_alloc_stop {
              reason = mi_reason_str_to_enum reason;
              have_thread_id = true;
              thread_id = libc.atoi thread;
              have_bkptno = true;
              bkptno = libc.atoi number;
              frame = some (frame_of libc frame mi_alloc_frames);
            }))
            w
  unfolding mi_get_stopped walk stop_step stop_const stop_nested str_eq
  mi_get_stopped-bkpt_stop reason thread number frame w n p =
      rw (mi_calloc-Plenty w p, mi_parse_frame-frame_of libc frame w n p)

  -- With memory to spare, the record of a stop at a watchpoint for writes is read with its reason,
  -- thread, watchpoint, old and new value and frame, whatever the texts and the named results are.
  pub mi_get_stopped-wp_stop :
      (reason thread : Bytes) (wp : Results) (old new : Bytes) (frame : Results) (w : World)
      → AreResults wp
      → AreResults frame
      → Plenty w
      → mi_get_stopped libc (wp_stop reason thread wp old new frame) w
        ≡ ret
            (some (record mi_alloc_stop {
              reason = mi_reason_str_to_enum reason;
              have_thread_id = true;
              thread_id = libc.atoi thread;
              wp = some (wp_of libc wp (record mi_alloc_wp { mode = wm_write }));
              wp_old = some old;
              wp_val = some new;
              frame = some (frame_of libc frame mi_alloc_frames);
            }))
            w
  unfolding mi_get_stopped walk value_step stop_step stop_const stop_nested str_eq
  mi_get_stopped-wp_stop reason thread wp old new frame w m n p = rw (
    mi_calloc-Plenty w p,
    mi_get_wp-wp_of libc wp wm_write w m p,
    mi_parse_frame-frame_of libc frame w n p,
  )
