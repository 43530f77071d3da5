-- ===== src/Tests/Extraction.antt =====
-- The structures that are read from concrete results.
use libmigdb.Base
use libmigdb.Base.{Bytes, codes, str_eq, true, false, Option, none, some, List, [], ◌∷◌, ◌≡◌, refl}
use libmigdb.World.{ret, fault}
use libmigdb.Tree.{Results, t_const, t_tuple, t_list, no_results, result, Output, mi_alloc_output}
use libmigdb.Parse.Print.{AreResults, IsPrintable}
use libmigdb.Parse.Values.{mi_is_var_name_char}
use libmigdb.Enums.{mi_reason_str_to_enum}
use libmigdb.Extract.{pos}
use libmigdb.Extract.Frames.{mi_alloc_frames, mi_parse_frame}
use libmigdb.Extract.Frames.Fields.{frame_of, mi_parse_frame-frame_of}
use libmigdb.Extract.Breakpoints.{
  mi_alloc_bkpt, mi_get_bkpt, mi_alloc_wp, wm_write, wm_read, mi_get_wp,
}
use libmigdb.Extract.Breakpoints.Fields.{bkpt_of, mi_get_bkpt-bkpt_of, wp_of, mi_get_wp-wp_of}
use libmigdb.Extract.Variables.{GvarChg, changelist}
use libmigdb.Extract.Variables.Changes.{as_v1, as_v2, changelist-as_v1-as_v2}
use libmigdb.Extract.Stop.{mi_alloc_stop, mi_get_stopped}
use libmigdb.Extract.Stop.Shapes.{
  bkpt_stop, wp_stop, mi_get_stopped-bkpt_stop, mi_get_stopped-wp_stop,
}
use libmigdb.Extract.Memory.{memory_row}
use libmigdb.Extract.Memory.Bounds.{memory_line, memory_row-memory_line}
use libmigdb.Extract.Threads.{mi_get_thread_ids}
use libmigdb.Extract.Threads.Bounds.{threads_line, mi_get_thread_ids-threads_line}
use libmigdb.Tests.Parser.{calm}
use libmigdb.Tests.Commands.{decimal}

-- An expression and a number, which frames and breakpoints pass over or take.
abbrev entries : Results
entries =
    result (some (codes "exp")) (t_const (some (codes "x")))
      (result (some (codes "line")) (t_const (some (codes "42"))) no_results)

entries-AreResults : AreResults entries
unfolding IsPrintable mi_is_var_name_char
entries-AreResults =
    (((refl, (refl, (refl, tt))), refl), tt, (((refl, (refl, (refl, (refl, tt)))), refl), tt, tt))

mi_parse_frame-frame_of_example :
    mi_parse_frame decimal entries calm ≡ ret (some (frame_of decimal entries mi_alloc_frames)) calm
mi_parse_frame-frame_of_example =
    mi_parse_frame-frame_of decimal entries calm entries-AreResults refl

mi_get_bkpt-bkpt_of_example :
    mi_get_bkpt decimal entries calm ≡ ret (some (bkpt_of decimal entries mi_alloc_bkpt)) calm
mi_get_bkpt-bkpt_of_example = mi_get_bkpt-bkpt_of decimal entries calm entries-AreResults refl

mi_get_wp-wp_of_example :
    mi_get_wp decimal entries wm_read calm
    ≡ ret (some (wp_of decimal entries (record mi_alloc_wp { mode = wm_read }))) calm
mi_get_wp-wp_of_example = mi_get_wp-wp_of decimal entries wm_read calm entries-AreResults refl

mi_get_stopped-bkpt_stop_example :
    mi_get_stopped decimal (bkpt_stop (codes "breakpoint-hit") (codes "1") (codes "2") entries) calm
    ≡ ret
        (some (record mi_alloc_stop {
          reason = mi_reason_str_to_enum (codes "breakpoint-hit");
          have_thread_id = true;
          thread_id = pos 1;
          have_bkptno = true;
          bkptno = pos 2;
          frame = some (frame_of decimal entries mi_alloc_frames);
        }))
        calm
mi_get_stopped-bkpt_stop_example =
    mi_get_stopped-bkpt_stop decimal (codes "breakpoint-hit") (codes "1") (codes "2") entries calm
      entries-AreResults refl

mi_get_stopped-wp_stop_example :
    mi_get_stopped decimal
      (wp_stop (codes "watchpoint-trigger") (codes "1") entries (codes "3") (codes "4") entries)
      calm
    ≡ ret
        (some (record mi_alloc_stop {
          reason = mi_reason_str_to_enum (codes "watchpoint-trigger");
          have_thread_id = true;
          thread_id = pos 1;
          wp = some (wp_of decimal entries (record mi_alloc_wp { mode = wm_write }));
          wp_old = some (codes "3");
          wp_val = some (codes "4");
          frame = some (frame_of decimal entries mi_alloc_frames);
        }))
        calm
mi_get_stopped-wp_stop_example =
    mi_get_stopped-wp_stop decimal (codes "watchpoint-trigger") (codes "1") entries (codes "3")
      (codes "4") entries calm entries-AreResults entries-AreResults refl

abbrev both_changes : List (Bytes × Results)
both_changes = (codes "v1", entries) ∷ (codes "v2", no_results) ∷ []

changelist-as_v1-as_v2_example :
    (ns : List GvarChg) × (changelist decimal (some (t_list (as_v2 both_changes))) calm
      ≡ ret (3, ns) calm)
    × (changelist decimal (some (t_tuple (as_v1 both_changes))) calm ≡ ret (3, ns) calm)
unfolding AreResults libmigdb.Base.str_eq
changelist-as_v1-as_v2_example =
    changelist-as_v1-as_v2 decimal both_changes calm
      ((entries-AreResults, (refl, (refl, tt))), ((tt, tt), tt)) refl

str_differs : str_eq (codes "7") (codes "N/A") ≡ false
unfolding libmigdb.Base.str_eq
str_differs = refl

memory_row-memory_line_example :
    memory_row decimal 1 (memory_line (codes "64") (codes "7" ∷ codes "8" ∷ [])) calm ≡ fault
memory_row-memory_line_example =
    memory_row-memory_line decimal 1 (codes "64") (codes "7") (codes "8" ∷ []) calm str_differs

abbrev threads : Output
threads = record mi_alloc_output { c = threads_line (codes "1" ∷ codes "2" ∷ []) (codes "2") }

mi_get_thread_ids-threads_line_example :
    mi_get_thread_ids decimal threads calm ≡ ret (pos 2, pos 1 ∷ pos 2 ∷ []) calm
mi_get_thread_ids-threads_line_example =
    mi_get_thread_ids-threads_line decimal (codes "1" ∷ codes "2" ∷ []) (codes "2") 1 threads calm
      refl refl refl
