-- ===== src/Tests/Dialogue.antt =====
-- The dialogue with gdb at concrete input.
use libmigdb.Extract.{pos}
use libmigdb.Base.{ℕ, ◌≡◌, refl, true, false, codes, none, some, List, [], ◌∷◌, ◌++◌, arith, inr}
use libmigdb.World.{ret}
use libmigdb.World.Ensures.{Returns}
use libmigdb.Tree.{t_const, no_results, result}
use libmigdb.Parse.Print.{
  print_line, output_of, Line, result_record, stream_record, error, console, IsPrintable,
  IsPrintableLine,
}
use libmigdb.Parse.Values.{mi_is_var_name_char}
use libmigdb.Connect.Handle.{Handle}
use libmigdb.Connect.Getline.{c_string, count, mi_getline}
use libmigdb.Connect.Getline.Bounds.{mi_getline-IsBuffered, IsBuffered}
use libmigdb.Connect.Getline.Lines.{without_cr, mi_getline-pieces}
use libmigdb.Connect.Response.Deliver.{Delivers, deliver-output_of}
use libmigdb.Connect.Response.Lines.{echo_of, line_bytes-IsLineByte}
use libmigdb.Connect.Wait.{mi_get_response_blk}
use libmigdb.Connect.Wait.Dialogue.{
  IsOrdinary, all_heard, sent_lines, ready_for, world_after_all, mi_get_response_blk-sent_lines,
}
use libmigdb.Tests.Parser.{calm}

abbrev pub new_handle : Handle
new_handle = record {
  died = false;
  pipe = [];
  llen = 0;
  partial = [];
  line = [];
  po = [];
  has_last = false;
  callbacks = record {
    has_console = true;
    has_target = false;
    has_log = false;
    has_async = false;
    has_to_gdb_echo = false;
    has_from_gdb_echo = true;
    has_time_out_cb = false;
  };
  catch_console = 1;
  catched_console = none;
  version = 0;
  time_out = pos 10;
  events = [];
}

abbrev pub greeting : Line
greeting = stream_record console (codes "GNU gdb\n")

abbrev pub failure : Line
failure =
    result_record error (result (some (codes "m")) (t_const (some (codes "No file"))) no_results)

failure-IsPrintableLine : IsPrintableLine failure
unfolding IsPrintable mi_is_var_name_char
failure-IsPrintableLine = (((refl, tt), refl), tt, tt)

pub greeting-IsOrdinary : IsOrdinary greeting
unfolding print_line output_of
greeting-IsOrdinary = record {
  printable = tt;
  line_bytes = line_bytes-IsLineByte (print_line greeting) refl;
  goes_on = refl;
}

pub failure-IsOrdinary : IsOrdinary failure
unfolding print_line output_of
failure-IsOrdinary = record {
  printable = failure-IsPrintableLine;
  line_bytes = line_bytes-IsLineByte (print_line failure) refl;
  goes_on = refl;
}

abbrev pub script : List Line
script = greeting ∷ failure ∷ []

abbrev pub waiting : Handle
waiting = record new_handle {
  pipe = sent_lines script ((codes "(gdb)" ++ codes " ") ++ b'\n' ∷ codes "=x");
}

mi_get_response_blk-sent_lines_example :
    (h' : Handle) × (mi_get_response_blk true (ready_for script) waiting calm
      ≡ ret (output_of failure ∷ [], h') (world_after_all script calm))
    × (h'.pipe ≡ codes "=x")
    × (h'.po ≡ [])
    × (h'.died ≡ false)
    × (h'.events
        ≡ all_heard script new_handle.callbacks ++ echo_of (codes "(gdb) ") new_handle.callbacks)
mi_get_response_blk-sent_lines_example =
    mi_get_response_blk-sent_lines script (codes " ") (codes "=x") waiting calm
      (greeting-IsOrdinary, (failure-IsOrdinary, tt)) (line_bytes-IsLineByte (codes " ") refl) refl
      refl refl refl refl

mi_getline-IsBuffered_example :
    Returns (λ r. IsBuffered r.1) (mi_getline (record new_handle { pipe = codes "ab\ncd" }) calm)
mi_getline-IsBuffered_example =
    mi_getline-IsBuffered (record new_handle { pipe = codes "ab\ncd" }) calm
      (record { fits = omega arith })

deliver-output_of_example : Delivers failure new_handle calm
deliver-output_of_example =
    deliver-output_of failure new_handle calm failure-IsPrintableLine refl (inr refl)

mi_getline-pieces_example :
    (h₁ : Handle) × (m : ℕ) × (mi_getline (record new_handle { pipe = codes "a\r" }) calm
      ≡ ret (count 0, h₁) calm)
    × (mi_getline (record h₁ { pipe = codes "bc\n=x" }) calm
        ≡ ret
            (
              count 3,
              record new_handle {
                pipe = codes "=x";
                llen = m;
                line = c_string (codes "abc");
                partial = [];
              },
            )
            calm)
unfolding without_cr
mi_getline-pieces_example =
    mi_getline-pieces (codes "a\r") (codes "bc") (codes "=x") new_handle calm refl
      (refl, (refl, tt)) (refl, (refl, tt))
