-- ===== src/Tests/Commands.antt =====
-- Responses, commands and names at concrete input.
use libmigdb.Base
use libmigdb.Base.{
  ℕ, arith, suc, ◌+◌, ◌-◌, ◌*◌, length, Bytes, codes, if◌then◌else◌, Bool, true, false, Option,
  none, some, List, [], ◌∷◌, ◌++◌, ◌≡◌, refl,
}
use libmigdb.World.{ret, fault}
use libmigdb.Tree.{Results, t_const, no_results, result, mi_cl_done, mi_cl_error}
use libmigdb.Parse.Print.{
  Line, result_record, async_record, error, exec, stopped, download, output_of, AreResults,
  IsPrintable,
}
use libmigdb.Parse.Values.{mi_is_var_name_char}
use libmigdb.Connect.Handle.{Handle}
use libmigdb.Connect.Response.Lines.{echo_of, line_bytes-IsLineByte}
use libmigdb.Connect.Wait.Dialogue.{ready_for, all_heard, all_kept, world_after_all}
use libmigdb.Enums.{
  lg_cpp, mi_lang_str_to_enum, mi_lang_enum_to_str, fm_natural, fm_raw, mi_format_str_to_enum,
  mi_format_enum_to_str, sr_exited, mi_reason_enum_to_str, mi_get_error_str,
}
use libmigdb.Enums.Names.{
  mi_lang_str_to_enum-enum_to_str, mi_format_str_to_enum-enum_to_str, mi_reason_enum_to_str-some,
  mi_get_error_str-some,
}
use libmigdb.Query.{mi_res_var, mi_get_stop_record, mi_get_async_stop_reason}
use libmigdb.Query.Answers.{IsAwaited, lookup, mi_res_var-sent_lines}
use libmigdb.Query.Stops.{
  mi_get_stop_record-all_kept, mi_get_async_stop_reason-all_kept, mi_get_async_stop_reason-error,
}
use libmigdb.Query.{mi_res_simple}
use libmigdb.Extract.{ℤ, pos, negsuc, Libc}
use libmigdb.Command.{line_of, send_line, command}
use libmigdb.Command.Breakpoint.{gmi_break_state}
use libmigdb.Command.Sent.{dialogue, command-sent_lines, gmi_break_state-sent_lines}
use libmigdb.Tests.Parser.{calm}
use libmigdb.Tests.Dialogue.{failure-IsOrdinary, greeting-IsOrdinary, script, waiting}

abbrev number : ℕ → Bytes → ℕ
number n [] = n
number n (c ∷ s) = number (n * 10 + (c - 48)) s

abbrev print_digit : ℤ → Bytes
print_digit (pos n) = (48 + n) ∷ []
print_digit (negsuc n) = codes "-" ++ ((49 + n) ∷ [])

-- Functions that read decimal numbers and write digits.
abbrev pub decimal : Libc
decimal = record {
  atoi = λ s. pos (number 0 s);
  strtoul = number 0;
  strtol = λ s. pos (number 0 s);
  print_int = print_digit;
  print_pointer = λ n. (48 + n) ∷ [];
}

pub waiting-IsAwaited : IsAwaited script (codes " ") (codes "=x") waiting
waiting-IsAwaited = record {
  ordinary = (greeting-IsOrdinary, (failure-IsOrdinary, tt));
  prompt = line_bytes-IsLineByte (codes " ") refl;
  in_pipe = refl;
  none_partial = refl;
  none_chained = refl;
  alive = refl;
}

mi_res_var-sent_lines_example :
    (h' : Handle) × (mi_res_var true (ready_for script) waiting (codes "m") mi_cl_error calm
      ≡ ret (some (t_const (some (codes "No file"))), h') (world_after_all script calm))
    × (h'.pipe ≡ codes "=x")
    × (h'.po ≡ [])
    × (h'.events
        ≡ waiting.events
          ++ (all_heard script waiting.callbacks ++ echo_of (codes "(gdb) ") waiting.callbacks))
unfolding lookup libmigdb.Base.str_eq
mi_res_var-sent_lines_example =
    mi_res_var-sent_lines (codes "m") mi_cl_error script (codes " ") (codes "=x") waiting calm refl
      waiting-IsAwaited

command-sent_lines_example :
    (h' : Handle) × (command
        (send_line waiting (codes "-exec-run\n" ∷ []))
        (λ k. mi_res_simple true (ready_for script) k mi_cl_done)
        calm
      ≡ ret (false, h') (world_after_all script calm))
    × (h'.pipe ≡ codes "=x")
    × (h'.po ≡ [])
    × (h'.events
        ≡ waiting.events
          ++ dialogue (line_of (codes "-exec-run\n" ∷ [])) script (codes " ") waiting.callbacks)
command-sent_lines_example =
    command-sent_lines (codes "-exec-run\n" ∷ []) mi_cl_done script (codes " ") (codes "=x") waiting
      calm refl waiting-IsAwaited

gmi_break_state-sent_lines_example :
    (h' : Handle) × (gmi_break_state decimal true (ready_for script) waiting (pos 3) false calm
      ≡ ret (false, h') (world_after_all script calm))
    × (h'.pipe ≡ codes "=x")
    × (h'.po ≡ [])
    × (h'.events
        ≡ waiting.events
          ++ dialogue (codes "-break-disable 3\n") script (codes " ") waiting.callbacks)
gmi_break_state-sent_lines_example =
    gmi_break_state-sent_lines decimal (pos 3) false script (codes " ") (codes "=x") waiting calm
      refl waiting-IsAwaited

abbrev hit : Results
hit = result (some (codes "reason")) (t_const (some (codes "exited"))) no_results

hit-AreResults : AreResults hit
unfolding IsPrintable mi_is_var_name_char
hit-AreResults = (((refl, (refl, (refl, (refl, (refl, (refl, tt)))))), refl), tt, tt)

abbrev earlier : List Line
earlier = async_record exec download no_results ∷ []

mi_get_stop_record-all_kept_example :
    mi_get_stop_record (all_kept (earlier ++ async_record exec stopped hit ∷ []))
    ≡ some (output_of (async_record exec stopped hit))
mi_get_stop_record-all_kept_example = mi_get_stop_record-all_kept earlier [] hit (tt, tt)

mi_get_async_stop_reason-all_kept_example :
    mi_get_async_stop_reason (all_kept (earlier ++ async_record exec stopped hit ∷ [])) calm
    ≡ ret (true, some (codes "exited")) calm
unfolding lookup libmigdb.Base.str_eq
mi_get_async_stop_reason-all_kept_example =
    mi_get_async_stop_reason-all_kept earlier [] hit (codes "exited") calm (tt, tt) hit-AreResults
      refl

mi_get_async_stop_reason-error_example :
    mi_get_async_stop_reason (all_kept (earlier ++ result_record error no_results ∷ [])) calm
    ≡ fault
mi_get_async_stop_reason-error_example = mi_get_async_stop_reason-error earlier [] calm (tt, tt)

mi_format_str_to_enum-enum_to_str_example :
    mi_format_str_to_enum (mi_format_enum_to_str fm_raw) ≡ fm_natural
mi_format_str_to_enum-enum_to_str_example = mi_format_str_to_enum-enum_to_str fm_raw

mi_lang_str_to_enum-enum_to_str_example : mi_lang_str_to_enum (mi_lang_enum_to_str lg_cpp) ≡ lg_cpp
mi_lang_str_to_enum-enum_to_str_example = mi_lang_str_to_enum-enum_to_str lg_cpp

mi_reason_enum_to_str-some_example : (s : Bytes) × (mi_reason_enum_to_str sr_exited ≡ some s)
mi_reason_enum_to_str-some_example = mi_reason_enum_to_str-some sr_exited

mi_get_error_str-some_example : (s : Bytes) × (mi_get_error_str (negsuc 0) ≡ some s)
mi_get_error_str-some_example = mi_get_error_str-some (negsuc 0)
