-- ===== src/Connect/Response.antt =====
-- `mi_get_response` and `mi_retire_response` (src/connect.c): one line of gdb's output is parsed and
-- delivered to a callback or to the chain of records.
pub mod Deliver
pub mod Lines
use libmigdb.Base.{
  ℕ, zero, suc, ◌-◌, Bytes, codes, str_eq, strip, ◌==◌, if◌then◌else◌, Bool, true, false, ◌&&◌,
  Option, none, some, List, [], ◌∷◌, ◌++◌,
}
use libmigdb.World.{M, World, pure, crash, mi_from_gdb, sys_alloc, ret, ◌>>=◌}
use libmigdb.Tree.{
  Value, Results, t_const, no_results, result, Output, mi_t_out_of_band, mi_t_result_record,
  mi_st_async, mi_st_stream, mi_sst_console, mi_sst_target, mi_sst_log, mi_cl_error, mi_cl_exit,
}
use libmigdb.Parse.Records.{mi_parse_gdb_output}
use libmigdb.Connect.Handle.{Handle, call, from_gdb_echo, console, target, log, async}
use libmigdb.Connect.Getline.{Got, count, negative, mi_getline}

-- The text of a stream record.
unfoldable pub get_cstr : Results → Option Bytes
get_cstr (result var (t_const s) rs) = s
get_cstr _ = none

-- The responses to "show" that are only sent to the console: the text that makes `catch_console` 0 is
-- kept. `strdup` may be refused.
caught : Handle → Bytes → Bool → Handle
caught h text given = record h {
  catch_console = 0;
  catched_console = if given then some text else none;
}

catch_text : Option Bytes → ℕ → Handle → M Handle
unfolding caught
catch_text none n h = pure h
catch_text (some text) zero h = pure h
catch_text (some text) (suc zero) h = do given ← sys_alloc; pure (caught h text given)
catch_text (some text) (suc (suc n)) h = pure (record h { catch_console = suc n })

-- Tunneled streams: by sub-subtype.
stream_out : Output → Handle → M Handle
unfolding get_cstr catch_text call
stream_out o h =
    let text = get_cstr o.c in
    if o.sstype == mi_sst_console
    then catch_text text h.catch_console (call h.callbacks.has_console (console text) h)
    else if o.sstype == mi_sst_target
    then pure (call h.callbacks.has_target (target text) h)
    else if o.sstype == mi_sst_log
    then pure (call h.callbacks.has_log (log text) h)
    else pure h

-- `mi_error_from_gdb`: the text of a leading `msg`.
set_message : Option Bytes → M (Unit {0})
set_message message w = ret tt (record w { error_from_gdb = message })

copy_message : Bytes → M (Unit {0})
unfolding set_message
copy_message text = do given ← sys_alloc; set_message (if given then some text else none)

record_message : Results → M (Unit {0})
unfolding copy_message
record_message no_results = set_message none
record_message (result none v rs) = crash
record_message (result (some var) (t_const (some text)) rs) =
    if str_eq var (codes "msg") then copy_message text else set_message none
record_message (result (some var) (t_const none) rs) =
    if str_eq var (codes "msg") then crash else set_message none
record_message (result (some var) _ rs) = set_message none

-- Error from gdb, record it.
gdb_error : Results → M (Unit {0})
unfolding record_message
gdb_error c w = record_message c (record w { error = mi_from_gdb; error_from_gdb = none })

is_error : Output → Bool
is_error o = o.type == mi_t_result_record && o.tclass == mi_cl_error

unfoldable pub is_exit : Output → Bool
is_exit o = o.type == mi_t_result_record && o.tclass == mi_cl_exit

unfoldable pub is_stream : Output → Bool
is_stream o = o.type == mi_t_out_of_band && o.stype == mi_st_stream

is_async : Output → Bool
is_async o = o.type == mi_t_out_of_band && o.stype == mi_st_async

-- `if (h->last) h->last->next=o; else h->po=o; h->last=o;`
unfoldable pub add_output : Output → Handle → Handle
add_output o h = record h { po = if h.has_last then h.po ++ o ∷ [] else o ∷ []; has_last = true }

-- A record that is no stream: the side effects of its kind.
note_record : Output → Handle → M Handle
unfolding is_async is_error gdb_error call
note_record o h =
    if is_async o
    then pure (call h.callbacks.has_async (async o) h)
    else if is_error o
    then (do _ ← gdb_error o.c; pure h)
    else pure h

-- What `mi_get_response` does with a parsed record; whether the response is complete.
unfoldable pub deliver : Output → Handle → M (Bool × Handle)
unfolding is_stream is_exit stream_out note_record add_output
deliver o h =
    if is_stream o
    then (do h' ← stream_out o h; pure (is_exit o, h'))
    else (do h' ← note_record o h; pure (is_exit o, add_output o h'))

after_parse : Handle → Option Output → M (Bool × Handle)
unfolding deliver
after_parse h none = pure (false, h)
after_parse h (some o) = deliver o h

is_prompt : Bytes → Bool
unfolding strip
is_prompt s = elim (strip (codes "(gdb)") s) [ none ↦ false | some rest ↦ true ]

-- The prompt ends the response; any other line is parsed.
handle_text : Handle → Bytes → M (Bool × Handle)
unfolding is_prompt mi_parse_gdb_output after_parse
handle_text h s =
    if is_prompt s then pure (true, h) else (do o ← mi_parse_gdb_output s; after_parse h o)

-- A line that is not empty: echo it, and see what it is.
handle_line : Handle → M (Bool × Handle)
unfolding call handle_text
handle_line h =
    let h' = call h.callbacks.has_from_gdb_echo (from_gdb_echo h.line) h in handle_text h' h'.line

-- -1, after a refused `realloc`, is not 0: `strncmp` reads through the null `h->line`.
after_line : Got × Handle → M (Bool × Handle)
unfolding handle_line
after_line (negative, h) = crash
after_line (count zero, h) = pure (false, h)
after_line (count (suc n), h) = handle_line h

unfoldable pub mi_get_response : Handle → M (Bool × Handle)
unfolding after_line mi_getline
mi_get_response h = do r ← mi_getline h; after_line r

unfoldable pub mi_retire_response : Handle → List Output × Handle
mi_retire_response h = (h.po, record h { po = []; has_last = false })
