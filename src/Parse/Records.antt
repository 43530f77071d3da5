-- ===== src/Parse/Records.antt =====
-- Records: `mi_get_results_alone`, the result and out-of-band records, and `mi_parse_gdb_output`
-- (src/parse.c).
pub mod RoundTrip
pub mod Overrun
pub mod Fuel
use libmigdb.Base.{
  ℕ, zero, suc, ◌+◌, ◌*◌, Bytes, codes, strip, length, ◌==◌, if◌then◌else◌, Bool, Option, none,
  some, [], ◌∷◌,
}
use libmigdb.World.{
  M, out_of_fuel, pure, fail, mi_calloc, mi_out_of_memory, mi_parser, mi_unknown_async,
  mi_unknown_result, ◌>>=◌,
}
use libmigdb.Tree.{
  Value, no_results, result, Output, mi_alloc_output, mi_t_out_of_band, mi_t_result_record,
  mi_st_async, mi_st_stream, mi_sst_exec, mi_sst_status, mi_sst_notify, mi_sst_console,
  mi_sst_target, mi_sst_log, mi_cl_stopped, mi_cl_download, mi_cl_done, mi_cl_running,
  mi_cl_connected, mi_cl_error, mi_cl_exit,
}
use libmigdb.Parse.Cstring.{Ptr, at, deref, mi_get_cstring_r}
use libmigdb.Parse.Values.{Chain, new_chain, link, mi_get_result}

-- The loop of `mi_get_results_alone` at a string that can be read; `loop` is the next iteration.
results_step :
    (Chain → Ptr → M (Option Output))
    → Output
    → Chain
    → Option (Bytes × Value × Ptr)
    → M (Option Output)
unfolding link
results_step loop r ch none = pure none
results_step loop r ch (some (var, v, p)) = loop (link ch (some var) v) p

results_at : (Chain → Ptr → M (Option Output)) → ℕ → Output → Chain → Bytes → M (Option Output)
unfolding results_step mi_get_result
results_at loop f r ch [] w = pure (some (record r { c = ch.items })) w
results_at loop f r ch (c ∷ s) w =
    let more = (do rs ← mi_get_result f s; results_step loop r ch rs) w in
    if c == b',' then more else fail mi_parser w

-- The results behind a class name, each after a comma, up to the end of the string.
unfoldable pub results_alone : ℕ → Output → Chain → Ptr → M (Option Output)
unfolding results_at deref
results_alone zero r ch p w = out_of_fuel
results_alone (suc f) r ch p w = (do s ← deref p; results_at (results_alone f r) f r ch s) w

-- Fuel for every call on a string of `n` bytes.
abbrev pub fuel_for : ℕ → ℕ
fuel_for n = 3 * n + 5

unfoldable pub mi_get_results_alone : Output → Bytes → M (Option Output)
unfolding results_alone
mi_get_results_alone r s = results_alone (fuel_for (length s)) r new_chain (at s)

-- The ladder of `strncmp`s: the class, and the string behind it.
result_class : Bytes → Option (ℕ × Bytes)
unfolding strip
result_class s = elim (strip (codes "done") s) [
  | some rest ↦ some (mi_cl_done, rest)
  | none ↦ elim (strip (codes "running") s) [
    | some rest ↦ some (mi_cl_running, rest)
    | none ↦ elim (strip (codes "connected") s) [
      | some rest ↦ some (mi_cl_connected, rest)
      | none ↦ elim (strip (codes "error") s) [
        | some rest ↦ some (mi_cl_error, rest)
        | none ↦ elim (strip (codes "exit") s) [ some rest ↦ some (mi_cl_exit, rest) | none ↦ none ]
      ]
    ]
  ]
]

of_result_class : Output → Option (ℕ × Bytes) → M (Option Output)
of_result_class r none = fail mi_unknown_result
of_result_class r (some (cl, rest)) = mi_get_results_alone (record r { tclass = cl }) rest

unfoldable pub mi_parse_result_record : Output → Bytes → M (Option Output)
unfolding of_result_class result_class mi_get_results_alone
mi_parse_result_record r s =
    of_result_class (record r { type = mi_t_result_record }) (result_class s)

async_class : Bytes → Option (ℕ × Bytes)
unfolding strip
async_class s = elim (strip (codes "stopped") s) [
  | some rest ↦ some (mi_cl_stopped, rest)
  | none ↦ elim (strip (codes "download") s) [
    | some rest ↦ some (mi_cl_download, rest)
    | none ↦ none
  ]
]

of_async_class : Output → Option (ℕ × Bytes) → M (Option Output)
of_async_class r none = fail mi_unknown_async
of_async_class r (some (cl, rest)) = mi_get_results_alone (record r { tclass = cl }) rest

unfoldable pub mi_parse_asyn : Output → Bytes → M (Option Output)
unfolding of_async_class async_class mi_get_results_alone
mi_parse_asyn r s =
    of_async_class (record r { type = mi_t_out_of_band; stype = mi_st_async }) (async_class s)

unfoldable pub mi_parse_exec_asyn : Output → Bytes → M (Option Output)
unfolding mi_parse_asyn
mi_parse_exec_asyn r s = mi_parse_asyn (record r { sstype = mi_sst_exec }) s

unfoldable pub mi_parse_status_asyn : Output → Bytes → M (Option Output)
unfolding mi_parse_asyn
mi_parse_status_asyn r s = mi_parse_asyn (record r { sstype = mi_sst_status }) s

unfoldable pub mi_parse_notify_asyn : Output → Bytes → M (Option Output)
unfolding mi_parse_asyn
mi_parse_notify_asyn r s = mi_parse_asyn (record r { sstype = mi_sst_notify }) s

-- A stream record holds one node with no name; the end of its string is not looked at.
console_text : Output → Option (Value × Ptr) → M (Option Output)
console_text r none = pure none
console_text r (some (v, p)) = pure (some (record r { c = result none v no_results }))

unfoldable pub mi_console : Output → Bytes → M (Option Output)
unfolding console_text mi_get_cstring_r
mi_console r s = do
  given ← mi_calloc
  let r' = record r { type = mi_t_out_of_band; stype = mi_st_stream }
  if given then (do text ← mi_get_cstring_r s; console_text r' text) else pure none

unfoldable pub mi_console_stream : Output → Bytes → M (Option Output)
unfolding mi_console
mi_console_stream r s = mi_console (record r { sstype = mi_sst_console }) s

unfoldable pub mi_target_stream : Output → Bytes → M (Option Output)
unfolding mi_console
mi_target_stream r s = mi_console (record r { sstype = mi_sst_target }) s

unfoldable pub mi_log_stream : Output → Bytes → M (Option Output)
unfolding mi_console
mi_log_stream r s = mi_console (record r { sstype = mi_sst_log }) s

-- The `switch` on the first byte.
parse_type : ℕ → Bytes → M (Option Output)
unfolding mi_parse_result_record mi_parse_exec_asyn mi_parse_status_asyn mi_parse_notify_asyn
    mi_console_stream mi_target_stream mi_log_stream
parse_type c s =
    if c == b'^'
    then mi_parse_result_record mi_alloc_output s
    else if c == b'*'
    then mi_parse_exec_asyn mi_alloc_output s
    else if c == b'+'
    then mi_parse_status_asyn mi_alloc_output s
    else if c == b'='
    then mi_parse_notify_asyn mi_alloc_output s
    else if c == b'~'
    then mi_console_stream mi_alloc_output s
    else if c == b'@'
    then mi_target_stream mi_alloc_output s
    else if c == b'&'
    then mi_log_stream mi_alloc_output s
    else fail mi_parser

parse_allocated : Bool → Bytes → M (Option Output)
unfolding parse_type
parse_allocated Bool.false s = fail mi_out_of_memory
parse_allocated Bool.true [] = fail mi_parser
parse_allocated Bool.true (c ∷ s) = parse_type c s

unfoldable pub mi_parse_gdb_output : Bytes → M (Option Output)
unfolding parse_allocated
mi_parse_gdb_output s = do given ← mi_calloc; parse_allocated given s
