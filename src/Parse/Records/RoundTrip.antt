-- ===== src/Parse/Records/RoundTrip.antt =====
-- Every line that Parse/Print writes parses to the `mi_output` that stands for it.
use libmigdb.Base.{
  ℕ, zero, suc, ◌+◌, ◌*◌, ◌≤◌, Bytes, length, true, none, some, [], ◌∷◌, ◌++◌, ◌≡◌, refl, ap, ◌∙◌,
  arith, append-nil, sym,
}
use libmigdb.World.{World, Plenty, ret, mi_calloc-Plenty}
use libmigdb.Tree.{
  t_const, Results, no_results, result, append, append_result, append-no_results, Output,
  mi_alloc_output, mi_t_out_of_band, mi_st_async,
}
use libmigdb.Parse.Cstring.{at, delimited, mi_get_cstring_r}
use libmigdb.Parse.Cstring.Laws.{mi_get_cstring_r-quote}
use libmigdb.Parse.Print.{
  label, print_value, print_results, AreResults, Line, result_record, async_record, stream_record,
  AsyncKind, exec, AsyncClass, async_class_name, async_class_code, StreamKind, status, notify,
  async_code, stopped, console, quote, print_line, output_of, IsPrintableLine, ResultClass, done,
}
use libmigdb.Parse.Values.{Chain, new_chain, link}
use libmigdb.Parse.Values.RoundTrip.{mi_get_result-print}
use libmigdb.Parse.Values.Steps.{length_bytes}
use libmigdb.Parse.Records.{results_alone, mi_get_results_alone, mi_parse_asyn, mi_parse_gdb_output}

delimited-print_results : (rs : Results) → delimited (print_results rs) ≡ true
unfolding delimited print_results
delimited-print_results no_results = refl
delimited-print_results (result var v rs) = refl

abbrev linked_to : Results → Chain
linked_to xs = record { items = xs; linked = true }

length_result :
    (name s t : Bytes)
    → length (label (some name) ++ (s ++ t)) ≡ length name + 1 + length s + length t
length_result name s t = omega (
  arith,
  length_bytes (label (some name)) (s ++ t),
  length_bytes name (b'=' ∷ []),
  length_bytes s t,
)

-- The loop from a chain that already has nodes.
results_alone-print_results :
    (rs : Results) (f : ℕ) (r : Output) (xs : Results) (w : World)
    → AreResults rs
    → Plenty w
    → 3 * length (print_results rs) + 2 ≤ f
    → results_alone f r (linked_to xs) (at (print_results rs)) w
      ≡ ret (some (record r { c = append xs rs })) w
unfolding results_alone print_results link AreResults
results_alone-print_results no_results zero r xs w n h b = absurd (omega arith)
results_alone-print_results no_results (suc f) r xs w n h b = rw append-no_results
results_alone-print_results (result none v rs) f r xs w n h b = absurd n.0
results_alone-print_results (result (some name) v rs) zero r xs w n h b = absurd (omega arith)
results_alone-print_results (result (some name) v rs) (suc f) r xs w n h b =
    let lens = length_result name (print_value v) (print_results rs) in
    rw
      (mi_get_result-print name v f (print_results rs) w n.0 n.1 h (omega (arith, lens))
        (delimited-print_results rs))
      (results_alone-print_results rs f r (append xs (result (some name) v no_results)) w n.2 h
          (omega (arith, lens))
        ∙ rw append_result)

-- The loop from the start.
results_alone_new :
    (rs : Results) (f : ℕ) (r : Output) (w : World)
    → AreResults rs
    → Plenty w
    → 3 * length (print_results rs) + 2 ≤ f
    → results_alone f r new_chain (at (print_results rs)) w ≡ ret (some (record r { c = rs })) w
unfolding results_alone print_results link append AreResults
results_alone_new no_results zero r w n h b = absurd (omega arith)
results_alone_new no_results (suc f) r w n h b = refl
results_alone_new (result none v rs) f r w n h b = absurd n.0
results_alone_new (result (some name) v rs) zero r w n h b = absurd (omega arith)
results_alone_new (result (some name) v rs) (suc f) r w n h b =
    let lens = length_result name (print_value v) (print_results rs) in
    rw
      (mi_get_result-print name v f (print_results rs) w n.0 n.1 h (omega (arith, lens))
        (delimited-print_results rs))
      (results_alone-print_results rs f r (result (some name) v no_results) w n.2 h
        (omega (arith, lens)))

mi_get_results_alone-print_results :
    (rs : Results) (r : Output) (w : World)
    → AreResults rs
    → Plenty w
    → mi_get_results_alone r (print_results rs) w ≡ ret (some (record r { c = rs })) w
unfolding mi_get_results_alone
mi_get_results_alone-print_results rs r w n h = results_alone_new rs _ r w n h (omega arith)

-- The parser takes the first byte and the class name off each kind of line.
result_line :
    (cl : ResultClass) (rs : Results) (w : World)
    → AreResults rs
    → Plenty w
    → mi_parse_gdb_output (print_line (result_record cl rs)) w
      ≡ ret (some (output_of (result_record cl rs))) w
unfolding mi_parse_gdb_output print_line output_of
result_line done rs w n h = rw (mi_calloc-Plenty w h, mi_get_results_alone-print_results rs _ w n h)
result_line _ rs w n h = rw (mi_calloc-Plenty w h, mi_get_results_alone-print_results rs _ w n h)

asyn_class :
    (cl : AsyncClass) (rs : Results) (r : Output) (w : World)
    → AreResults rs
    → Plenty w
    → mi_parse_asyn r (async_class_name cl ++ print_results rs) w
      ≡ ret
          (some (record r {
            type = mi_t_out_of_band;
            stype = mi_st_async;
            tclass = async_class_code cl;
            c = rs;
          }))
          w
unfolding mi_parse_asyn
asyn_class stopped rs r w n h = rw (mi_get_results_alone-print_results rs _ w n h)
asyn_class _ rs r w n h = rw (mi_get_results_alone-print_results rs _ w n h)

abbrev of_kind : AsyncKind → Output
of_kind k = record mi_alloc_output { sstype = async_code k }

async_line :
    (k : AsyncKind) (cl : AsyncClass) (rs : Results) (w : World)
    → AreResults rs
    → Plenty w
    → mi_parse_gdb_output (print_line (async_record k cl rs)) w
      ≡ ret (some (output_of (async_record k cl rs))) w
unfolding mi_parse_gdb_output print_line output_of
async_line exec cl rs w n h = rw (mi_calloc-Plenty w h) (asyn_class cl rs (of_kind exec) w n h)
async_line status cl rs w n h = rw (mi_calloc-Plenty w h) (asyn_class cl rs (of_kind status) w n h)
async_line notify cl rs w n h = rw (mi_calloc-Plenty w h) (asyn_class cl rs (of_kind notify) w n h)

quote_alone :
    (s : Bytes) (w : World)
    → Plenty w
    → mi_get_cstring_r (quote s) w ≡ ret (some (t_const (some s), at [])) w
unfolding delimited
quote_alone s w h =
    ap (λ (t : Bytes). mi_get_cstring_r t w) (sym (append-nil (quote s)))
    ∙ mi_get_cstring_r-quote s [] w h refl

stream_line :
    (k : StreamKind) (s : Bytes) (w : World)
    → Plenty w
    → mi_parse_gdb_output (print_line (stream_record k s)) w
      ≡ ret (some (output_of (stream_record k s))) w
unfolding mi_parse_gdb_output print_line output_of
stream_line console s w h = rw (mi_calloc-Plenty w h, mi_calloc-Plenty w h, quote_alone s w h)
stream_line _ s w h = rw (mi_calloc-Plenty w h, mi_calloc-Plenty w h, quote_alone s w h)

-- With memory to spare, each printed line parses to the `mi_output` that stands for it: a line without
-- token, with a result record of any class, an async record of any kind and of the class `stopped` or
-- `download`, or a stream, with any printable results and any text, in which newline, tab, quote and
-- backslash are escaped and the other bytes are left as they are; `mi_error` stays as it was.
pub mi_parse_gdb_output-print_line :
    (l : Line) (w : World)
    → IsPrintableLine l
    → Plenty w
    → mi_parse_gdb_output (print_line l) w ≡ ret (some (output_of l)) w
mi_parse_gdb_output-print_line (result_record cl rs) w n h = result_line cl rs w n h
mi_parse_gdb_output-print_line (async_record k cl rs) w n h = async_line k cl rs w n h
mi_parse_gdb_output-print_line (stream_record k s) w n h = stream_line k s w h
