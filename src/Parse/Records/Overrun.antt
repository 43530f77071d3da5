-- ===== src/Parse/Records/Overrun.antt =====
-- A line whose last string lacks its closing quote is read past its end (src/parse.c).
use libmigdb.Base.{ℕ, suc, ◌+◌, ◌*◌, Bytes, length, some, ◌∷◌, ◌++◌, ◌≡◌, ap, ◌∙◌, arith}
use libmigdb.World.{World, Plenty, fault, ret, mi_calloc-Plenty}
use libmigdb.Tree.{t_const, Output}
use libmigdb.Parse.Cstring.{at, past}
use libmigdb.Parse.Cstring.Laws.{mi_get_cstring_r-open}
use libmigdb.Parse.Print.{label, escape, IsName, ResultClass, done, result_class_name}
use libmigdb.Parse.Values.{new_chain, mi_get_value, valued, mi_get_result}
use libmigdb.Parse.Values.Steps.{mi_get_var_name-label}
use libmigdb.Parse.Records.{results_alone, mi_get_results_alone, mi_parse_gdb_output}

mi_get_result-open :
    (name s : Bytes) (f : ℕ) (w : World)
    → IsName name
    → Plenty w
    → mi_get_result (suc (suc f)) (label (some name) ++ b'"' ∷ escape s) w
      ≡ ret (some (name, t_const (some s), past)) w
unfolding mi_get_value valued
mi_get_result-open name s f w n h = rw (
  mi_get_var_name-label name (b'"' ∷ escape s) w h n.0,
  mi_calloc-Plenty w h,
  mi_get_cstring_r-open s w h,
)

results_alone-open :
    (name s : Bytes) (f : ℕ) (r : Output) (w : World)
    → IsName name
    → Plenty w
    → results_alone
        (suc (suc (suc (suc f))))
        r
        new_chain
        (at (b',' ∷ (label (some name) ++ b'"' ∷ escape s)))
        w
      ≡ fault
unfolding results_alone
results_alone-open name s f r w n h = rw (mi_get_result-open name s (suc f) w n h)

fuel_four : (n : ℕ) → 3 * n + 5 ≡ suc (suc (suc (suc (3 * n + 1))))
fuel_four n = omega arith

mi_get_results_alone-open :
    (name s : Bytes) (r : Output) (w : World)
    → IsName name
    → Plenty w
    → mi_get_results_alone r (b',' ∷ (label (some name) ++ b'"' ∷ escape s)) w ≡ fault
unfolding mi_get_results_alone
mi_get_results_alone-open name s r w n h =
    let text = b',' ∷ (label (some name) ++ b'"' ∷ escape s) in
    ap (λ f. results_alone f r new_chain (at text) w) (fuel_four (length text))
    ∙ results_alone-open name s (3 * length text + 1) r w n h

-- With memory to spare, a result record that ends inside a quoted string makes the parser read behind
-- the terminating NUL, whatever its class, the name of the result and the text.
pub mi_parse_gdb_output-open :
    (cl : ResultClass) (name s : Bytes) (w : World)
    → IsName name
    → Plenty w
    → mi_parse_gdb_output
        (b'^' ∷ (result_class_name cl ++ b',' ∷ (label (some name) ++ b'"' ∷ escape s)))
        w
      ≡ fault
unfolding mi_parse_gdb_output
mi_parse_gdb_output-open done name s w n h =
    rw (mi_calloc-Plenty w h, mi_get_results_alone-open name s _ w n h)
mi_parse_gdb_output-open _ name s w n h =
    rw (mi_calloc-Plenty w h, mi_get_results_alone-open name s _ w n h)
