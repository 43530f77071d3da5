-- ===== src/Tests/Parser.antt =====
-- The parser at concrete lines.
use libmigdb.Base.{◌≡◌, ◌≢◌, refl, true, codes, none, some, [], ◌∷◌, ◌++◌, arith}
use libmigdb.World.{World, ret, fault, out_of_fuel, mi_calloc}
use libmigdb.Tree.{Value, t_const, t_tuple, t_list, no_results, result}
use libmigdb.Parse.Cstring.{at, delimited, copy, measure, end_of_str, mi_get_cstring_r}
use libmigdb.Parse.Cstring.Laws.{copy-measure, mi_get_cstring_r-quote, written}
use libmigdb.Parse.Print.{
  quote, escape, print_value, print_line, output_of, Line, result_record, error, done, IsPrintable,
  AreResults,
}
use libmigdb.Parse.Values.{
  mi_is_var_name_char, mi_get_var_name, valued, after_result, after_value, mi_get_value,
}
use libmigdb.Parse.Values.RoundTrip.{mi_get_value-print}
use libmigdb.Parse.Records.{mi_parse_gdb_output}
use libmigdb.Parse.Records.RoundTrip.{mi_parse_gdb_output-print_line}
use libmigdb.Parse.Records.Fuel.{mi_parse_gdb_output-ne-out_of_fuel}
use libmigdb.Parse.Records.Overrun.{mi_parse_gdb_output-open}

abbrev pub calm : World
calm = record { error = 0; error_from_gdb = none; refusals = [] }

-- `{a="x\"y",b=["1",{}]}`
abbrev sample : Value
sample = t_tuple (
    result (some (codes "a")) (t_const (some (codes "x\"y"))) (
      result (some (codes "b"))
        (t_list
          (result none (t_const (some (codes "1"))) (result none (t_tuple no_results) no_results)))
        no_results))

sample-IsPrintable : IsPrintable sample
unfolding IsPrintable mi_is_var_name_char
sample-IsPrintable = (((refl, tt), refl), tt, (((refl, tt), refl), (tt, (tt, tt, tt)), tt))

abbrev sample_line : Line
sample_line = result_record done (result (some (codes "a")) sample no_results)

sample_line-AreResults : AreResults (result (some (codes "a")) sample no_results)
unfolding IsPrintable mi_is_var_name_char
sample_line-AreResults = (((refl, tt), refl), sample-IsPrintable, tt)

print-sample : print_value sample ≡ codes "{a=\"x\\\"y\",b=[\"1\",{}]}"
unfolding print_value
print-sample = refl

parse-sample :
    mi_parse_gdb_output (codes "^done,a={a=\"x\\\"y\",b=[\"1\",{}]}") calm
    ≡ ret (some (output_of sample_line)) calm
unfolding mi_parse_gdb_output mi_calloc mi_get_var_name valued measure end_of_str copy after_result
    after_value output_of
parse-sample = refl

overrun : mi_parse_gdb_output (codes "^done,a=\"x") calm ≡ fault
unfolding mi_parse_gdb_output mi_calloc mi_get_var_name valued measure end_of_str copy
overrun = refl

mi_get_value-print_example :
    mi_get_value 100 (print_value sample ++ codes ",c") calm
    ≡ ret (some (sample, at (codes ",c"))) calm
mi_get_value-print_example =
    mi_get_value-print sample 100 (codes ",c") calm sample-IsPrintable refl
      (unfold print_value in omega arith) (unfold delimited in refl)

mi_parse_gdb_output-print_line_example :
    mi_parse_gdb_output (print_line sample_line) calm ≡ ret (some (output_of sample_line)) calm
mi_parse_gdb_output-print_line_example =
    mi_parse_gdb_output-print_line sample_line calm sample_line-AreResults refl

-- Every allocation is refused.
mi_parse_gdb_output-ne-out_of_fuel_example :
    mi_parse_gdb_output (codes "^done,a={b=[,]}") (record calm { refusals = true ∷ true ∷ [] })
    ≢ out_of_fuel
mi_parse_gdb_output-ne-out_of_fuel_example =
    mi_parse_gdb_output-ne-out_of_fuel (codes "^done,a={b=[,]}")
      (record calm { refusals = true ∷ true ∷ [] })

mi_parse_gdb_output-open_example :
    mi_parse_gdb_output (codes "^error,a=" ++ b'"' ∷ escape (codes "no end")) calm ≡ fault
mi_parse_gdb_output-open_example =
    mi_parse_gdb_output-open error (codes "a") (codes "no end") calm
      (unfold mi_is_var_name_char in ((refl, tt), refl)) refl

copy-measure_example : written (copy (codes "a\\nb\",c")) ≡ measure (codes "a\\nb\",c")
copy-measure_example = copy-measure (codes "a\\nb\",c")

mi_get_cstring_r-quote_example :
    mi_get_cstring_r (quote (codes "a\n\"") ++ codes "}") calm
    ≡ ret (some (t_const (some (codes "a\n\"")), at (codes "}"))) calm
mi_get_cstring_r-quote_example =
    mi_get_cstring_r-quote (codes "a\n\"") (codes "}") calm refl (unfold delimited in refl)
