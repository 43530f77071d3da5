-- ===== src/Parse/Records/Fuel.antt =====
-- The parser of records ends on every line, with any allocator.
use libmigdb.Base.{
  ℕ, zero, suc, ◌+◌, ◌*◌, ◌≤◌, Bytes, length, ◌==◌, if◌then◌else◌, Bool, true, false, Option, none,
  some, [], ◌∷◌, ◌≢◌, arith,
}
use libmigdb.World.{M, World, out_of_fuel, pure, fail, mi_parser, ◌>>=◌}
use libmigdb.World.Ensures.{
  Ensures, holds, faulted, Ensures-if, Ensures-continue, Ensures-ne-out_of_fuel, mi_calloc-Ensures,
}
use libmigdb.Tree.{
  Value, Output, mi_alloc_output, mi_t_out_of_band, mi_t_result_record, mi_st_async, mi_st_stream,
  mi_sst_exec, mi_sst_status, mi_sst_notify, mi_sst_console, mi_sst_target, mi_sst_log,
}
use libmigdb.Parse.Cstring.{Ptr, at, past, mi_get_cstring_r}
use libmigdb.Parse.Cstring.Fuel.{Left, mi_get_cstring_r-Ensures}
use libmigdb.Parse.Values.{Chain, new_chain, link}
use libmigdb.Parse.Values.Fuel.{LeftByResult, mi_get_result-Ensures}
use libmigdb.Parse.Records.{
  results_step, results_at, results_alone, mi_get_results_alone, result_class, of_result_class,
  mi_parse_result_record, async_class, of_async_class, mi_parse_asyn, console_text, mi_console,
  parse_type, parse_allocated, mi_parse_gdb_output,
}

-- The run ends.
abbrev Ends {ℓ} : {A : Type ℓ} → M A → Type ℓ
Ends m = (w : World) → Ensures (λ _. Unit {0}) (m w)

results_step-Ends :
    (n : ℕ) (loop : Chain → Ptr → M (Option Output)) (r : Output) (ch : Chain)
    (rs : Option (Bytes × Value × Ptr))
    → ((ch' : Chain) (p : Ptr) → Left n p → Ends (loop ch' p))
    → LeftByResult n rs
    → Ends (results_step loop r ch rs)
unfolding results_step
results_step-Ends n loop r ch none k h w = holds tt
results_step-Ends n loop r ch (some (name, v, p)) k h w = k (link ch (some name) v) p h w

results_at-Ends :
    (loop : Chain → Ptr → M (Option Output)) (f : ℕ) (r : Output) (ch : Chain) (s : Bytes)
    → 3 * length s ≤ f + 1
    → ((ch' : Chain) (p : Ptr) → Left (length s) p → Ends (loop ch' p))
    → Ends (results_at loop f r ch s)
unfolding results_at
results_at-Ends loop f r ch [] b k w = holds tt
results_at-Ends loop f r ch (c ∷ s) b k w =
    Ensures-if (c == b',')
      (λ _. Ensures-continue (mi_get_result-Ensures f s w (omega arith)) λ rs w₁ h.
        results_step-Ends (length s) loop r ch rs (λ ch' p l. k ch' p (Left-suc p l)) h w₁)
      λ _. holds tt
  where
    Left-suc : (p : Ptr) → Left (length s) p → Left (suc (length s)) p
    Left-suc (at t) l = omega arith
    Left-suc past l = tt

results_alone-Ends :
    (f : ℕ) (r : Output) (ch : Chain) (p : Ptr) (n : ℕ)
    → 3 * n + 1 ≤ f
    → Left n p
    → Ends (results_alone f r ch p)
unfolding results_alone
results_alone-Ends zero r ch p n b h w = absurd (omega arith)
results_alone-Ends (suc f) r ch past n b h w = faulted
results_alone-Ends (suc f) r ch (at s) n b h w =
    results_at-Ends (results_alone f r) f r ch s (omega arith)
      (λ ch' p l. results_alone-Ends f r ch' p (length s) (omega arith) l) w

mi_get_results_alone-Ends : (r : Output) (s : Bytes) → Ends (mi_get_results_alone r s)
unfolding mi_get_results_alone
mi_get_results_alone-Ends r s w =
    results_alone-Ends _ r new_chain (at s) (suc (length s)) (omega arith) (omega arith) w

of_result_class-Ends : (r : Output) (cl : Option (ℕ × Bytes)) → Ends (of_result_class r cl)
unfolding of_result_class
of_result_class-Ends r none w = holds tt
of_result_class-Ends r (some (cl, rest)) w = mi_get_results_alone-Ends _ rest w

mi_parse_result_record-Ends : (r : Output) (s : Bytes) → Ends (mi_parse_result_record r s)
unfolding mi_parse_result_record
mi_parse_result_record-Ends r s w =
    of_result_class-Ends (record r { type = mi_t_result_record }) (result_class s) w

of_async_class-Ends : (r : Output) (cl : Option (ℕ × Bytes)) → Ends (of_async_class r cl)
unfolding of_async_class
of_async_class-Ends r none w = holds tt
of_async_class-Ends r (some (cl, rest)) w = mi_get_results_alone-Ends _ rest w

mi_parse_asyn-Ends : (r : Output) (s : Bytes) → Ends (mi_parse_asyn r s)
unfolding mi_parse_asyn
mi_parse_asyn-Ends r s w =
    of_async_class-Ends (record r { type = mi_t_out_of_band; stype = mi_st_async }) (async_class s)
      w

console_text-Ends : (r : Output) (text : Option (Value × Ptr)) → Ends (console_text r text)
unfolding console_text
console_text-Ends r none w = holds tt
console_text-Ends r (some (v, p)) w = holds tt

console_given-Ends :
    (r : Output) (s : Bytes) (given : Bool)
    → Ends (if given then (do text ← mi_get_cstring_r s; console_text r text) else pure none)
console_given-Ends r s true w =
    Ensures-continue (mi_get_cstring_r-Ensures s w) λ text w₁ _. console_text-Ends r text w₁
console_given-Ends r s false w = holds tt

mi_console-Ends : (r : Output) (s : Bytes) → Ends (mi_console r s)
unfolding mi_console
mi_console-Ends r s w = Ensures-continue (mi_calloc-Ensures w) λ given w₁ _.
    console_given-Ends (record r { type = mi_t_out_of_band; stype = mi_st_stream }) s given w₁

Ends-if {ℓ} : {A : Type ℓ} (b : Bool) {m n : M A} → Ends m → Ends n → Ends (if b then m else n)
Ends-if true h k = h
Ends-if false h k = k

fail-Ends {ℓ} : {A : Type ℓ} (e : ℕ) → Ends (fail {A = A} e)
fail-Ends e w = holds tt

abbrev of_sst : ℕ → Output
of_sst k = record mi_alloc_output { sstype = k }

parse_type-Ends : (c : ℕ) (s : Bytes) → Ends (parse_type c s)
unfolding parse_type
parse_type-Ends c s = Ends-if (c == b'^') (mi_parse_result_record-Ends mi_alloc_output s) (
    Ends-if (c == b'*') (mi_parse_asyn-Ends (of_sst mi_sst_exec) s) (
      Ends-if (c == b'+') (mi_parse_asyn-Ends (of_sst mi_sst_status) s) (
        Ends-if (c == b'=') (mi_parse_asyn-Ends (of_sst mi_sst_notify) s) (
          Ends-if (c == b'~') (mi_console-Ends (of_sst mi_sst_console) s) (
            Ends-if (c == b'@') (mi_console-Ends (of_sst mi_sst_target) s) (
              Ends-if (c == b'&') (mi_console-Ends (of_sst mi_sst_log) s)
                (fail-Ends mi_parser)))))))

parse_allocated-Ends : (given : Bool) (s : Bytes) → Ends (parse_allocated given s)
unfolding parse_allocated
parse_allocated-Ends false s w = holds tt
parse_allocated-Ends true [] w = holds tt
parse_allocated-Ends true (c ∷ s) w = parse_type-Ends c s w

-- The parser ends on every line and with every behaviour of the allocator: the fuel that the model
-- hands out is always enough.
pub mi_parse_gdb_output-ne-out_of_fuel :
    (s : Bytes) (w : World) → mi_parse_gdb_output s w ≢ out_of_fuel
unfolding mi_parse_gdb_output
mi_parse_gdb_output-ne-out_of_fuel s w =
    Ensures-ne-out_of_fuel
      (Ensures-continue (mi_calloc-Ensures w) λ given w₁ _. parse_allocated-Ends given s w₁)
