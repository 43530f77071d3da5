-- ===== src/Parse/Values/RoundTrip.antt =====
-- What gdb writes parses to the value written, and the parser stops right behind it.
use libmigdb.Base.{
  ℕ, zero, suc, ◌+◌, ◌*◌, ◌≤◌, Bytes, length, starts, true, false, ==_refl, Option, none, some, [],
  ◌∷◌, ◌++◌, ◌≡◌, refl, ap, ◌∙◌, arith, append_assoc,
}
use libmigdb.World.{M, World, Plenty, ret, mi_calloc-Plenty}
use libmigdb.Tree.{
  Value, Results, t_const, t_tuple, t_list, no_results, result, append, append_result,
  append-no_results,
}
use libmigdb.Parse.Cstring.{Ptr, at, delimited}
use libmigdb.Parse.Cstring.Laws.{mi_get_cstring_r-quote}
use libmigdb.Parse.Print.{
  label, print_value, print_seq, print_more, IsName, IsPrintable, AreResults, AreValues,
}
use libmigdb.Parse.Values.{
  starts_name, Chain, new_chain, link, after_item, valued, mi_get_value, mi_get_tuple, mi_get_list,
  mi_get_list_res, mi_get_list_val, mi_get_result,
}
use libmigdb.Parse.Values.Steps.{
  value_fuel, Closes, delimited-print_more, linked_to, ReadsValue, ReadsMore, list_res_step,
  list_val_step, starts-close_name, starts_name-append, starts_name-print_value, seq_assoc,
  Closes-brace, Closes-bracket, length-print_more_pos, length-print_value_pos, length_bytes,
  mi_get_var_name-label,
}

ruleset lengths = (arith, length_bytes)

-- The whole of a tuple, or of a list of results, behind its opening byte.
list_res-print_seq :
    (close f : ℕ) (name : Bytes) (v : Value) (rs : Results) (rest : Bytes) (w : World)
    → Closes close
    → Plenty w
    → IsName name
    → ReadsValue v
    → ReadsMore (λ k. mi_get_list_res k close) close rs
    → value_fuel (print_seq close (result (some name) v rs)) ≤ f
    → mi_get_list_res f close new_chain (print_seq close (result (some name) v rs) ++ rest) w
      ≡ ret (some (result (some name) v rs, at rest)) w
unfolding print_value append link
list_res-print_seq close zero name v rs rest w c h n read_v read_rs b = absurd (omega arith)
list_res-print_seq close (suc zero) name v rs rest w c h n read_v read_rs b = absurd (omega arith)
list_res-print_seq close (suc (suc f)) name v rs rest w c h n read_v read_rs b =
    ap (λ (s : Bytes). mi_get_list_res (suc (suc f)) close new_chain s w)
      (seq_assoc (label (some name)) (print_value v) (print_more close rs) rest)
    ∙ list_res_step close f new_chain name v (print_more close rs ++ rest) w h n.0
        (read_v f _ w h (omega lengths) (delimited-print_more close rs rest c))
    ∙ read_rs (suc f) (result (some name) v no_results) rest w h (omega lengths)

list_val-print_seq :
    (f : ℕ) (v : Value) (rs : Results) (rest : Bytes) (w : World)
    → Plenty w
    → IsPrintable v
    → ReadsValue v
    → ReadsMore mi_get_list_val b']' rs
    → value_fuel (print_seq b']' (result none v rs)) ≤ f
    → mi_get_list_val f new_chain (print_seq b']' (result none v rs) ++ rest) w
      ≡ ret (some (result none v rs, at rest)) w
unfolding print_value append link
list_val-print_seq zero v rs rest w h n read_v read_rs b = absurd (omega arith)
list_val-print_seq (suc f) v rs rest w h n read_v read_rs b =
    ap (λ (s : Bytes). mi_get_list_val (suc f) new_chain s w)
      (append_assoc (print_value v) (print_more b']' rs) rest)
    ∙ list_val_step f new_chain v (print_more b']' rs ++ rest) w h (
        read_v f _ w h
          (omega (
            arith,
            length_bytes (print_value v) (print_more b']' rs),
            length-print_more_pos b']' rs,
          ))
          (delimited-print_more b']' rs rest Closes-bracket))
    ∙ read_rs f (result none v no_results) rest w h (
        omega
          (arith, length_bytes (print_value v) (print_more b']' rs), length-print_value_pos v n))

-- A comma, one more element, and the rest of the chain.
results_more :
    (close : ℕ) (name : Bytes) (v : Value) (rs : Results)
    → Closes close
    → IsName name
    → ReadsValue v
    → ReadsMore (λ k. mi_get_list_res k close) close rs
    → ReadsMore (λ k. mi_get_list_res k close) close (result (some name) v rs)
unfolding print_value link after_item
results_more close name v rs c n read_v read_rs zero xs rest w h b = absurd (omega arith)
results_more close name v rs c n read_v read_rs (suc zero) xs rest w h b = absurd (omega arith)
results_more close name v rs c n read_v read_rs (suc (suc f)) xs rest w h b =
    rw (c.1, seq_assoc (label (some name)) (print_value v) (print_more close rs) rest)
      (list_res_step close f (linked_to xs) name v (print_more close rs ++ rest) w h n.0
          (read_v f _ w h (omega lengths) (delimited-print_more close rs rest c))
        ∙ read_rs (suc f) (append xs (result (some name) v no_results)) rest w h (omega lengths)
        ∙ rw append_result)

values_more :
    (v : Value) (rs : Results)
    → IsPrintable v
    → ReadsValue v
    → ReadsMore mi_get_list_val b']' rs
    → ReadsMore mi_get_list_val b']' (result none v rs)
unfolding print_value link after_item
values_more v rs n read_v read_rs zero xs rest w h b = absurd (omega arith)
values_more v rs n read_v read_rs (suc f) xs rest w h b =
    rw (append_assoc (print_value v) (print_more b']' rs) rest) (
      list_val_step f (linked_to xs) v (print_more b']' rs ++ rest) w h (
        read_v f _ w h (omega (arith, length_bytes (print_value v) (print_more b']' rs)))
          (delimited-print_more b']' rs rest Closes-bracket))
      ∙ read_rs f (append xs (result none v no_results)) rest w h
          (omega (arith, length_bytes (print_value v) (print_more b']' rs)))
      ∙ rw append_result)

more_end :
    (loop : ℕ → Chain → Bytes → M (Option (Results × Ptr))) (close : ℕ)
    → ReadsMore loop close no_results
unfolding print_value after_item
more_end loop close f xs rest w h b = rw (==_refl close, append-no_results)

-- The branches of `mi_get_tuple` and `mi_get_list` for what is not empty.
tuple_branch :
    (f : ℕ) (s : Bytes) (rs : Results) (p : Ptr) (w w' : World)
    → starts b'}' s ≡ false
    → mi_get_list_res f b'}' new_chain s w ≡ ret (some (rs, p)) w'
    → mi_get_tuple (suc f) (b'{' ∷ s) w ≡ ret (some (t_tuple rs, p)) w'
unfolding mi_get_value
tuple_branch f s rs p w w' a e = rw (a, e)

results_branch :
    (f : ℕ) (s : Bytes) (rs : Results) (p : Ptr) (w w' : World)
    → starts b']' s ≡ false
    → starts_name s ≡ true
    → mi_get_list_res f b']' new_chain s w ≡ ret (some (rs, p)) w'
    → mi_get_list (suc f) (b'[' ∷ s) w ≡ ret (some (t_list rs, p)) w'
unfolding mi_get_value
results_branch f s rs p w w' a b e = rw (a, b, e)

values_branch :
    (f : ℕ) (s : Bytes) (rs : Results) (p : Ptr) (w w' : World)
    → starts b']' s ≡ false
    → starts_name s ≡ false
    → mi_get_list_val f new_chain s w ≡ ret (some (rs, p)) w'
    → mi_get_list (suc f) (b'[' ∷ s) w ≡ ret (some (t_list rs, p)) w'
unfolding mi_get_value
values_branch f s rs p w w' a b e = rw (a, b, e)

starts_name-print_seq :
    (close : ℕ) (name : Bytes) (v : Value) (rs : Results) (rest : Bytes)
    → IsName name
    → starts_name (print_seq close (result (some name) v rs) ++ rest) ≡ true
unfolding print_value
starts_name-print_seq close name v rs rest n =
    rw
      (
        append_assoc (label (some name)) (print_value v ++ print_more close rs) rest,
        append_assoc name (b'=' ∷ []) ((print_value v ++ print_more close rs) ++ rest),
      )
      (starts_name-append name _ n.1)

starts-print_values :
    (v : Value) (rs : Results) (rest : Bytes)
    → IsPrintable v
    → (starts_name (print_seq b']' (result none v rs) ++ rest) ≡ false)
      × (starts b']' (print_seq b']' (result none v rs) ++ rest) ≡ false)
unfolding print_value
starts-print_values v rs rest n =
    rw (append_assoc (print_value v) (print_more b']' rs) rest)
      (starts_name-print_value v (print_more b']' rs ++ rest) n)

-- A value whose first byte selects a branch of `mi_get_value`.
mutual
  unfolding print_value IsPrintable mi_get_value

  reads_value : (v : Value) → IsPrintable v → ReadsValue v
  reads_value (t_const none) n f rest w h b d = absurd n
  reads_value (t_const (some s)) n zero rest w h b d = absurd (omega arith)
  reads_value (t_const (some s)) n (suc f) rest w h b d = mi_get_cstring_r-quote s rest w h d
  reads_value (t_tuple rs) n zero rest w h b d = absurd (omega arith)
  reads_value (t_tuple rs) n (suc zero) rest w h b d = absurd (omega arith)
  reads_value (t_tuple no_results) n (suc (suc f)) rest w h b d = refl
  reads_value (t_tuple (result none v rs)) n (suc (suc f)) rest w h b d = absurd n.0
  reads_value (t_tuple (result (some name) v rs)) n (suc (suc f)) rest w h b d =
      tuple_branch f _ _ _ w w
        (starts-close_name b'}' _ Closes-brace (starts_name-print_seq b'}' name v rs rest n.0))
        (list_res-print_seq b'}' f name v rs rest w Closes-brace h n.0 (reads_value v n.1)
          (reads_results b'}' rs Closes-brace n.2) (omega arith))
  reads_value (t_list rs) n zero rest w h b d = absurd (omega arith)
  reads_value (t_list rs) n (suc zero) rest w h b d = absurd (omega arith)
  reads_value (t_list no_results) n (suc (suc f)) rest w h b d = refl
  reads_value (t_list (result none v rs)) n (suc (suc f)) rest w h b d =
      let starts = starts-print_values v rs rest n.0 in
      values_branch f _ _ _ w w starts.1 starts.0 (
        list_val-print_seq f v rs rest w h n.0 (reads_value v n.0) (reads_values rs n.1)
          (omega arith))
  reads_value (t_list (result (some name) v rs)) n (suc (suc f)) rest w h b d =
      let starts = starts_name-print_seq b']' name v rs rest n.0 in
      results_branch f _ _ _ w w (starts-close_name b']' _ Closes-bracket starts) starts (
        list_res-print_seq b']' f name v rs rest w Closes-bracket h n.0 (reads_value v n.1)
          (reads_results b']' rs Closes-bracket n.2) (omega arith))

  reads_results :
      (close : ℕ) (rs : Results)
      → Closes close
      → AreResults rs
      → ReadsMore (λ k. mi_get_list_res k close) close rs
  reads_results close no_results c n = more_end (λ k. mi_get_list_res k close) close
  reads_results close (result none v rs) c n = absurd n.0
  reads_results close (result (some name) v rs) c n =
      results_more close name v rs c n.0 (reads_value v n.1) (reads_results close rs c n.2)

  reads_values : (rs : Results) → AreValues rs → ReadsMore mi_get_list_val b']' rs
  reads_values no_results n = more_end mi_get_list_val b']'
  reads_values (result none v rs) n = values_more v rs n.1 (reads_value v n.1) (reads_values rs n.2)
  reads_values (result (some name) v rs) n = absurd n.0

-- With memory to spare and enough fuel, the parser reads a printed value, with all its nested tuples
-- and lists, off the front of the string and stops right behind it, whatever follows that can follow
-- a value.
pub mi_get_value-print :
    (v : Value) (f : ℕ) (rest : Bytes) (w : World)
    → IsPrintable v
    → Plenty w
    → 3 * length (print_value v) + 2 ≤ f
    → delimited rest ≡ true
    → mi_get_value f (print_value v ++ rest) w ≡ ret (some (v, at rest)) w
mi_get_value-print v f rest w n h b d = reads_value v n f rest w h b d

pub mi_get_result-print :
    (name : Bytes) (v : Value) (f : ℕ) (rest : Bytes) (w : World)
    → IsName name
    → IsPrintable v
    → Plenty w
    → 3 * length (print_value v) + 3 ≤ f
    → delimited rest ≡ true
    → mi_get_result f (label (some name) ++ (print_value v ++ rest)) w
      ≡ ret (some (name, v, at rest)) w
unfolding mi_get_value valued
mi_get_result-print name v zero rest w n i h b d = absurd (omega arith)
mi_get_result-print name v (suc f) rest w n i h b d = rw (
  mi_get_var_name-label name (print_value v ++ rest) w h n.0,
  mi_calloc-Plenty w h,
  mi_get_value-print v f rest w i h (omega arith) d,
)
