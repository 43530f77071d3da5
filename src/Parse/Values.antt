-- ===== src/Parse/Values.antt =====
-- Variable names, tuples, lists, values and results (src/parse.c).
--
-- Each function takes the string at its `str` and returns, where the C returns a non-null or nonzero
-- value, what it has built and where it leaves `*end`. On failure `*end` is not written. Releasing
-- the memory of what was built has no effect on the model.
pub mod Steps
pub mod RoundTrip
pub mod Fuel
use libmigdb.Base.{
  ℕ, zero, suc, Bytes, starts, tail, leb, ◌==◌, if◌then◌else◌, Bool, true, false, ◌||◌, ◌&&◌,
  Option, none, some, [], ◌∷◌,
}
use libmigdb.World.{M, out_of_fuel, pure, crash, fail, mi_calloc, mi_parser, ◌>>=◌}
use libmigdb.Tree.{Value, Results, t_tuple, t_list, no_results, result, append}
use libmigdb.Parse.Cstring.{Ptr, at, deref, mi_get_cstring_r}

-- `isalnum` of the C locale, `-` and `_`.
unfoldable pub mi_is_var_name_char : ℕ → Bool
mi_is_var_name_char c =
    (leb b'0' c && leb c b'9')
    || (leb b'A' c && leb c b'Z')
    || (leb b'a' c && leb c b'z')
    || c == b'-'
    || c == b'_'

-- `mi_is_var_name_char(*str)`.
abbrev pub starts_name : Bytes → Bool
starts_name [] = false
starts_name (c ∷ s) = mi_is_var_name_char c

abbrev pub onto : ℕ → Bytes × Bytes → Bytes × Bytes
onto c (name, rest) = (c ∷ name, rest)

-- The longest prefix of name bytes, and the rest.
unfoldable pub span_name : Bytes → Bytes × Bytes
span_name [] = ([], [])
span_name (c ∷ s) =
    let more = onto c (span_name s) in if mi_is_var_name_char c then more else ([], c ∷ s)

-- `r=mi_malloc(l+1)` is not tested: a refused allocation writes through a null pointer.
unfoldable pub named : Bytes × Bytes → M (Option (Bytes × Bytes))
named (name, rest) =
    if starts b'=' rest
    then (do given ← mi_calloc; if given then pure (some (name, tail rest)) else crash)
    else fail mi_parser

unfoldable pub mi_get_var_name : Bytes → M (Option (Bytes × Bytes))
unfolding named span_name mi_is_var_name_char
mi_get_var_name s = named (span_name s)

-- The list under construction: `r->v.rs`, and whether `last_r` is not null.
pub record Chain : Type 0 where
  pub items : Results
  pub linked : Bool

abbrev pub new_chain : Chain
new_chain = record { items = no_results; linked = false }

-- `if (last_r) last_r->next=rs; else r->v.rs=rs; last_r=rs;` for a node, and for a null `rs`.
unfoldable pub link : Chain → Option Bytes → Value → Chain
unfolding append
link ch var v = record {
  items = if ch.linked then append ch.items (result var v no_results) else result var v no_results;
  linked = true;
}

unfoldable pub link_null : Chain → Chain
link_null ch = record { items = if ch.linked then ch.items else no_results; linked = false }

-- The end of an iteration: stop at the closing byte, go on behind a comma, or fail.
unfoldable pub after_item :
    (Chain → Bytes → M (Option (Results × Ptr))) → ℕ → Chain → Bytes → M (Option (Results × Ptr))
after_item loop close ch s =
    if starts close s
    then pure (some (ch.items, at (tail s)))
    else if starts b',' s
    then loop ch (tail s)
    else fail mi_parser

-- `mi_get_list_res` goes on after a null result, from where that result began.
unfoldable pub after_result :
    (Chain → Bytes → M (Option (Results × Ptr)))
    → ℕ
    → Chain
    → Bytes
    → Option (Bytes × Value × Ptr)
    → M (Option (Results × Ptr))
unfolding after_item link link_null deref
after_result loop close ch s none = after_item loop close (link_null ch) s
after_result loop close ch s (some (var, v, p)) = do
  rest ← deref p
  after_item loop close (link ch (some var) v) rest

unfoldable pub after_value :
    (Chain → Bytes → M (Option (Results × Ptr)))
    → ℕ
    → Chain
    → Option (Value × Ptr)
    → M (Option (Results × Ptr))
unfolding after_item link deref
after_value loop close ch none = pure none
after_value loop close ch (some (v, p)) = do
  rest ← deref p
  after_item loop close (link ch none v) rest

abbrev pub wrap : (Results → Value) → Option (Results × Ptr) → Option (Value × Ptr)
wrap type none = none
wrap type (some (rs, p)) = some (type rs, p)

abbrev pub with_var : Bytes → Option (Value × Ptr) → Option (Bytes × Value × Ptr)
with_var var none = none
with_var var (some (v, p)) = some (var, v, p)

-- The node is allocated only when there is a name.
unfoldable pub valued :
    (Bytes → M (Option (Value × Ptr))) → Option (Bytes × Bytes) → M (Option (Bytes × Value × Ptr))
valued value none = pure none
valued value (some (var, s)) = do
  given ← mi_calloc
  if given then (do v ← value s; pure (with_var var v)) else pure none

-- What a call leaves of the string is no structural part of it, so each call costs a unit of fuel.
unfoldable mutual
  pub mi_get_value : ℕ → Bytes → M (Option (Value × Ptr))
  mi_get_value zero s w = out_of_fuel
  mi_get_value (suc f) s w =
      let text = mi_get_cstring_r s w in
      let tuple = mi_get_tuple f s w in
      let items = mi_get_list f s w in
      if starts b'"' s
      then text
      else if starts b'{' s
      then tuple
      else if starts b'[' s
      then items
      else fail mi_parser w

  pub mi_get_tuple : ℕ → Bytes → M (Option (Value × Ptr))
  mi_get_tuple zero s w = out_of_fuel
  mi_get_tuple (suc f) s w =
      let items = (do rs ← mi_get_list_res f b'}' new_chain (tail s); pure (wrap t_tuple rs)) w in
      if starts b'{' s
      then (if starts b'}' (tail s)
          then pure (some (t_tuple no_results, at (tail (tail s)))) w
          else items)
      else fail mi_parser w

  pub mi_get_list : ℕ → Bytes → M (Option (Value × Ptr))
  mi_get_list zero s w = out_of_fuel
  mi_get_list (suc f) s w =
      let results = (do rs ← mi_get_list_res f b']' new_chain (tail s); pure (wrap t_list rs)) w in
      let values = (do rs ← mi_get_list_val f new_chain (tail s); pure (wrap t_list rs)) w in
      if starts b'[' s
      then (if starts b']' (tail s)
          then pure (some (t_list no_results, at (tail (tail s)))) w
          else if starts_name (tail s)
          then results
          else values)
      else fail mi_parser w

  pub mi_get_list_res : ℕ → ℕ → Chain → Bytes → M (Option (Results × Ptr))
  mi_get_list_res zero close ch s w = out_of_fuel
  mi_get_list_res (suc f) close ch s w =
      (do r ← mi_get_result f s; after_result (mi_get_list_res f close) close ch s r) w

  pub mi_get_list_val : ℕ → Chain → Bytes → M (Option (Results × Ptr))
  mi_get_list_val zero ch s w = out_of_fuel
  mi_get_list_val (suc f) ch s w =
      let element = (do v ← mi_get_value f s; after_value (mi_get_list_val f) b']' ch v) in
      (do given ← mi_calloc; if given then element else pure none) w

  pub mi_get_result : ℕ → Bytes → M (Option (Bytes × Value × Ptr))
  mi_get_result zero s w = out_of_fuel
  mi_get_result (suc f) s w = (do name ← mi_get_var_name s; valued (mi_get_value f) name) w
