-- ===== src/Parse/Values/Steps.antt =====
-- One element of a tuple or of a list: what the parser does with its name, its value, and the byte
-- that follows.
use libmigdb.Base.{
  ℕ, suc, ◌+◌, ◌*◌, ◌≤◌, ◌<◌, Bytes, length, length-append, starts, ◌==◌, true, false, Option, none,
  some, [], ◌∷◌, ◌++◌, ◌≡◌, refl, arith, append_assoc, All,
}
use libmigdb.World.{M, World, Plenty, ret, mi_calloc-Plenty}
use libmigdb.Tree.{Value, Results, t_const, t_tuple, t_list, no_results, result, append}
use libmigdb.Parse.Cstring.{Ptr, at, delimited}
use libmigdb.Parse.Print.{label, print_value, print_more, IsNameByte, IsPrintable}
use libmigdb.Parse.Values.{
  mi_is_var_name_char, starts_name, span_name, named, mi_get_var_name, Chain, link, after_item,
  after_result, after_value, valued, mi_get_value, mi_get_list_res, mi_get_list_val,
}

eq_is_no_name_byte : mi_is_var_name_char b'=' ≡ false
unfolding mi_is_var_name_char
eq_is_no_name_byte = refl

span_name-append :
    (name rest : Bytes)
    → All IsNameByte name
    → span_name (name ++ b'=' ∷ rest) ≡ (name, b'=' ∷ rest)
unfolding span_name
span_name-append [] rest h = rw eq_is_no_name_byte
span_name-append (c ∷ name) rest h = rw (h.0, span_name-append name rest h.1)

pub mi_get_var_name-label :
    (name rest : Bytes) (w : World)
    → Plenty w
    → All IsNameByte name
    → mi_get_var_name (label (some name) ++ rest) w ≡ ret (some (name, rest)) w
unfolding mi_get_var_name named
mi_get_var_name-label name rest w h n =
    rw (append_assoc name (b'=' ∷ []) rest, span_name-append name rest n, mi_calloc-Plenty w h)

-- The fuel that a call of `mi_get_value` on the text `s` may use.
abbrev pub value_fuel : Bytes → ℕ
value_fuel s = 3 * length s + 2

abbrev pub Closes : ℕ → Type 0
Closes close = (delimited (close ∷ []) ≡ true) × ((b',' == close) ≡ false)

pub delimited-print_more :
    (close : ℕ) (rs : Results) (rest : Bytes)
    → Closes close
    → delimited (print_more close rs ++ rest) ≡ true
unfolding print_value delimited
delimited-print_more close no_results rest h = h.0
delimited-print_more close (result var v rs) rest h = refl

abbrev pub linked_to : Results → Chain
linked_to xs = record { items = xs; linked = true }

abbrev pub ReadsValue : Value → Type 0
ReadsValue v =
    (f : ℕ) (rest : Bytes) (w : World)
    → Plenty w
    → value_fuel (print_value v) ≤ f
    → delimited rest ≡ true
    → mi_get_value f (print_value v ++ rest) w ≡ ret (some (v, at rest)) w

-- `loop` goes on through the rest of a chain of which `xs` has been read.
abbrev pub ReadsMore : (ℕ → Chain → Bytes → M (Option (Results × Ptr))) → ℕ → Results → Type 0
ReadsMore loop close rs =
    (f : ℕ) (xs : Results) (rest : Bytes) (w : World)
    → Plenty w
    → value_fuel (print_more close rs) ≤ f
    → after_item (loop f) close (linked_to xs) (print_more close rs ++ rest) w
      ≡ ret (some (append xs rs, at rest)) w

-- One result, from its name to what follows its value.
pub list_res_step :
    (close f : ℕ) (ch : Chain) (name : Bytes) (v : Value) (more : Bytes) (w : World)
    → Plenty w
    → All IsNameByte name
    → mi_get_value f (print_value v ++ more) w ≡ ret (some (v, at more)) w
    → mi_get_list_res (suc (suc f)) close ch (label (some name) ++ (print_value v ++ more)) w
      ≡ after_item (mi_get_list_res (suc f) close) close (link ch (some name) v) more w
unfolding mi_get_value valued after_result
list_res_step close f ch name v more w h n e =
    rw (mi_get_var_name-label name (print_value v ++ more) w h n, mi_calloc-Plenty w h, e)

pub list_val_step :
    (f : ℕ) (ch : Chain) (v : Value) (more : Bytes) (w : World)
    → Plenty w
    → mi_get_value f (print_value v ++ more) w ≡ ret (some (v, at more)) w
    → mi_get_list_val (suc f) ch (print_value v ++ more) w
      ≡ after_item (mi_get_list_val f) b']' (link ch none v) more w
unfolding mi_get_value after_value
list_val_step f ch v more w h e = rw (mi_calloc-Plenty w h, e)

pub starts_name-append :
    (name rest : Bytes) → starts_name name ≡ true → starts_name (name ++ rest) ≡ true
starts_name-append [] rest h = cc
starts_name-append (c ∷ name) rest h = h

-- A name does not begin with a closing byte, and a value does not begin with a name byte or `]`.
pub starts-close_name :
    (close : ℕ) (s : Bytes) → Closes close → starts_name s ≡ true → starts close s ≡ false
unfolding mi_is_var_name_char delimited
starts-close_name close [] c h = cc
starts-close_name close (d ∷ s) c h = ground arith

pub starts_name-print_value :
    (v : Value) (rest : Bytes)
    → IsPrintable v
    → (starts_name (print_value v ++ rest) ≡ false) × (starts b']' (print_value v ++ rest) ≡ false)
unfolding mi_is_var_name_char print_value IsPrintable
starts_name-print_value (t_const none) rest h = absurd h
starts_name-print_value (t_const (some s)) rest h = (refl, refl)
starts_name-print_value (t_tuple rs) rest h = (refl, refl)
starts_name-print_value (t_list rs) rest h = (refl, refl)

pub seq_assoc : (a b c rest : Bytes) → (a ++ (b ++ c)) ++ rest ≡ a ++ (b ++ (c ++ rest))
seq_assoc a b c rest = simp append_assoc

pub length_bytes : (xs ys : Bytes) → length (xs ++ ys) ≡ length xs + length ys
length_bytes = length-append

pub Closes-brace : Closes b'}'
unfolding delimited
Closes-brace = (refl, refl)

pub Closes-bracket : Closes b']'
unfolding delimited
Closes-bracket = (refl, refl)

pub length-print_more_pos : (close : ℕ) (rs : Results) → 0 < length (print_more close rs)
unfolding print_value
length-print_more_pos close no_results = omega arith
length-print_more_pos close (result var v rs) = omega arith

pub length-print_value_pos : (v : Value) → IsPrintable v → 0 < length (print_value v)
unfolding print_value IsPrintable
length-print_value_pos (t_const none) h = absurd h
length-print_value_pos (t_const (some s)) h = omega arith
length-print_value_pos (t_tuple rs) h = omega arith
length-print_value_pos (t_list rs) h = omega arith
