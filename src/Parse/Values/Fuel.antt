-- ===== src/Parse/Values/Fuel.antt =====
-- The parser of values keeps within its fuel on every string, with any allocator.
use libmigdb.Base.{
  ℕ, zero, suc, ◌+◌, ◌*◌, ◌<◌, ◌≤◌, Bytes, length, starts, tail, if◌then◌else◌, Bool, true, false,
  Bool-cases, Option, none, some, [], ◌∷◌, inl, inr, ◌≡◌, arith,
}
use libmigdb.World.{M, World, Outcome, pure, crash, continue, ◌>>=◌}
use libmigdb.World.Ensures.{
  Ensures, holds, faulted, Ensures-if, Ensures-weaken, Ensures-continue, mi_calloc-Ensures,
}
use libmigdb.Tree.{Value, Results, t_tuple, t_list}
use libmigdb.Parse.Cstring.{Ptr, at, past, deref}
use libmigdb.Parse.Cstring.Fuel.{Left, LeftBy, mi_get_cstring_r-Ensures}
use libmigdb.Parse.Values.{
  mi_is_var_name_char, starts_name, span_name, named, mi_get_var_name, Chain, new_chain, link,
  link_null, after_item, after_result, after_value, wrap, with_var, valued, mi_get_value,
  mi_get_tuple, mi_get_list, mi_get_list_res, mi_get_list_val, mi_get_result,
}

abbrev pub LeftByResult : ℕ → Option (Bytes × Value × Ptr) → Type 0
LeftByResult n none = Unit
LeftByResult n (some (name, v, p)) = Left n p

abbrev LeftByName : ℕ → Option (Bytes × Bytes) → Type 0
LeftByName n none = Unit
LeftByName n (some (name, s)) = length s < n

length-tail : (c : ℕ) (s : Bytes) → starts c s ≡ true → length s ≡ length (tail s) + 1
length-tail c [] h = cc
length-tail c (d ∷ s) h = omega arith

length-span_name : (s : Bytes) → length (span_name s).1 ≤ length s
unfolding span_name
length-span_name [] = omega arith
length-span_name (c ∷ s) = elim (Bool-cases (mi_is_var_name_char c)) [
  | inl h ↦ rw h (omega (arith, length-span_name s))
  | inr h ↦ rw h (omega arith)
]

named_given :
    (n : ℕ) (given : Bool) (name rest : Bytes) (w : World)
    → length rest < n
    → Ensures (LeftByName n) ((if given then pure (some (name, rest)) else crash) w)
named_given n true name rest w h = holds h
named_given n false name rest w h = faulted

named-Ensures :
    (n : ℕ) (r : Bytes × Bytes) (w : World) → length r.1 ≤ n → Ensures (LeftByName n) (named r w)
unfolding named
named-Ensures n (name, rest) w h = elim (Bool-cases (starts b'=' rest)) [
  | inr e ↦ rw e (holds tt)
  | inl e ↦ rw e (
      Ensures-continue (mi_calloc-Ensures w) λ given w' _.
        named_given n given name (tail rest) w' (omega (arith, length-tail b'=' rest e)))
]

mi_get_var_name-Ensures :
    (s : Bytes) (w : World) → Ensures (LeftByName (length s)) (mi_get_var_name s w)
unfolding mi_get_var_name
mi_get_var_name-Ensures s w = named-Ensures (length s) (span_name s) w (length-span_name s)

-- `loop` keeps within its fuel on every string of fewer than `n` bytes.
abbrev Runs : (Chain → Bytes → M (Option (Results × Ptr))) → ℕ → Type 0
Runs loop n =
    (ch : Chain) (s : Bytes) (w : World) → length s < n → Ensures (LeftBy (length s)) (loop ch s w)

LeftBy-le {ℓ} : {A : Type ℓ} (m n : ℕ) (r : Option (A × Ptr)) → m ≤ n → LeftBy m r → LeftBy n r
LeftBy-le m n none h k = tt
LeftBy-le m n (some (a, at s)) h k = omega arith
LeftBy-le m n (some (a, past)) h k = tt

after_item-Ensures :
    (loop : Chain → Bytes → M (Option (Results × Ptr))) (close : ℕ) (ch : Chain) (s : Bytes)
    (w : World)
    → Runs loop (length s)
    → Ensures (LeftBy (length s)) (after_item loop close ch s w)
unfolding after_item
after_item-Ensures loop close ch s w k = elim (Bool-cases (starts close s)) [
  | inl e ↦ rw e (holds (omega (arith, length-tail close s e)))
  | inr e ↦ rw e (elim (Bool-cases (starts b',' s)) [
    | inr f ↦ rw f (holds tt)
    | inl f ↦
        let shorter : length (tail s) < length s = omega (arith, length-tail b',' s f) in
        rw f (Ensures-weaken (k ch (tail s) w shorter) λ r h. LeftBy-le _ _ r (omega arith) h)
  ])
]

-- What follows an element that left `p`.
after_ptr-Ensures :
    (n : ℕ) (loop : Chain → Bytes → M (Option (Results × Ptr))) (close : ℕ) (ch : Chain) (p : Ptr)
    (w : World)
    → Runs loop n
    → Left n p
    → Ensures (LeftBy n) ((do rest ← deref p; after_item loop close ch rest) w)
unfolding deref
after_ptr-Ensures n loop close ch past w k h = faulted
after_ptr-Ensures n loop close ch (at s) w k h =
    Ensures-weaken
      (after_item-Ensures loop close ch s w λ ch' s' w' shorter. k ch' s' w' (omega arith))
      λ r l. LeftBy-le _ _ r (omega arith) l

after_result-Ensures :
    (loop : Chain → Bytes → M (Option (Results × Ptr))) (close : ℕ) (ch : Chain) (s : Bytes)
    (r : Option (Bytes × Value × Ptr)) (w : World)
    → Runs loop (length s)
    → LeftByResult (length s) r
    → Ensures (LeftBy (length s)) (after_result loop close ch s r w)
unfolding after_result
after_result-Ensures loop close ch s none w k h = after_item-Ensures loop close (link_null ch) s w k
after_result-Ensures loop close ch s (some (name, v, p)) w k h =
    after_ptr-Ensures (length s) loop close (link ch (some name) v) p w k h

after_value-Ensures :
    (n : ℕ) (loop : Chain → Bytes → M (Option (Results × Ptr))) (close : ℕ) (ch : Chain)
    (r : Option (Value × Ptr)) (w : World)
    → Runs loop n
    → LeftBy n r
    → Ensures (LeftBy n) (after_value loop close ch r w)
unfolding after_value
after_value-Ensures n loop close ch none w k h = holds tt
after_value-Ensures n loop close ch (some (v, p)) w k h =
    after_ptr-Ensures n loop close (link ch none v) p w k h

wrapped :
    (m n : ℕ) (type : Results → Value) (r : Option (Results × Ptr))
    → m ≤ n
    → LeftBy m r
    → LeftBy n (wrap type r)
wrapped m n type none h k = tt
wrapped m n type (some (rs, at s)) h k = omega arith
wrapped m n type (some (rs, past)) h k = tt

wrap-Ensures :
    (m n : ℕ) (type : Results → Value) {o : Outcome (Option (Results × Ptr))}
    → m ≤ n
    → Ensures (LeftBy m) o
    → Ensures (LeftBy n) (continue o (λ rs. pure (wrap type rs)))
wrap-Ensures m n type h k = Ensures-continue k λ rs w l. holds (wrapped m n type rs h l)

valued-Ensures :
    (n : ℕ) (value : Bytes → M (Option (Value × Ptr))) (name : Option (Bytes × Bytes)) (w : World)
    → ((s : Bytes) (w' : World) → length s < n → Ensures (LeftBy (length s)) (value s w'))
    → LeftByName n name
    → Ensures (LeftByResult n) (valued value name w)
unfolding valued
valued-Ensures n value none w k h = holds tt
valued-Ensures n value (some (name, s)) w k h =
    Ensures-continue (mi_calloc-Ensures w) λ given w' _. valued_given given w'
  where
    with_name :
        (r : Option (Value × Ptr)) (w' : World)
        → LeftBy (length s) r
        → Ensures (LeftByResult n) (pure (with_var name r) w')
    with_name none w' l = holds tt
    with_name (some (v, at t)) w' l = holds (omega arith)
    with_name (some (v, past)) w' l = holds tt

    valued_given :
        (given : Bool) (w' : World)
        → Ensures
            (LeftByResult n)
            ((if given then (do v ← value s; pure (with_var name v)) else pure none) w')
    valued_given false w' = holds tt
    valued_given true w' = Ensures-continue (k s w' h) λ r w'' l. with_name r w'' l

Ensures-if-at {ℓ κ} :
    {A : Type ℓ} {P : A → Type κ} (b : Bool) {m n : M A}
    → ((w : World) → Ensures P (m w))
    → ((w : World) → Ensures P (n w))
    → (w : World) → Ensures P ((if b then m else n) w)
Ensures-if-at true hm hn w = hm w
Ensures-if-at false hm hn w = hn w

-- One induction on the fuel. Each call on a string of `n` bytes has fuel enough for all its calls,
-- since those that stay on the same string go down in the order value, tuple or list, element.
mutual
  unfolding mi_get_value

  value-Ensures :
      (f : ℕ) (s : Bytes) (w : World)
      → 3 * length s + 2 ≤ f
      → Ensures (LeftBy (length s)) (mi_get_value f s w)
  value-Ensures zero s w b = absurd (omega arith)
  value-Ensures (suc f) s w b =
      Ensures-if (starts b'"' s) (λ _. mi_get_cstring_r-Ensures s w)
        λ _.
          Ensures-if (starts b'{' s) (λ _. tuple-Ensures f s w (omega arith))
            λ _. Ensures-if (starts b'[' s) (λ _. list-Ensures f s w (omega arith)) λ _. holds tt

  tuple-Ensures :
      (f : ℕ) (s : Bytes) (w : World)
      → 3 * length s + 1 ≤ f
      → Ensures (LeftBy (length s)) (mi_get_tuple f s w)
  tuple-Ensures zero s w b = absurd (omega arith)
  tuple-Ensures (suc f) s w b =
      Ensures-if (starts b'{' s)
        (λ e.
          let shorter = length-tail b'{' s e in
          Ensures-if (starts b'}' (tail s))
            (λ closed. holds (omega (arith, length-tail b'}' (tail s) closed)))
            λ _.
              wrap-Ensures (length (tail s)) (length s) t_tuple (omega arith)
                (list_res-Ensures f b'}' new_chain (tail s) w (omega arith)))
        λ _. holds tt

  list-Ensures :
      (f : ℕ) (s : Bytes) (w : World)
      → 3 * length s + 1 ≤ f
      → Ensures (LeftBy (length s)) (mi_get_list f s w)
  list-Ensures zero s w b = absurd (omega arith)
  list-Ensures (suc f) s w b =
      Ensures-if (starts b'[' s)
        (λ e.
          let shorter = length-tail b'[' s e in
          Ensures-if (starts b']' (tail s))
            (λ closed. holds (omega (arith, length-tail b']' (tail s) closed)))
            λ _.
              Ensures-if (starts_name (tail s))
                (λ _.
                  wrap-Ensures (length (tail s)) (length s) t_list (omega arith)
                    (list_res-Ensures f b']' new_chain (tail s) w (omega arith)))
                λ _.
                  wrap-Ensures (length (tail s)) (length s) t_list (omega arith)
                    (list_val-Ensures f new_chain (tail s) w (omega arith)))
        λ _. holds tt

  list_res-Ensures :
      (f close : ℕ) (ch : Chain) (s : Bytes) (w : World)
      → 3 * length s + 3 ≤ f
      → Ensures (LeftBy (length s)) (mi_get_list_res f close ch s w)
  list_res-Ensures zero close ch s w b = absurd (omega arith)
  list_res-Ensures (suc f) close ch s w b =
      Ensures-continue (result-Ensures f s w (omega arith)) λ r w' h.
        after_result-Ensures (mi_get_list_res f close) close ch s r w'
          (λ ch' s' w'' shorter. list_res-Ensures f close ch' s' w'' (omega arith)) h

  list_val-Ensures :
      (f : ℕ) (ch : Chain) (s : Bytes) (w : World)
      → 3 * length s + 3 ≤ f
      → Ensures (LeftBy (length s)) (mi_get_list_val f ch s w)
  list_val-Ensures zero ch s w b = absurd (omega arith)
  list_val-Ensures (suc f) ch s w b = Ensures-continue (mi_calloc-Ensures w) λ given w₁ _.
      Ensures-if-at given
        (λ w₂. Ensures-continue (value-Ensures f s w₂ (omega arith)) λ v w₃ h.
          after_value-Ensures (length s) (mi_get_list_val f) b']' ch v w₃
            (λ ch' t w₄ shorter. list_val-Ensures f ch' t w₄ (omega arith)) h)
        (λ w₂. holds tt) w₁

  result-Ensures :
      (f : ℕ) (s : Bytes) (w : World)
      → 3 * length s + 2 ≤ f
      → Ensures (LeftByResult (length s)) (mi_get_result f s w)
  result-Ensures zero s w b = absurd (omega arith)
  result-Ensures (suc f) s w b = Ensures-continue (mi_get_var_name-Ensures s w) λ name w' h.
      valued-Ensures (length s) (mi_get_value f) name w'
        (λ t w'' shorter. value-Ensures f t w'' (omega arith)) h

-- With fuel for the length of the string, parsing a value, and a result, ends; what it leaves of the
-- string is shorter.
pub mi_get_value-Ensures :
    (f : ℕ) (s : Bytes) (w : World)
    → 3 * length s + 2 ≤ f
    → Ensures (LeftBy (length s)) (mi_get_value f s w)
mi_get_value-Ensures f s w b = value-Ensures f s w b

pub mi_get_result-Ensures :
    (f : ℕ) (s : Bytes) (w : World)
    → 3 * length s + 2 ≤ f
    → Ensures (LeftByResult (length s)) (mi_get_result f s w)
mi_get_result-Ensures f s w b = result-Ensures f s w b
