-- ===== src/Query/Answers.antt =====
-- What a function of the library gets out of a response that gdb sends.
use libmigdb.Base.{
  ℕ, Bytes, codes, str_eq, ◌==◌, if◌then◌else◌, Bool, true, false, Option, none, some, List, [],
  ◌∷◌, ◌++◌, ◌≡◌, refl, ap, ◌∙◌, All, Bool-cases, inl, inr,
}
use mathlib.Core.Option
use libmigdb.World.{M, pure, World, ret, Plenty}
use libmigdb.Tree.{Value, Results, no_results, result, Output}
use libmigdb.Parse.Print.{
  Line, result_record, async_record, stream_record, ResultClass, output_of, AreResults,
  result_class_code,
}
use libmigdb.Connect.Handle.{Handle}
use libmigdb.Connect.Response.Lines.{IsLineByte, echo_of}
use libmigdb.Connect.Wait.Dialogue.{
  sent_lines, ready_for, all_heard, all_kept, world_after_all, IsOrdinary,
  mi_get_response_blk-sent_lines,
}
use libmigdb.Query.{
  mi_get_rrecord, mi_get_var_r, mi_get_var, with_response, tclass_is, mi_res_simple, var_of,
  mi_res_var,
}

-- The first result of that name.
unfoldable pub lookup : Results → Bytes → Option Value
lookup no_results var = none
lookup (result none v rs) var = none
lookup (result (some name) v rs) var =
    let rest = lookup rs var in if str_eq name var then some v else rest

-- The class and the results of the first result record among the lines.
abbrev pub answer_of : List Line → Option (ResultClass × Results)
answer_of [] = none
answer_of (result_record cl rs ∷ ls) = some (cl, rs)
answer_of (_ ∷ ls) = answer_of ls

-- What an answer of class `tclass` says of the variable `var`.
abbrev pub answered : Bytes → ℕ → Option (ResultClass × Results) → Option Value
answered var tclass none = none
answered var tclass (some (cl, rs)) = if result_class_code cl == tclass then lookup rs var else none

abbrev output_of_answer : ResultClass × Results → Output
output_of_answer (cl, rs) = output_of (result_record cl rs)

mi_get_rrecord-all_kept :
    (ls : List Line) → mi_get_rrecord (all_kept ls) ≡ Option.map output_of_answer (answer_of ls)
unfolding mi_get_rrecord output_of
mi_get_rrecord-all_kept [] = refl
mi_get_rrecord-all_kept (result_record cl rs ∷ ls) = refl
mi_get_rrecord-all_kept (async_record k cl rs ∷ ls) = mi_get_rrecord-all_kept ls
mi_get_rrecord-all_kept (stream_record k s ∷ ls) = mi_get_rrecord-all_kept ls

pub mi_get_var_r-lookup :
    (rs : Results) (var : Bytes) (w : World)
    → AreResults rs
    → mi_get_var_r rs var w ≡ ret (lookup rs var) w
unfolding mi_get_var_r lookup AreResults
mi_get_var_r-lookup no_results var w n = refl
mi_get_var_r-lookup (result none v rs) var w n = absurd n.0
mi_get_var_r-lookup (result (some name) v rs) var w n = elim (Bool-cases (str_eq name var)) [
  | inl e ↦ rw e
  | inr e ↦ rw e (mi_get_var_r-lookup rs var w n.2)
]

IsAnswer : Option (ResultClass × Results) → Type 0
IsAnswer none = Unit
IsAnswer (some (cl, rs)) = AreResults rs

answer_of-IsAnswer : (ls : List Line) → All IsOrdinary ls → IsAnswer (answer_of ls)
unfolding IsAnswer
answer_of-IsAnswer [] o = tt
answer_of-IsAnswer (result_record cl rs ∷ ls) o = o.0.printable
answer_of-IsAnswer (async_record k cl rs ∷ ls) o = answer_of-IsAnswer ls o.1
answer_of-IsAnswer (stream_record k s ∷ ls) o = answer_of-IsAnswer ls o.1

var_of-answered :
    (a : Option (ResultClass × Results)) (var : Bytes) (tclass : ℕ) (w : World)
    → IsAnswer a
    → var_of var tclass (Option.map output_of_answer a) w ≡ ret (answered var tclass a) w
unfolding var_of tclass_is mi_get_var output_of IsAnswer
var_of-answered none var tclass w n = refl
var_of-answered (some (cl, rs)) var tclass w n =
    elim (Bool-cases (result_class_code cl == tclass)) [
      | inl e ↦ rw e (mi_get_var_r-lookup rs var w n)
      | inr e ↦ rw e
    ]

-- gdb has sent the lines and the prompt, and nothing is left over in the handle.
pub record IsAwaited (ls : List Line) (s rest : Bytes) (h : Handle) : Type 0 where
  pub ordinary : All IsOrdinary ls
  pub prompt : All IsLineByte s
  pub in_pipe : h.pipe ≡ sent_lines ls ((codes "(gdb)" ++ s) ++ b'\n' ∷ rest)
  pub none_partial : h.partial ≡ []
  pub none_chained : h.po ≡ []
  pub alive : h.died ≡ false

with_response-sent_lines :
    {A : Type 0} (f : List Output → M A) (a : A) (ls : List Line) (s rest : Bytes) (h : Handle)
    (w : World)
    → Plenty w
    → IsAwaited ls s rest h
    → f (all_kept ls) (world_after_all ls w) ≡ ret a (world_after_all ls w)
    → (h' : Handle) × (with_response true (ready_for ls) h f w ≡ ret (a, h') (world_after_all ls w))
      × (h'.pipe ≡ rest)
      × (h'.po ≡ [])
      × (h'.events
          ≡ h.events ++ (all_heard ls h.callbacks ++ echo_of (codes "(gdb)" ++ s) h.callbacks))
unfolding with_response
with_response-sent_lines f a ls s rest h w p i e =
    let (h', got, pipe, po, died, events) =
      mi_get_response_blk-sent_lines ls s rest h w i.ordinary i.prompt p i.in_pipe i.none_partial
        i.none_chained i.alive in
    (h', rw got (rw e), pipe, po, events)

-- When gdb has sent a response of printable lines, none an exit record, with its prompt, nothing is
-- left over in the handle and memory is to spare, `mi_res_var` takes the response out of the pipe and
-- returns the first result of the given name from the first result record, if that record has the
-- class asked for, and null otherwise, whatever streams and async records stand around it. The
-- callbacks have heard every line.
pub mi_res_var-sent_lines :
    (var : Bytes) (tclass : ℕ) (ls : List Line) (s rest : Bytes) (h : Handle) (w : World)
    → Plenty w
    → IsAwaited ls s rest h
    → (h' : Handle) × (mi_res_var true (ready_for ls) h var tclass w
        ≡ ret (answered var tclass (answer_of ls), h') (world_after_all ls w))
      × (h'.pipe ≡ rest)
      × (h'.po ≡ [])
      × (h'.events
          ≡ h.events ++ (all_heard ls h.callbacks ++ echo_of (codes "(gdb)" ++ s) h.callbacks))
unfolding mi_res_var
mi_res_var-sent_lines var tclass ls s rest h w p i =
    with_response-sent_lines (λ r. var_of var tclass (mi_get_rrecord r))
      (answered var tclass (answer_of ls)) ls s rest h w p i
      (ap (λ o. var_of var tclass o (world_after_all ls w)) (mi_get_rrecord-all_kept ls)
        ∙ var_of-answered (answer_of ls) var tclass _ (answer_of-IsAnswer ls i.ordinary))

-- Whether the answer has that class.
abbrev pub has_class : ℕ → Option (ResultClass × Results) → Bool
has_class tclass none = false
has_class tclass (some (cl, rs)) = result_class_code cl == tclass

tclass_is-has_class :
    (tclass : ℕ) (a : Option (ResultClass × Results))
    → tclass_is tclass (Option.map output_of_answer a) ≡ has_class tclass a
unfolding tclass_is output_of
tclass_is-has_class tclass none = refl
tclass_is-has_class tclass (some (cl, rs)) = refl

-- When gdb has sent a response of printable lines, none an exit record, with its prompt, nothing is
-- left over in the handle and memory is to spare, `mi_res_simple` takes the response out of the pipe
-- and says whether its first result record has the class asked for. The callbacks have heard every
-- line.
pub mi_res_simple-sent_lines :
    (tclass : ℕ) (ls : List Line) (s rest : Bytes) (h : Handle) (w : World)
    → Plenty w
    → IsAwaited ls s rest h
    → (h' : Handle) × (mi_res_simple true (ready_for ls) h tclass w
        ≡ ret (has_class tclass (answer_of ls), h') (world_after_all ls w))
      × (h'.pipe ≡ rest)
      × (h'.po ≡ [])
      × (h'.events
          ≡ h.events ++ (all_heard ls h.callbacks ++ echo_of (codes "(gdb)" ++ s) h.callbacks))
unfolding mi_res_simple tclass_is
mi_res_simple-sent_lines tclass ls s rest h w p i =
    with_response-sent_lines (λ r. pure (tclass_is tclass (mi_get_rrecord r)))
      (has_class tclass (answer_of ls)) ls s rest h w p i
      (ap (λ o. ret (tclass_is tclass o) (world_after_all ls w)) (mi_get_rrecord-all_kept ls)
        ∙ ap (λ b. ret b (world_after_all ls w)) (tclass_is-has_class tclass (answer_of ls)))
