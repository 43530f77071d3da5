-- ===== src/Query/Stops.antt =====
-- The record of a stop, and its reason, among the records of a response.
use libmigdb.Base.{Bytes, codes, true, false, some, List, [], ◌∷◌, ◌++◌, ◌≡◌, refl, ◌∙◌, All}
use libmigdb.World.{World, ret, fault}
use libmigdb.Tree.{Results, t_const, no_results, Output}
use libmigdb.Parse.Print.{
  Line, result_record, async_record, stream_record, error, done, running, connected, exit, exec,
  status, notify, stopped, download, output_of, AreResults,
}
use libmigdb.Connect.Response.Deliver.{kept}
use libmigdb.Connect.Wait.Dialogue.{all_kept}
use libmigdb.Query.{mi_get_stop_record, stop_reason, mi_get_async_stop_reason}
use libmigdb.Query.Answers.{lookup, mi_get_var_r-lookup}

-- A line that is neither an error record nor the record of a stop.
abbrev pub IsPassed : Line → Type 0
IsPassed (result_record error rs) = ⊥
IsPassed (async_record exec stopped rs) = ⊥
IsPassed _ = Unit

-- The record of a stop.
abbrev pub stop_line : Results → Line
stop_line rs = async_record exec stopped rs

-- A line that is not the record of a stop.
abbrev pub IsNoStop : Line → Type 0
IsNoStop (async_record exec stopped rs) = ⊥
IsNoStop _ = Unit

no_stop_passed :
    (l : Line) (os : List Output)
    → IsNoStop l
    → mi_get_stop_record (kept l ++ os) ≡ mi_get_stop_record os
unfolding mi_get_stop_record output_of
no_stop_passed (result_record done xs) os n = refl
no_stop_passed (result_record running xs) os n = refl
no_stop_passed (result_record connected xs) os n = refl
no_stop_passed (result_record error xs) os n = refl
no_stop_passed (result_record exit xs) os n = refl
no_stop_passed (async_record exec stopped xs) os n = absurd n
no_stop_passed (async_record exec download xs) os n = refl
no_stop_passed (async_record status cl xs) os n = refl
no_stop_passed (async_record notify cl xs) os n = refl
no_stop_passed (stream_record k s) os n = refl

-- The first record of a stop in a response is found, whatever follows it.
pub mi_get_stop_record-all_kept :
    (before after : List Line) (rs : Results)
    → All IsNoStop before
    → mi_get_stop_record (all_kept (before ++ async_record exec stopped rs ∷ after))
      ≡ some (output_of (async_record exec stopped rs))
unfolding mi_get_stop_record output_of
mi_get_stop_record-all_kept [] after rs n = refl
mi_get_stop_record-all_kept (l ∷ ls) after rs n =
    no_stop_passed l _ n.0 ∙ mi_get_stop_record-all_kept ls after rs n.1

reason_passed :
    (l : Line) (os : List Output) (w : World)
    → IsPassed l
    → stop_reason false (kept l ++ os) w ≡ stop_reason false os w
unfolding stop_reason output_of
reason_passed (result_record done xs) os w n = refl
reason_passed (result_record running xs) os w n = refl
reason_passed (result_record connected xs) os w n = refl
reason_passed (result_record error xs) os w n = absurd n
reason_passed (result_record exit xs) os w n = refl
reason_passed (async_record exec stopped xs) os w n = absurd n
reason_passed (async_record exec download xs) os w n = refl
reason_passed (async_record status cl xs) os w n = refl
reason_passed (async_record notify cl xs) os w n = refl
reason_passed (stream_record k s) os w n = refl

all_passed :
    (before after : List Line) (w : World)
    → All IsPassed before
    → stop_reason false (all_kept (before ++ after)) w ≡ stop_reason false (all_kept after) w
all_passed [] after w n = refl
all_passed (l ∷ ls) after w n = reason_passed l _ w n.0 ∙ all_passed ls after w n.1

-- The reason of the first stop in a response is returned, when no error record stands before it and
-- its results have a `reason` that is a string.
pub mi_get_async_stop_reason-all_kept :
    (before after : List Line) (rs : Results) (text : Bytes) (w : World)
    → All IsPassed before
    → AreResults rs
    → lookup rs (codes "reason") ≡ some (t_const (some text))
    → mi_get_async_stop_reason (all_kept (before ++ async_record exec stopped rs ∷ after)) w
      ≡ ret (true, some text) w
unfolding mi_get_async_stop_reason output_of
mi_get_async_stop_reason-all_kept before after rs text w n a e =
    all_passed before (async_record exec stopped rs ∷ after) w n
    ∙ rw (mi_get_var_r-lookup rs (codes "reason") w a, e)

-- An error record without results, behind records that are neither errors nor stops, makes the search
-- for the reason of a stop read through a null pointer.
pub mi_get_async_stop_reason-error :
    (before after : List Line) (w : World)
    → All IsPassed before
    → mi_get_async_stop_reason (all_kept (before ++ result_record error no_results ∷ after)) w
      ≡ fault
unfolding mi_get_async_stop_reason output_of
mi_get_async_stop_reason-error before after w n =
    all_passed before (result_record error no_results ∷ after) w n
