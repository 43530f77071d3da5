-- ===== src/Query.antt =====
-- What the library looks up in a response (src/parse.c): the result record, a variable of it, the
-- record of a stop and its reason; and the functions that wait for a response and look there.
pub mod Answers
pub mod Stops
use libmigdb.Base.{
  ℕ, Bytes, codes, str_eq, ◌==◌, if◌then◌else◌, Bool, true, false, ◌&&◌, Option, none, some, List,
  [], ◌∷◌,
}
use libmigdb.World.{M, pure, crash, sys_alloc, ◌>>=◌}
use libmigdb.Tree.{
  Value, Results, t_const, no_results, result, Output, mi_t_out_of_band, mi_t_result_record,
  mi_st_async, mi_sst_exec, mi_cl_stopped, mi_cl_done, mi_cl_running, mi_cl_connected, mi_cl_error,
  mi_cl_exit,
}
use libmigdb.Connect.Handle.{Handle}
use libmigdb.Connect.Wait.{Wait, mi_get_response_blk}

-- The first result record of the chain. The rest of the chain behind it is not used by any caller.
unfoldable pub mi_get_rrecord : List Output → Option Output
mi_get_rrecord [] = none
mi_get_rrecord (r ∷ rs) =
    let rest = mi_get_rrecord rs in if r.type == mi_t_result_record then some r else rest

-- The node that is found is given by its type and value. A null `var` is read by `strcmp`.
unfoldable pub mi_get_var_r : Results → Bytes → M (Option Value)
mi_get_var_r no_results var w = pure none w
mi_get_var_r (result none v rs) var w = crash w
mi_get_var_r (result (some name) v rs) var w =
    let rest = mi_get_var_r rs var w in if str_eq name var then pure (some v) w else rest

unfoldable pub mi_get_var : Option Output → Bytes → M (Option Value)
unfolding mi_get_var_r
mi_get_var none var = pure none
mi_get_var (some res) var = mi_get_var_r res.c var

-- The test for the record of a stop.
unfoldable pub is_stop_record : Output → Bool
is_stop_record r =
    r.type == mi_t_out_of_band
    && r.stype == mi_st_async
    && r.sstype == mi_sst_exec
    && r.tclass == mi_cl_stopped

unfoldable pub mi_get_stop_record : List Output → Option Output
unfolding is_stop_record
mi_get_stop_record [] = none
mi_get_stop_record (r ∷ rs) =
    let rest = mi_get_stop_record rs in if is_stop_record r then some r else rest

-- `if (r->c->type==t_const) *reason=r->c->v.cstr; return 0;`, without a test for a null `r->c`.
error_reason : Results → M (Bool × Option Bytes)
error_reason no_results = crash
error_reason (result var (t_const text) rs) = pure (false, text)
error_reason _ = pure (false, none)

-- `*reason=p->v.cstr;` without a look at the type: the pointer of a tuple or list is no string.
reason_text : M (Bool × Option Bytes) → Option Value → M (Bool × Option Bytes)
reason_text next none = next
reason_text next (some (t_const text)) = pure (true, text)
reason_text next (some _) = crash

reason_unknown : Bool → M (Bool × Option Bytes)
reason_unknown true = do
  given ← sys_alloc
  pure (true, if given then some (codes "unknown (temp bkpt?)") else none)
reason_unknown false = pure (false, none)

stop_reason : Bool → List Output → M (Bool × Option Bytes)
unfolding reason_unknown error_reason reason_text is_stop_record mi_get_var_r
stop_reason found_stopped [] = reason_unknown found_stopped
stop_reason found_stopped (r ∷ rs) =
    let next = stop_reason found_stopped rs in
    let next_found = stop_reason true rs in
    if r.type == mi_t_result_record && r.tclass == mi_cl_error
    then error_reason r.c
    else if is_stop_record r
    then (do v ← mi_get_var_r r.c (codes "reason"); reason_text next_found v)
    else next

-- The value returned, and `*reason`.
unfoldable pub mi_get_async_stop_reason : List Output → M (Bool × Option Bytes)
unfolding stop_reason
mi_get_async_stop_reason r = stop_reason false r

-- What a function makes of the response that it waits for.
unfoldable pub with_response :
    {A : Type 0} → Bool → List Wait → Handle → (List Output → M A) → M (A × Handle)
unfolding mi_get_response_blk
with_response running waits h f = do
  r ← mi_get_response_blk running waits h
  a ← f r.0
  pure (a, r.1)

tclass_is : ℕ → Option Output → Bool
tclass_is tclass none = false
tclass_is tclass (some res) = res.tclass == tclass

-- The third argument of the source is used nowhere in it.
unfoldable pub mi_res_simple : Bool → List Wait → Handle → ℕ → M (Bool × Handle)
unfolding with_response mi_get_rrecord tclass_is
mi_res_simple running waits h tclass =
    with_response running waits h (λ r. pure (tclass_is tclass (mi_get_rrecord r)))

unfoldable pub mi_res_simple_done : Bool → List Wait → Handle → M (Bool × Handle)
unfolding mi_res_simple
mi_res_simple_done running waits h = mi_res_simple running waits h mi_cl_done

unfoldable pub mi_res_simple_exit : Bool → List Wait → Handle → M (Bool × Handle)
unfolding mi_res_simple
mi_res_simple_exit running waits h = mi_res_simple running waits h mi_cl_exit

unfoldable pub mi_res_simple_running : Bool → List Wait → Handle → M (Bool × Handle)
unfolding mi_res_simple
mi_res_simple_running running waits h = mi_res_simple running waits h mi_cl_running

unfoldable pub mi_res_simple_connected : Bool → List Wait → Handle → M (Bool × Handle)
unfolding mi_res_simple
mi_res_simple_connected running waits h = mi_res_simple running waits h mi_cl_connected

var_of : Bytes → ℕ → Option Output → M (Option Value)
unfolding mi_get_var tclass_is
var_of var tclass res = if tclass_is tclass res then mi_get_var res var else pure none

unfoldable pub mi_res_var : Bool → List Wait → Handle → Bytes → ℕ → M (Option Value × Handle)
unfolding with_response mi_get_rrecord var_of
mi_res_var running waits h var tclass =
    with_response running waits h (λ r. var_of var tclass (mi_get_rrecord r))

unfoldable pub mi_res_done_var : Bool → List Wait → Handle → Bytes → M (Option Value × Handle)
unfolding mi_res_var
mi_res_done_var running waits h var = mi_res_var running waits h var mi_cl_done

const_text : Option Value → Option Bytes
const_text (some (t_const text)) = text
const_text _ = none

unfoldable pub mi_res_value : Bool → List Wait → Handle → M (Option Bytes × Handle)
unfolding mi_res_done_var const_text
mi_res_value running waits h = do
  r ← mi_res_done_var running waits h (codes "value")
  pure (const_text r.0, r.1)
