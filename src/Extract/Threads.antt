-- ===== src/Extract/Threads.antt =====
-- The ids of the threads (src/parse.c).
pub mod Bounds
use libmigdb.Base.{
  ℕ, ◌-◌, Bytes, codes, str_eq, ◌==◌, if◌then◌else◌, Bool, Option, none, some, List, [], ◌∷◌,
}
use libmigdb.World.{M, pure, crash, mi_calloc, fail, mi_out_of_memory, ◌>>=◌}
use libmigdb.Tree.{Value, Results, t_const, t_tuple, no_results, result, Output, mi_cl_done}
use libmigdb.Connect.Handle.{Handle}
use libmigdb.Connect.Wait.{Wait}
use libmigdb.Query.{mi_get_rrecord, mi_get_var_r, with_response}
use libmigdb.Extract.{ℤ, pos, negsuc, Libc, required, eq_int}

-- A block of `room` numbers that is filled from its start; a write behind it faults.
unfoldable pub thread_ids : Libc → Results → ℕ → M (List ℤ)
thread_ids libc no_results room = pure []
thread_ids libc (result none v rs) room = crash
thread_ids libc (result (some name) (t_const text) rs) room =
    let rest = thread_ids libc rs (room - 1) in
    let passed = thread_ids libc rs room in
    if str_eq name (codes "thread-id")
    then required text (λ s. if room == 0 then crash else (do is ← rest; pure (libc.atoi s ∷ is)))
    else passed
thread_ids libc (result (some name) _ rs) room = thread_ids libc rs room

-- `calloc(ids,sizeof(int))`: the product does not fit for a negative `ids`.
ids_block : ℤ → M (Option ℕ)
ids_block (pos n) = do given ← mi_calloc; pure (if given then some n else none)
ids_block (negsuc n) = fail mi_out_of_memory

fill_ids : Libc → Results → ℤ → Option ℕ → M (ℤ × List ℤ)
unfolding thread_ids
fill_ids libc lids ids none = pure (negsuc 0, [])
fill_ids libc lids ids (some room) = do is ← thread_ids libc lids room; pure (ids, is)

counted_ids : Libc → Results → Bytes → M (ℤ × List ℤ)
unfolding ids_block fill_ids
counted_ids libc lids number =
    let ids = libc.atoi number in
    if eq_int ids (pos 0)
    then pure (pos 0, [])
    else (do block ← ids_block ids; fill_ids libc lids ids block)

both_vars : Libc → Option Value → Option Value → M (ℤ × List ℤ)
unfolding counted_ids
both_vars libc (some (t_const text)) (some (t_tuple lids)) =
    required text (λ number. counted_ids libc lids number)
both_vars libc _ _ = pure (negsuc 0, [])

-- The value returned, and the numbers that were written to `*list`; zeros follow them up to the
-- number returned.
unfoldable pub mi_get_thread_ids : Libc → Output → M (ℤ × List ℤ)
unfolding mi_get_var_r both_vars
mi_get_thread_ids libc res = do
  vids ← mi_get_var_r res.c (codes "number-of-threads")
  lids ← mi_get_var_r res.c (codes "thread-ids")
  both_vars libc vids lids

record_ids : Libc → Option Output → M (ℤ × List ℤ)
unfolding mi_get_thread_ids
record_ids libc none = pure (negsuc 0, [])
record_ids libc (some res) =
    if res.tclass == mi_cl_done then mi_get_thread_ids libc res else pure (negsuc 0, [])

unfoldable pub mi_res_thread_ids : Libc → Bool → List Wait → Handle → M ((ℤ × List ℤ) × Handle)
unfolding with_response mi_get_rrecord record_ids
mi_res_thread_ids libc running waits h =
    with_response running waits h (λ r. record_ids libc (mi_get_rrecord r))
