-- ===== src/Connect/Wait.antt =====
-- `mi_get_response_blk` (src/connect.c): wait until gdb has sent a complete response.
pub mod Dialogue
use libmigdb.Base.{ℕ, Bytes, ◌==◌, if◌then◌else◌, Bool, true, false, ◌&&◌, not, List, [], ◌∷◌, ◌++◌}
use libmigdb.World.{M, pure, out_of_fuel, mi_gdb_time_out, mi_gdb_died, set_error, ◌>>=◌, ◌>>◌}
use libmigdb.Tree.{Output}
use libmigdb.Connect.Handle.{Handle}
use libmigdb.Connect.Response.{mi_get_response, mi_retire_response}

-- The operating system and the application are outside the library. What they answer while the call
-- waits is a list, one entry for each call of `select`: it returned with the pipe readable, or
-- interrupted, and these bytes more in the pipe; or the time-out passed, and then whether gdb is found
-- running, and what the time-out callback, if there is one, returns.
pub data Wait : Type 0 where
  ready : Bytes → Wait
  timed_out : Bool → ℕ → Wait

-- A null `mi_output` is the empty chain, `[]`.
--
-- `h->died=1; mi_error=MI_GDB_DIED; return NULL;`
gdb_died : Handle → M (List Output × Handle)
gdb_died h = do set_error mi_gdb_died; pure ([], record h { died = true })

retired : Handle → List Output × Handle
unfolding mi_retire_response
retired h = mi_retire_response h

gave_up : Handle → M (List Output × Handle)
gave_up h = do set_error mi_gdb_time_out; pure ([], h)

-- After `select`; `loop` is the next iteration.
after_select : (Handle → M (List Output × Handle)) → Wait → Handle → M (List Output × Handle)
unfolding gdb_died gave_up
after_select loop (ready s) h = loop (record h { pipe = h.pipe ++ s })
after_select loop (timed_out running answer) h =
    if not running
    then gdb_died h
    else if h.callbacks.has_time_out_cb && not (answer == 0)
    then loop h
    else gave_up h

after_response : (Handle → M (List Output × Handle)) → Bool × Handle → M (List Output × Handle)
unfolding retired
after_response next (true, h) = pure (retired h)
after_response next (false, h) = next h

-- The loop. A list of answers that ends while the call still waits is `out_of_fuel`.
unfoldable pub wait_response : List Wait → Handle → M (List Output × Handle)
unfolding after_select after_response mi_get_response
wait_response [] h = do r ← mi_get_response h; after_response (λ _ _. out_of_fuel) r
wait_response (x ∷ xs) h = do
  r ← mi_get_response h
  after_response (after_select (wait_response xs) x) r

-- `running` is what `mi_check_running_pid` finds when the call starts.
unfoldable pub mi_get_response_blk : Bool → List Wait → Handle → M (List Output × Handle)
unfolding gdb_died wait_response
mi_get_response_blk running waits h =
    if not h.died && running then wait_response waits h else gdb_died h
