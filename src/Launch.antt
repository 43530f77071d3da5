-- ===== src/Launch.antt =====
-- Starting gdb and letting go of it (src/connect.c): the pipes, the streams and the child.
pub mod Failure
use libmigdb.Extract.{ℤ, pos}
use libmigdb.Base.{
  ℕ, suc, Bytes, if◌then◌else◌, Bool, true, false, ◌&&◌, not, Option, none, List, [], ◌∷◌, ◌++◌,
}
use libmigdb.World.{M, pure, mi_ok, mi_calloc, set_error, ◌>>=◌, ◌>>◌}
use libmigdb.Connect.Handle.{Handle}
use libmigdb.Connect.Wait.{mi_get_response_blk}
use libmigdb.Command.{Surroundings, mi_send_commands}

abbrev pub mi_pipe_create : ℕ
mi_pipe_create = 2

abbrev pub mi_fork : ℕ
mi_fork = 3

abbrev pub mi_debugger_run : ℕ
mi_debugger_run = 4

abbrev pub mi_default_time_out : ℤ
mi_default_time_out = pos 10

abbrev pub mi_missing_gdb : ℕ
mi_missing_gdb = 13

-- The block is zero.
abbrev pub mi_alloc_h : Handle
mi_alloc_h = record {
  died = false;
  pipe = [];
  llen = 0;
  partial = [];
  line = [];
  po = [];
  has_last = false;
  callbacks = record {
    has_console = false;
    has_target = false;
    has_log = false;
    has_async = false;
    has_to_gdb_echo = false;
    has_from_gdb_echo = false;
    has_time_out_cb = false;
  };
  catch_console = 0;
  catched_console = none;
  version = 0;
  time_out = pos 0;
  events = [];
}

-- The four ends of the two pipes, and the child.
pub data End : Type 0 where
  to_gdb_0 to_gdb_1 from_gdb_0 from_gdb_1 : End

-- What the handle holds: whether each pipe is there, whether each stream is, and whether there is a
-- child.
pub record Held : Type 0 where
  pub to_gdb : Bool
  pub from_gdb : Bool
  pub to : Bool
  pub from : Bool
  pub pid : Bool

-- `if (fd>=0) close(fd);`
close_if : Bool → End → List End
close_if held e = if held then e ∷ [] else []

-- The ends that are closed, `fclose` included, and whether the child is killed; `running` is what
-- `mi_check_running_pid` finds.
unfoldable pub mi_free_h : Held → Bool → Bool → List End × Bool
unfolding close_if
mi_free_h c died running = (
  close_if c.to_gdb to_gdb_0
      ++ (if c.to then to_gdb_1 ∷ [] else close_if c.to_gdb to_gdb_1)
      ++ (if c.from then from_gdb_0 ∷ [] else close_if c.from_gdb from_gdb_0)
      ++ close_if c.from_gdb from_gdb_1,
  not died && c.pid && running,
)

-- What the operating system answers: `access`, each `pipe` and `fdopen`, `fork`, and whether the child
-- is found running.
pub record Launch : Type 0 where
  pub executable : Bool
  pub pipe_to : Bool
  pub pipe_from : Bool
  pub stream_to : Bool
  pub stream_from : Bool
  pub forked : Bool
  pub child_running : Bool

-- A connection, or the ends that were closed on the way out and whether a child was killed.
pub data Connection : Type 0 where
  connected_to : Handle → Held → Connection
  given_up : List End × Bool → Connection

-- `mi_error=e; mi_free_h(&h); return NULL;`. A child that is there was collected by the `waitpid` of
-- `mi_check_running`, so that of `mi_free_h` fails, which the code takes for a running child.
give_up_with : ℕ → Held → M Connection
unfolding mi_free_h
give_up_with e c = do set_error e; pure (given_up (mi_free_h c false true))

-- With the time-out that the new handle has, wait for the prompt, and send the start-up commands.
greet : Surroundings → Option (List Bytes) → Held → M Connection
unfolding mi_get_response_blk mi_send_commands
greet xs gdb_start c = do
  r ← mi_get_response_blk (xs 0).0 (xs 0).1 (record mi_alloc_h { time_out = mi_default_time_out })
  h ← mi_send_commands (λ i. xs (suc i)) r.1 gdb_start
  pure (connected_to h c)

start_child : Launch → Surroundings → Option (List Bytes) → Held → M Connection
unfolding give_up_with greet
start_child l xs gdb_start c =
    if not l.forked
    then give_up_with mi_fork c
    else if not l.child_running
    then give_up_with mi_debugger_run (record c { pid = true })
    else greet xs gdb_start (record c { pid = true })

open_streams : Launch → Surroundings → Option (List Bytes) → Held → M Connection
unfolding give_up_with start_child
open_streams l xs gdb_start c =
    let c' : Held = record c { to = l.stream_to; from = l.stream_from } in
    if l.stream_to && l.stream_from
    then start_child l xs gdb_start c'
    else give_up_with mi_pipe_create c'

-- The second `pipe` is called only after the first.
open_pipes : Launch → Surroundings → Option (List Bytes) → M Connection
unfolding give_up_with open_streams
open_pipes l xs gdb_start =
    let c : Held = record {
      to_gdb = l.pipe_to;
      from_gdb = l.pipe_to && l.pipe_from;
      to = false;
      from = false;
      pid = false;
    } in
    if l.pipe_to && l.pipe_from
    then open_streams l xs gdb_start c
    else give_up_with mi_pipe_create c

-- `gdb_start` is what that file holds.
unfoldable pub mi_connect_local : Launch → Surroundings → Option (List Bytes) → M Connection
unfolding open_pipes
mi_connect_local l xs gdb_start = do
  set_error mi_ok
  if not l.executable then (do set_error mi_missing_gdb; pure (given_up ([], false))) else (do
    given ← mi_calloc
    if given then open_pipes l xs gdb_start else pure (given_up ([], false)))
