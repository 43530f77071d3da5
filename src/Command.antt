-- ===== src/Command.antt =====
-- Commands (src/connect.c, src/breakpoint.c, src/prg_control.c, src/var_obj.c, src/data_man.c,
-- src/stack_man.c, src/misc.c, src/thread.c, src/target_man.c): each writes a line to gdb, and its
-- `gmi_` function waits for the response and takes the result from it.
--
-- A `const char *` that is handed to `%s` is a string; one that may be null is an `Option`.
pub mod Breakpoint
pub mod Control
pub mod Sent
pub mod Variables
pub mod Data
pub mod Stack
pub mod Misc
pub mod Threads
pub mod Target
use libmigdb.Base.{
  ◌==◌, ℕ, suc, ◌+◌, ◌*◌, ◌%◌, Option, none, some, Bytes, codes, if◌then◌else◌, Bool, true, false,
  List, [], ◌∷◌, ◌++◌,
}
use mathlib.Core.Option
use libmigdb.World.{M, pure, crash, sys_alloc, ◌>>=◌}
use libmigdb.Connect.Wait.{Wait}
use libmigdb.Query.{mi_res_simple_done}
use libmigdb.Connect.Handle.{Handle, call, sent, to_gdb_echo}

put_text : Handle → Bytes → Handle
unfolding call
put_text h s =
    call h.callbacks.has_to_gdb_echo (to_gdb_echo s) (record h { events = h.events ++ sent s ∷ [] })

-- The text after formatting. After a refused block `vasprintf` leaves `str` undefined, and `fputs`
-- reads it. No caller uses the value returned.
unfoldable pub mi_send : Handle → Bytes → M Handle
unfolding put_text
mi_send h s =
    if h.died then pure h else (do given ← sys_alloc; if given then pure (put_text h s) else crash)

-- The pieces of a format and its arguments.
unfoldable pub line_of : List Bytes → Bytes
line_of [] = []
line_of (s ∷ ss) = s ++ line_of ss

unfoldable pub send_line : Handle → List Bytes → M Handle
unfolding mi_send line_of
send_line h ss = mi_send h (line_of ss)

-- A command, and what is made of its response.
unfoldable pub command : {A : Type 0} → M Handle → (Handle → M A) → M A
command low high = do h ← low; high h

-- What the surroundings answer to each response that a function waits for, counted from 0: whether
-- gdb is found running at its start, and the answers while it waits.
abbrev pub Surroundings : Type 0
Surroundings = ℕ → Bool × List Wait

-- A text that is handed to `mi_send` as its format, without arguments: a conversion reads an argument
-- that is not there, and faults.
unfoldable pub formatted : Bytes → Option Bytes
formatted [] = some []
formatted (c ∷ []) = if c == b'%' then none else some (c ∷ [])
formatted (c ∷ d ∷ s) =
    let escaped = Option.map (◌∷◌ b'%') (formatted s) in
    let rest = Option.map (◌∷◌ c) (formatted (d ∷ s)) in
    if c == b'%' then (if d == b'%' then escaped else none) else rest

send_format : Handle → Option Bytes → M Handle
unfolding mi_send
send_format h none = crash
send_format h (some s) = mi_send h s

-- The loop over what `fgets` reads from the file; `i` responses have been waited for. Once gdb has
-- died `mi_send` does not look at the format.
send_commands : Surroundings → ℕ → List Bytes → Handle → M Handle
unfolding formatted send_format mi_res_simple_done
send_commands xs i [] h = pure h
send_commands xs i (b ∷ bs) h =
    let next = send_commands xs (suc i) bs in
    (do
      h₁ ← (if h.died then pure h else send_format h (formatted b))
      r ← mi_res_simple_done (xs i).0 (xs i).1 h₁
      next r.1)

-- `none` stands for a null name and for a file that cannot be opened.
unfoldable pub mi_send_commands : Surroundings → Handle → Option (List Bytes) → M Handle
unfolding send_commands
mi_send_commands xs h none = pure h
mi_send_commands xs h (some bs) = send_commands xs 0 bs h
