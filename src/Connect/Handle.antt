-- ===== src/Connect/Handle.antt =====
-- The handle `mi_h` (src/mi_gdb.h, src/connect.c), as far as the dialogue with gdb uses it.
use libmigdb.Extract.{ℤ}
use libmigdb.Base.{ℕ, Bytes, Bool, Option, List, [], ◌∷◌, ◌++◌, if◌then◌else◌}
use libmigdb.Tree.{Output}

-- What the library hands to the application's callbacks, or writes to gdb,
-- and the signal that interrupts gdb. The callbacks themselves
-- are the application's; they are assumed not to touch the handle.
pub data Event : Type 0 where
  from_gdb_echo : Bytes → Event
  to_gdb_echo : Bytes → Event
  console : Option Bytes → Event
  target : Option Bytes → Event
  log : Option Bytes → Event
  async : Output → Event
  sent : Bytes → Event
  interrupted : Event

-- Which callbacks are set.
pub record Callbacks : Type 0 where
  pub has_console : Bool
  pub has_target : Bool
  pub has_log : Bool
  pub has_async : Bool
  pub has_to_gdb_echo : Bool
  pub has_from_gdb_echo : Bool
  pub has_time_out_cb : Bool

-- `pipe` is what can be read from `from_gdb[0]` at once. The line buffer has `llen` bytes, of which
-- the first `lread` are `partial`; `line` is the string that the last complete line left there. `po`
-- is the chain of parsed records, and `has_last` says whether `last` is not null. `events` is what
-- the library did to its surroundings, the latest event at the end.
pub record Handle : Type 0 where
  pub died : Bool
  pub pipe : Bytes
  pub llen : ℕ
  pub partial : Bytes
  pub line : Bytes
  pub po : List Output
  pub has_last : Bool
  pub callbacks : Callbacks
  pub catch_console : ℕ
  pub catched_console : Option Bytes
  pub version : ℕ
  pub time_out : ℤ
  pub events : List Event

-- A call of a callback, if it is set.
unfoldable pub call : Bool → Event → Handle → Handle
call set e h = if set then record h { events = h.events ++ e ∷ [] } else h
