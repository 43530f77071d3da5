-- ===== src/Debugger.antt =====
-- The class `MIDebugger` (src/mi_gdb.h, src/cpp_int.cc): its state, its constructor, and the guards
-- that its methods begin with.
--
-- A method is a function from the object before the call to the value returned and the object after
-- it. `Surroundings` answers the waits of one method, counted from 0 in the order of the source.
pub mod Points
pub mod Running
pub mod Target
pub mod Walk
pub mod Inspect
pub mod Wrappers
pub mod Registers
pub mod Callbacks
pub mod Requests
pub mod Steps
pub mod Death
pub mod Dialogue
pub mod Polling
use libmigdb.Base.{
  ℕ, Bytes, codes, if◌then◌else◌, Bool, true, false, ◌||◌, not, Option, none, some, List, ◌≡◌,
}
use libmigdb.World.{M, pure, crash, ◌>>=◌}
use libmigdb.Connect.Handle.{Handle}
use libmigdb.Extract.{Libc}

-- `enum eState`.
pub data State : Type 0 where
  disconnected connected target_specified running stopped : State

-- `enum dMode`.
pub data Mode : Type 0 where
  dm_x11 dm_linux dm_remote dm_pid : Mode

-- `enum endianType` and `enum archType`.
pub data Endian : Type 0 where
  en_unknown en_little en_big : Endian

pub data Arch : Type 0 where
  ar_unknown ar_ia32 ar_sparc ar_pic14 ar_avr ar_unsupported : Arch

-- `h` is `none` for a null pointer and for one whose handle is released. `mode` and `pre_run` are
-- `none` as long as nothing is stored there. `aux_tty` is the name of the terminal that is held.
pub record Debugger : Type 0 where
  pub state : State
  pub mode : Option Mode
  pub target_endian : Endian
  pub target_arch : Arch
  pub pre_run : Option Bool
  pub h : Option Handle
  pub aux_tty : Option Bytes
  pub waiting_temp_bkpt : Bool

-- The constructor.
abbrev pub new_debugger : Debugger
new_debugger = record {
  state = disconnected;
  mode = none;
  target_endian = en_unknown;
  target_arch = ar_unknown;
  pre_run = none;
  h = none;
  aux_tty = none;
  waiting_temp_bkpt = false;
}

-- The globals that the methods read: whether the workaround `MI_PSYM_SEARCH` is on, what the file
-- `gdb_conn` holds, and `main_func`.
pub record Settings : Type 0 where
  pub libc : Libc
  pub psym_search : Bool
  pub conn : Option (List Bytes)
  pub main_func : Option Bytes

abbrev pub mi_get_main_func : Settings → Bytes
mi_get_main_func g = elim g.main_func [ none ↦ codes "main" | some name ↦ name ]

-- Tests on the state.
abbrev pub is_disconnected : State → Bool
is_disconnected disconnected = true
is_disconnected _ = false

abbrev pub is_connected : State → Bool
is_connected connected = true
is_connected _ = false

abbrev pub is_target_specified : State → Bool
is_target_specified target_specified = true
is_target_specified _ = false

abbrev pub is_running : State → Bool
is_running running = true
is_running _ = false

abbrev pub is_stopped : State → Bool
is_stopped stopped = true
is_stopped _ = false

-- A call that uses the handle: null faults.
unfoldable pub using : {A : Type 0} → Debugger → (Handle → M (A × Handle)) → M (A × Debugger)
using d f = elim d.h [ none ↦ crash | some h ↦ (do r ← f h; pure (r.0, record d { h = some r.1 })) ]

-- `if (!(guard)) return a; return f(h,...);`
unfoldable pub guarded :
    {A : Type 0} → Bool → A → (Handle → M (A × Handle)) → Debugger → M (A × Debugger)
unfolding using
guarded guard a f d = if guard then using d f else pure (a, d)

-- The guards `state==stopped`, `state==stopped || state==target_specified`, and neither `running` nor
-- `disconnected`.
unfoldable pub if_stopped :
    {A : Type 0} → A → (Handle → M (A × Handle)) → Debugger → M (A × Debugger)
unfolding guarded
if_stopped a f d = guarded (is_stopped d.state) a f d

unfoldable pub if_selected :
    {A : Type 0} → A → (Handle → M (A × Handle)) → Debugger → M (A × Debugger)
unfolding guarded
if_selected a f d = guarded (is_stopped d.state || is_target_specified d.state) a f d

unfoldable pub if_idle : {A : Type 0} → A → (Handle → M (A × Handle)) → Debugger → M (A × Debugger)
unfolding guarded
if_idle a f d = guarded (not (is_disconnected d.state || is_running d.state)) a f d

-- `if (res) state=s;`
abbrev pub move_if : State → Bool × Debugger → Bool × Debugger
move_if s (true, d) = (true, record d { state = s })
move_if s (false, d) = (false, d)

-- `if (res) state=running;` after the call.
unfoldable pub starting : (Handle → M (Bool × Handle)) → Debugger → M (Bool × Debugger)
unfolding using
starting f d = do r ← using d f; pure (move_if running r)
