-- ===== src/Globals.antt =====
-- The globals that name executables, files and the main function, and the workaround
-- (src/connect.c).
use libmigdb.Base.{
  ℕ, ◌==◌, Bytes, codes, length, leb, if◌then◌else◌, Bool, true, false, not, Option, none, some,
  List, [], ◌∷◌, ◌++◌,
}
use libmigdb.World.{M, pure, crash, sys_alloc, ◌>>=◌}

-- `disabled` is `disable_psym_search_workaround`; `registered` is the static variable of
-- `mi_register_exit`, whose call of `atexit` it stands for.
pub record Globals : Type 0 where
  pub gdb_exe : Option Bytes
  pub xterm_exe : Option Bytes
  pub gdb_start : Option Bytes
  pub gdb_conn : Option Bytes
  pub main_func : Option Bytes
  pub disabled : Bool
  pub registered : Bool

unfoldable pub mi_clean_up_globals : Globals → Globals
mi_clean_up_globals g = record g {
  gdb_exe = none;
  xterm_exe = none;
  gdb_start = none;
  gdb_conn = none;
  main_func = none;
}

unfoldable pub mi_register_exit : Globals → Globals
mi_register_exit g = record g { registered = true }

-- `name ? strdup(name) : NULL`.
unfoldable pub copy_name : Option Bytes → M (Option Bytes)
copy_name none = pure none
copy_name (some name) = do given ← sys_alloc; pure (if given then some name else none)

unfoldable pub mi_set_gdb_exe : Option Bytes → Globals → M Globals
unfolding copy_name mi_register_exit
mi_set_gdb_exe name g = do s ← copy_name name; pure (mi_register_exit (record g { gdb_exe = s }))

unfoldable pub mi_set_gdb_start : Option Bytes → Globals → M Globals
unfolding copy_name mi_register_exit
mi_set_gdb_start name g = do
  s ← copy_name name
  pure (mi_register_exit (record g { gdb_start = s }))

unfoldable pub mi_set_gdb_conn : Option Bytes → Globals → M Globals
unfolding copy_name mi_register_exit
mi_set_gdb_conn name g = do s ← copy_name name; pure (mi_register_exit (record g { gdb_conn = s }))

unfoldable pub mi_set_xterm_exe : Option Bytes → Globals → M Globals
unfolding copy_name mi_register_exit
mi_set_xterm_exe name g = do
  s ← copy_name name
  pure (mi_register_exit (record g { xterm_exe = s }))

unfoldable pub mi_set_main_func : Option Bytes → Globals → M Globals
unfolding copy_name mi_register_exit
mi_set_main_func name g = do
  s ← copy_name name
  pure (mi_register_exit (record g { main_func = s }))

unfoldable pub mi_get_gdb_start : Globals → Option Bytes
mi_get_gdb_start g = g.gdb_start

unfoldable pub mi_get_gdb_conn : Globals → Option Bytes
mi_get_gdb_conn g = g.gdb_conn

-- `PATH_MAX`, on Linux.
abbrev path_max : ℕ
path_max = 4096

-- `is_file` is what `stat` says of a path. The path is put together in a buffer of `path_max` bytes,
-- its NUL included.
unfoldable pub search : (Bytes → Bool) → Bytes → List Bytes → M (Option Bytes)
unfolding copy_name
search is_file file [] = pure none
search is_file file (r ∷ rs) =
    let rest = search is_file file rs in
    let test = r ++ codes "/" ++ file in
    if leb path_max (length test)
    then crash
    else if is_file test
    then copy_name (some test)
    else rest

-- The pieces of `PATH` between colons, as `strtok` gives them; `none` stands for no `PATH`. After a
-- refused `strdup`, `strtok` goes on with a null pointer, which faults at its first call.
unfoldable pub mi_search_in_path : (Bytes → Bool) → Option (List Bytes) → Bytes → M (Option Bytes)
unfolding search
mi_search_in_path is_file none file = pure none
mi_search_in_path is_file (some path) file = do
  given ← sys_alloc
  if given then search is_file file path else crash

-- The name, and the globals: what is found is kept.
known_exe : Bytes → Option Bytes → Bytes
known_exe otherwise none = otherwise
known_exe otherwise (some exe) = exe

unfoldable pub mi_get_gdb_exe : (Bytes → Bool) → Option (List Bytes) → Globals → M (Bytes × Globals)
unfolding mi_search_in_path known_exe
mi_get_gdb_exe is_file path g = elim g.gdb_exe [
  | some exe ↦ pure (exe, g)
  | none ↦ (do
    exe ← mi_search_in_path is_file path (codes "gdb")
    pure (known_exe (codes "/usr/bin/gdb") exe, record g { gdb_exe = exe }))
]

unfoldable pub mi_get_xterm_exe :
    (Bytes → Bool) → Option (List Bytes) → Globals → M (Bytes × Globals)
unfolding mi_search_in_path known_exe
mi_get_xterm_exe is_file path g = elim g.xterm_exe [
  | some exe ↦ pure (exe, g)
  | none ↦ (do
    exe ← mi_search_in_path is_file path (codes "xterm")
    pure (known_exe (codes "/usr/bin/X11/xterm") exe, record g { xterm_exe = exe }))
]

-- `MI_PSYM_SEARCH`.
abbrev mi_psym_search : ℕ
mi_psym_search = 0

unfoldable pub mi_set_workaround : ℕ → Bool → Globals → Globals
mi_set_workaround wa enable g =
    if wa == mi_psym_search then record g { disabled = not enable } else g

unfoldable pub mi_get_workaround : ℕ → Globals → Bool
mi_get_workaround wa g = if wa == mi_psym_search then not g.disabled else false
