-- ===== src/Extract/Memory.antt =====
-- The contents of memory (src/parse.c): `mi_get_read_memory`.
pub mod Bounds
use libmigdb.Base.{
  ℕ, suc, ◌-◌, Bytes, codes, str_eq, ◌==◌, if◌then◌else◌, Bool, true, false, Option, none, some,
  List, [], ◌∷◌, ◌++◌,
}
use libmigdb.World.{M, pure, crash, ◌>>=◌}
use libmigdb.Tree.{Value, Results, t_const, t_tuple, t_list, no_results, result}
use libmigdb.Connect.Handle.{Handle}
use libmigdb.Connect.Wait.{Wait}
use libmigdb.Query.{mi_res_done_var}
use libmigdb.Extract.{Libc, walk, required, to_byte}

-- What the call has found so far: `ok`, `*na`, `*addr` if it was written, the bytes written to `dest`,
-- and how many more `dest` can hold.
pub record Memory : Type 0 where
  pub ok : ℕ
  pub na : Bool
  pub addr : Option ℕ
  pub bytes : Bytes
  pub room : ℕ

abbrev pub no_memory : ℕ → Memory
no_memory size = record { ok = 0; na = false; addr = none; bytes = []; room = size }

-- `*(dest++)=b;`, which faults behind the buffer.
unfoldable pub put : ℕ → Memory → M Memory
put b m =
    if m.room == 0 then crash else pure (record m { bytes = m.bytes ++ b ∷ []; room = m.room - 1 })

module _ (libc : Libc) where
  unfoldable pub data_step : Option Bytes → Value → Memory → M Memory
  unfolding put
  data_step var (t_const text) m = required text (λ s. put (to_byte (libc.strtol s)) m)
  data_step var _ m = pure m

  unfoldable pub data_bytes : Results → Memory → M Memory
  unfolding walk data_step
  data_bytes (result var (t_const none) rs) m = crash
  data_bytes (result var (t_const (some text)) rs) m =
      if str_eq text (codes "N/A")
      then pure (record m { na = true })
      else walk data_step (result var (t_const (some text)) rs) m
  data_bytes rs m = walk data_step rs m

  unfoldable pub memory_step : Option Bytes → Value → Memory → M Memory
  unfolding data_bytes
  memory_step var (t_list rs) m = required var (λ name.
      if str_eq name (codes "data") then data_bytes rs (record m { ok = suc m.ok }) else pure m)
  memory_step var (t_const text) m = required var (λ name.
      if str_eq name (codes "addr")
      then required text (λ s. pure (record m { ok = suc m.ok; addr = some (libc.strtoul s) }))
      else pure m)
  memory_step var (t_tuple rs) m = pure m

  -- The first row of the list. An empty list is read through a null pointer.
  unfoldable pub memory_row : ℕ → Results → M Memory
  unfolding walk memory_step
  memory_row size no_results = crash
  memory_row size (result var (t_tuple row) rs) = walk memory_step row (no_memory size)
  memory_row size _ = pure (no_memory size)

  memory_of : ℕ → ℕ → Option Value → M Memory
  unfolding memory_row
  memory_of size ws (some (t_list rs)) =
      if ws == 1 then memory_row size rs else pure (no_memory size)
  memory_of size ws _ = pure (no_memory size)

  -- `size` is how many bytes `dest` can hold, which the code is not told. The value returned is
  -- `ok==2`; `*addr` is written only if `addr` is not null.
  unfoldable pub mi_get_read_memory :
      Bool → List Wait → Handle → ℕ → ℕ → M ((Bool × Memory) × Handle)
  unfolding mi_res_done_var memory_of
  mi_get_read_memory running waits h size ws = do
    r ← mi_res_done_var running waits h (codes "memory")
    m ← memory_of size ws r.0
    pure ((m.ok == 2, m), r.1)
