-- ===== src/Debugger/Points.antt =====
-- Breakpoints and watchpoints of `MIDebugger` (src/cpp_int.cc, src/mi_gdb.h).
use libmigdb.Base.{ℕ, zero, suc, Bytes, codes, Bool, true, false, Option, none, some, [], ◌∷◌, ◌++◌}
use libmigdb.World.{M, pure, crash}
use libmigdb.Extract.{ℤ}
use libmigdb.Extract.Breakpoints.{
  Bkpt, BkpType, t_hw, BkpDisp, d_del, BkpMode, m_file_line, m_function, m_file_function, m_address,
  Wp, WpMode,
}
use libmigdb.Command.{Surroundings}
use libmigdb.Command.Breakpoint.{
  gmi_break_insert, gmi_break_insert_full, gmi_break_insert_full_fl, gmi_break_delete,
  gmi_break_set_times, gmi_break_watch,
}
use libmigdb.Debugger.{Debugger, Settings, if_selected}

-- `snprintf` into a buffer of that many bytes.
unfoldable pub snprintf : ℕ → Bytes → Bytes
snprintf zero s = []
snprintf (suc zero) s = []
snprintf (suc (suc n)) [] = []
snprintf (suc (suc n)) (c ∷ s) = c ∷ snprintf (suc n) s

is_del : BkpDisp → Bool
is_del d_del = true
is_del _ = false

is_hw : BkpType → Bool
is_hw t_hw = true
is_hw _ = false

-- `PATH_MAX+256`, on Linux.
abbrev max_where : ℕ
max_where = 4352

module _ (g : Settings) (xs : Surroundings) where
  unfoldable pub breakpoint_line : Bytes → ℤ → Debugger → M (Option Bkpt × Debugger)
  unfolding if_selected gmi_break_insert
  breakpoint_line file line d =
      if_selected none (λ h. gmi_break_insert g.libc (xs 0).0 (xs 0).1 h file line) d

  unfoldable pub breakpoint :
      Bytes → Bool → Option Bytes → ℤ → ℤ → Bool → Debugger → M (Option Bkpt × Debugger)
  unfolding if_selected gmi_break_insert_full
  breakpoint where_ temporary cond count thread hard_assist d =
      if_selected none
        (λ h.
          gmi_break_insert_full g.libc (xs 0).0 (xs 0).1 h temporary hard_assist cond count thread
            where_)
        d

  -- The text of a place. A null string that is printed faults.
  place : BkpMode → Option Bytes → ℤ → Option Bytes → ℕ → Option Bytes
  place m_file_line (some file) line func addr = some (file ++ codes ":" ++ g.libc.print_int line)
  place m_function file line (some func) addr = some func
  place m_file_function (some file) line (some func) addr = some (file ++ codes ":" ++ func)
  place m_address file line func addr = some (codes "*" ++ g.libc.print_pointer addr)
  place _ _ _ _ _ = none

  unfoldable pub breakpoint_again : Bkpt → Debugger → M (Option Bkpt × Debugger)
  unfolding if_selected gmi_break_insert_full place snprintf is_del is_hw
  breakpoint_again b d =
      if_selected none
        (λ h. elim (place b.mode b.file b.line b.func b.addr) [
          | none ↦ crash
          | some s ↦
              gmi_break_insert_full g.libc (xs 0).0 (xs 0).1 h (is_del b.disp) (is_hw b.type) b.cond
                b.ignore b.thread (snprintf max_where s)
        ])
        d

  unfoldable pub breakpoint_full :
      Bytes → ℤ → Bool → Option Bytes → ℤ → ℤ → Bool → Debugger → M (Option Bkpt × Debugger)
  unfolding if_selected gmi_break_insert_full_fl
  breakpoint_full file line temporary cond count thread hard_assist d =
      if_selected none
        (λ h.
          gmi_break_insert_full_fl g.libc (xs 0).0 (xs 0).1 h file line temporary hard_assist cond
            count thread)
        d

  unfoldable pub break_delete : Option Bkpt → Debugger → M (Bool × Debugger)
  unfolding if_selected gmi_break_delete
  break_delete none d = pure (false, d)
  break_delete (some b) d =
      if_selected false (λ h. gmi_break_delete g.libc (xs 0).0 (xs 0).1 h b.number) d

  unfoldable pub break_after : Bkpt → Debugger → M (Bool × Debugger)
  unfolding if_selected gmi_break_set_times
  break_after b d =
      if_selected false (λ h. gmi_break_set_times g.libc (xs 0).0 (xs 0).1 h b.number b.ignore) d

  unfoldable pub watchpoint : WpMode → Bytes → Debugger → M (Option Wp × Debugger)
  unfolding if_selected gmi_break_watch
  watchpoint mode exp d =
      if_selected none (λ h. gmi_break_watch g.libc (xs 0).0 (xs 0).1 h mode exp) d

  unfoldable pub watch_delete : Option Wp → Debugger → M (Bool × Debugger)
  unfolding if_selected gmi_break_delete
  watch_delete none d = pure (false, d)
  watch_delete (some w) d =
      if_selected false (λ h. gmi_break_delete g.libc (xs 0).0 (xs 0).1 h w.number) d
