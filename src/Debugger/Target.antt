-- ===== src/Debugger/Target.antt =====
-- Connecting to gdb, selecting a target, and the way back (src/cpp_int.cc), with `mi_disconnect`
-- (src/connect.c).
use libmigdb.Base.{
  ℕ, suc, ◌+◌, ◌==◌, Bytes, codes, length, if◌then◌else◌, Bool, true, false, Option, none, some,
  List, [], ◌∷◌, ◌++◌,
}
use libmigdb.World.{M, ret, pure, crash, mi_gdb_died, out_of_fuel, ◌>>=◌, ◌>>◌}
use libmigdb.Connect.Handle.{Handle}
use libmigdb.Extract.{ℤ}
use libmigdb.Extract.Frames.{Frame}
use libmigdb.Command.{Surroundings}
use libmigdb.Command.Misc.{gmi_gdb_exit}
use libmigdb.Command.Control.{gmi_set_exec, gmi_file_symbol_file, gmi_target_terminal}
use libmigdb.Command.Target.{
  gmi_target_select, gmi_target_detach, gmi_target_download, gmi_target_attach,
}
use libmigdb.Debugger.Running.{stop, poll, kill}
use libmigdb.Debugger.{
  disconnected, connected, target_specified, stopped, Mode, dm_x11, dm_linux, dm_remote, dm_pid,
  en_unknown, ar_unknown, Debugger, Settings, is_disconnected, is_connected, is_target_specified,
  is_running, is_stopped, using, move_if,
}

-- `connection` is what `mi_connect_local` returns. A null handle is stored as well.
unfoldable pub connect_to : Option Handle → Debugger → Bool × Debugger
connect_to none d = (false, record d { h = none })
connect_to (some h) d = (true, record d { h = some h; state = connected })

unfoldable pub connect : Option Handle → Debugger → M (Bool × Debugger)
unfolding connect_to
connect connection d =
    if is_disconnected d.state then pure (connect_to connection d) else pure (false, d)

-- The handle is released, and the message of gdb with it.
unfoldable pub mi_disconnect : M (Unit {0})
mi_disconnect w = ret tt (record w { error_from_gdb = none })

unfoldable pub disconnect : Surroundings → Debugger → M (Bool × Debugger)
unfolding using gmi_gdb_exit mi_disconnect
disconnect xs d =
    if is_connected d.state
    then (do
      r ← using d (gmi_gdb_exit (xs 0).0 (xs 0).1)
      mi_disconnect
      pure (true, record r.1 { h = none; state = disconnected }))
    else pure (false, d)

-- The terminal of the program: the one that is given, or a new one, whose name `opened` is, `none` if
-- `gmi_look_for_free_vt` or `gmi_start_xterm` returns null.
unfoldable pub program_tty : Option Bytes → Option Bytes → Debugger → Option Bytes × Debugger
program_tty opened (some auxtty) d = (some auxtty, d)
program_tty opened none d = (opened, record d { aux_tty = opened })

unfoldable pub tty_selected : Bool × Debugger → Bool × Debugger
tty_selected (false, d) = (false, d)
tty_selected (true, d) = (true, record d { state = target_specified; pre_run = some false })

unfoldable pub select_terminal : Surroundings → Option Bytes × Debugger → M (Bool × Debugger)
unfolding using gmi_target_terminal tty_selected
select_terminal xs (none, d) = pure (false, d)
select_terminal xs (some tty_name, d) = do
  r ← using d (λ h. gmi_target_terminal (xs 2).0 (xs 2).1 h tty_name)
  pure (tty_selected r)

unfoldable pub exec_set :
    Surroundings → Option Bytes → Option Bytes → Bool × Debugger → M (Bool × Debugger)
unfolding program_tty select_terminal
exec_set xs opened auxtty (false, d) = pure (false, d)
exec_set xs opened auxtty (true, d) = select_terminal xs (program_tty opened auxtty d)

unfoldable pub forgotten : Mode → Debugger → Debugger
forgotten m d = record d { target_endian = en_unknown; target_arch = ar_unknown; mode = some m }

module _ (g : Settings) (xs : Surroundings) where
  unfoldable pub select_target_tty :
      Option Bytes → Bytes → Option Bytes → Option Bytes → Mode → Debugger → M (Bool × Debugger)
  unfolding using gmi_set_exec exec_set forgotten
  select_target_tty opened exec args auxtty m d =
      if is_connected d.state
      then (do
        r ←
            using (forgotten m d)
              (λ h. gmi_set_exec g.psym_search (xs 0).0 (xs 0).1 (xs 1).0 (xs 1).1 h exec args)
        exec_set xs opened auxtty r)
      else pure (false, d)

  unfoldable pub select_target_x11 :
      Option Bytes → Bytes → Option Bytes → Option Bytes → Debugger → M (Bool × Debugger)
  unfolding select_target_tty
  select_target_x11 opened exec args auxtty = select_target_tty opened exec args auxtty dm_x11

  unfoldable pub select_target_linux :
      Option Bytes → Bytes → Option Bytes → Option Bytes → Debugger → M (Bool × Debugger)
  unfolding select_target_tty
  select_target_linux opened exec args auxtty = select_target_tty opened exec args auxtty dm_linux

  unfoldable pub load_symbols : Bool → Bytes → Handle → M (Bool × Handle)
  unfolding gmi_set_exec gmi_file_symbol_file
  load_symbols true exec h =
      gmi_set_exec g.psym_search (xs 0).0 (xs 0).1 (xs 1).0 (xs 1).1 h exec none
  load_symbols false exec h = gmi_file_symbol_file g.psym_search (xs 0).0 (xs 0).1 h exec

  -- The answers to the commands of the connection file stand between the two commands.
  unfoldable pub commands_sent : Option (List Bytes) → ℕ
  commands_sent none = 0
  commands_sent (some bs) = length bs

  unfoldable pub download_if : Bool → Bool × Debugger → M (Bool × Debugger)
  unfolding using gmi_target_download commands_sent
  download_if download (false, d) = pure (false, d)
  download_if false (true, d) = pure (move_if target_specified (true, d))
  download_if true (true, d) = do
    let i = 2 + commands_sent g.conn
    r ← using d (gmi_target_download (xs i).0 (xs i).1)
    pure (move_if target_specified r)

  unfoldable pub symbols_loaded :
      Bytes → Option Bytes → Bool → Bool × Debugger → M (Bool × Debugger)
  unfolding using gmi_target_select download_if
  symbols_loaded rparams rtype download (false, d) = pure (false, d)
  symbols_loaded rparams rtype download (true, d) = do
    let type : Bytes = elim rtype [ none ↦ codes "extended-remote" | some t ↦ t ]
    r ← using d (λ h. gmi_target_select (λ i. xs (suc i)) g.conn h type rparams)
    download_if download r

  unfoldable pub select_target_remote :
      Bytes → Bytes → Option Bytes → Bool → Debugger → M (Bool × Debugger)
  unfolding using forgotten load_symbols symbols_loaded
  select_target_remote exec rparams rtype download d =
      if is_connected d.state
      then (do
        r ←
            using (record (forgotten dm_remote d) { pre_run = some true })
              (load_symbols download exec)
        symbols_loaded rparams rtype download r)
      else pure (false, d)

  -- Null after a failure to load the symbols; the state is `stopped` by then.
  unfoldable pub attached : Bytes → Option Frame × Debugger → M (Option Frame × Debugger)
  unfolding using gmi_file_symbol_file
  attached exec (none, d) = pure (none, d)
  attached exec (some res, d) = do
    r ←
        using (record d { state = stopped })
          (λ h. gmi_file_symbol_file g.psym_search (xs 1).0 (xs 1).1 h exec)
    pure (if r.0 then some res else none, r.1)

  unfoldable pub select_target_pid : Bytes → ℤ → Debugger → M (Option Frame × Debugger)
  unfolding using forgotten gmi_target_attach attached
  select_target_pid exec pid d =
      if is_connected d.state
      then (do
        r ←
            using (record (forgotten dm_pid d) { pre_run = some false })
              (λ h. gmi_target_attach g.libc (xs 0).0 (xs 0).1 h pid)
        attached exec r)
      else pure (none, d)

-- The terminal is closed, if there is one.
unfoldable pub end_terminal : Debugger → M (Bool × Debugger)
end_terminal d =
    if is_target_specified d.state
    then pure (true, record d { aux_tty = none; state = connected })
    else pure (false, d)

unfoldable pub detach : Surroundings → Debugger → M (Bool × Debugger)
unfolding using gmi_target_detach
detach xs d =
    if is_target_specified d.state
    then pure (true, record d { state = connected })
    else if is_stopped d.state
    then (do r ← using d (gmi_target_detach (xs 0).0 (xs 0).1); pure (move_if connected r))
    else pure (false, d)

-- `mode` is read without a value if no target was selected.
unfoldable pub unselect : Surroundings → Option Mode → Debugger → M (Bool × Debugger)
unfolding end_terminal detach
unselect xs none d = crash
unselect xs (some dm_x11) d = end_terminal d
unselect xs (some dm_linux) d = end_terminal d
unselect xs (some dm_remote) d = detach xs d
unselect xs (some dm_pid) d = detach xs d

unfoldable pub target_unselect : Surroundings → Debugger → M (Bool × Debugger)
unfolding unselect
target_unselect xs d = unselect xs d.mode d

unfoldable pub polled : {A : Type 0} → (Debugger → M Debugger) → Option A × Debugger → M Debugger
polled next (none, d) = next d
polled next (some rs, d) = pure d

-- `while (!Poll(rs));`: at each turn so many bytes more can be read from the pipe.
unfoldable pub poll_until : Settings → List Bytes → Debugger → M Debugger
unfolding using poll polled
poll_until g [] d = λ w. out_of_fuel
poll_until g (s ∷ ss) d =
    let next = poll_until g ss in
    (do
      r ← using d (λ h. pure (tt, record h { pipe = h.pipe ++ s }))
      q ← poll g r.1
      polled next q)

module _ (g : Settings) (xs ys : Surroundings) (arrivals : List Bytes) where
  unfoldable pub stop_running : Debugger → M Debugger
  unfolding stop poll_until
  stop_running d =
      if is_running d.state
      then (do r ← stop d; d' ← poll_until g arrivals r.1; pure (record d' { state = stopped }))
      else pure d

  unfoldable pub end_program : Debugger → M Debugger
  unfolding kill
  end_program d =
      if is_stopped d.state
      then (do r ← kill xs d; pure (record r.1 { state = target_specified }))
      else pure d

  unfoldable pub end_target : Debugger → M Debugger
  unfolding target_unselect
  end_target d =
      if is_target_specified d.state
      then (do r ← target_unselect ys d; pure (record r.1 { state = connected }))
      else pure d

  unfoldable pub end_connection : Debugger → M Debugger
  unfolding disconnect
  end_connection d =
      if is_connected d.state then (do r ← disconnect (λ i. ys (suc i)) d; pure r.1) else pure d

  -- The destructor. `xs` answers `Kill`, and `ys` what comes after it.
  unfoldable pub destroy : Debugger → M Debugger
  unfolding stop_running end_program end_target end_connection
  destroy d = do d₁ ← stop_running d; d₂ ← end_program d₁; d₃ ← end_target d₂; end_connection d₃

unfoldable pub error_number : Debugger → M (ℕ × Debugger)
error_number d w = ret (w.error, d) w

unfoldable pub give_up : Surroundings → Debugger → M (ℕ × Debugger)
unfolding target_unselect disconnect error_number
give_up xs d = do
  r ← target_unselect xs (record d { state = target_specified })
  q ← disconnect xs (record r.1 { state = connected })
  error_number q.1

-- After the death of gdb the connection is given up.
unfoldable pub get_error_number_st : Surroundings → Debugger → M (ℕ × Debugger)
unfolding give_up error_number
get_error_number_st xs d w = (if w.error == mi_gdb_died then give_up xs d else error_number d) w
