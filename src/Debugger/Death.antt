-- ===== src/Debugger/Death.antt =====
-- The destructor of `MIDebugger` after the death of gdb.
use libmigdb.Base.{
  Bytes, Bool, true, false, some, none, List, [], ◌∷◌, ◌++◌, ◌≡◌, refl, All, ap, ◌∙◌, sym,
}
use libmigdb.World.{World, Outcome, ret, out_of_fuel, mi_gdb_died}
use libmigdb.Connect.Handle.{Handle, interrupted}
use libmigdb.Command.{Surroundings}
use libmigdb.Command.Control.{gmi_exec_interrupt}
use libmigdb.Debugger.Target.{poll_until, destroy}
use libmigdb.Debugger.{
  disconnected, connected, target_specified, running, stopped, State, Mode, dm_x11, dm_linux,
  dm_remote, dm_pid, Debugger, Settings, is_disconnected, is_running,
}

-- The loop is not over after so many turns, or the object is given up.
abbrev pub Ends : Bool → Outcome Debugger → World → Type 0
Ends true o w = o ≡ out_of_fuel
Ends false o w =
    (d : Debugger) × (o ≡ ret d (record w { error = mi_gdb_died; error_from_gdb = none }))
    × (d.state ≡ disconnected)
    × (d.h ≡ none)

module _ (g : Settings) (xs ys : Surroundings) (arrivals : List Bytes) (d : Debugger) (h : Handle)
    (w : World) where
  destroy-connected :
      d.h ≡ some h
      → h.died ≡ true
      → d.state ≡ connected
      → Ends false (destroy g xs ys arrivals d w) w
  unfolding destroy
  destroy-connected e i s =
      (record d { state = disconnected; h = none }, rw (s, e, i) refl, refl, refl)

  destroy-selected :
      (m : Mode)
      → d.h ≡ some h
      → h.died ≡ true
      → d.state ≡ target_specified
      → d.mode ≡ some m
      → Ends false (destroy g xs ys arrivals d w) w
  unfolding destroy
  destroy-selected dm_x11 e i s f = (
    record d { state = disconnected; h = none; aux_tty = none },
    rw (s, e, i, f) refl,
    refl,
    refl,
  )
  destroy-selected dm_linux e i s f = (
    record d { state = disconnected; h = none; aux_tty = none },
    rw (s, e, i, f) refl,
    refl,
    refl,
  )
  destroy-selected dm_remote e i s f =
      (record d { state = disconnected; h = none }, rw (s, e, i, f) refl, refl, refl)
  destroy-selected dm_pid e i s f =
      (record d { state = disconnected; h = none }, rw (s, e, i, f) refl, refl, refl)

  destroy-stopped :
      (m : Mode)
      → d.h ≡ some h
      → h.died ≡ true
      → d.state ≡ stopped
      → d.mode ≡ some m
      → Ends false (destroy g xs ys arrivals d w) w
  unfolding destroy libmigdb.Base.str_eq
  destroy-stopped dm_x11 e i s f = (
    record d { state = disconnected; h = none; aux_tty = none },
    rw (s, e, i, f) refl,
    refl,
    refl,
  )
  destroy-stopped dm_linux e i s f = (
    record d { state = disconnected; h = none; aux_tty = none },
    rw (s, e, i, f) refl,
    refl,
    refl,
  )
  destroy-stopped dm_remote e i s f =
      (record d { state = disconnected; h = none }, rw (s, e, i, f) refl, refl, refl)
  destroy-stopped dm_pid e i s f =
      (record d { state = disconnected; h = none }, rw (s, e, i, f) refl, refl, refl)

-- Nothing comes, so every turn is like the one before.
poll_until-silent :
    (g : Settings) (arrivals : List Bytes) (d : Debugger) (h : Handle) (w : World)
    → d.h ≡ some h
    → h.pipe ≡ []
    → is_disconnected d.state ≡ false
    → All (λ (s : Bytes). s ≡ []) arrivals
    → poll_until g arrivals d w ≡ out_of_fuel
unfolding poll_until
poll_until-silent g [] d h w e p a n = refl
poll_until-silent g (s ∷ ss) d h w e p a n =
    rw (e, p, n.0, a)
      (poll_until-silent g ss (record d { h = some (record h { pipe = [] }) })
        (record h { pipe = [] }) w refl refl a n.1)

module _ (g : Settings) (xs ys : Surroundings) (arrivals : List Bytes) (d : Debugger) (h : Handle)
    (w : World) where
  destroy-running :
      d.h ≡ some h
      → h.pipe ≡ []
      → d.state ≡ running
      → All (λ (s : Bytes). s ≡ []) arrivals
      → destroy g xs ys arrivals d w ≡ out_of_fuel
  unfolding destroy gmi_exec_interrupt
  destroy-running e p s n =
      let h₁ : Handle = record h { events = h.events ++ interrupted ∷ [] } in
      let d₁ : Debugger = record d { state = running; h = some h₁ } in
      rw (s, e, poll_until-silent g arrivals d₁ h₁ w refl p refl n) refl

  destroy-from :
      (s : State) (m : Mode)
      → d.state ≡ s
      → d.h ≡ some h
      → h.died ≡ true
      → h.pipe ≡ []
      → d.mode ≡ some m
      → All (λ (b : Bytes). b ≡ []) arrivals
      → is_disconnected s ≡ false
      → Ends (is_running s) (destroy g xs ys arrivals d w) w
  destroy-from disconnected m c e i p f n a = cc
  destroy-from connected m c e i p f n a = destroy-connected g xs ys arrivals d h w e i c
  destroy-from target_specified m c e i p f n a = destroy-selected g xs ys arrivals d h w m e i c f
  destroy-from running m c e i p f n a = destroy-running e p c n
  destroy-from stopped m c e i p f n a = destroy-stopped g xs ys arrivals d h w m e i c f

  -- When the handle has noticed the death of gdb, nothing is left in the pipe and nothing comes any
  -- more, the destructor of an object with a target that is not `running` returns: the object is
  -- disconnected and without a handle, `mi_error` says that gdb has died, and its message is
  -- released. That of a `running` object polls for ever: after any number of turns it is in its loop.
  pub destroy-Ends :
      (m : Mode)
      → is_disconnected d.state ≡ false
      → d.h ≡ some h
      → h.died ≡ true
      → h.pipe ≡ []
      → d.mode ≡ some m
      → All (λ (b : Bytes). b ≡ []) arrivals
      → Ends (is_running d.state) (destroy g xs ys arrivals d w) w
  destroy-Ends m a e i p f n = destroy-from d.state m refl e i p f n a
