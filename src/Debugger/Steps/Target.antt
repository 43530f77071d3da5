-- ===== src/Debugger/Steps/Target.antt =====
-- The transitions of connecting and of selecting a target.
use libmigdb.Base.{Bytes, Bool, true, false, Option, none, some, ◌≡◌, refl, sym, ap, ◌∙◌, ◌==◌}
use libmigdb.World.{World, mi_gdb_died}
use libmigdb.World.After.{
  After, returns, faults, After-continue, After-then, After-if, After-weaken,
}
use libmigdb.Connect.Handle.{Handle}
use libmigdb.Extract.{ℤ}
use libmigdb.Extract.Frames.{Frame}
use libmigdb.Command.{Surroundings}
use libmigdb.Debugger.Target.{
  connect_to, connect, mi_disconnect, disconnect, program_tty, tty_selected, select_terminal,
  exec_set, forgotten, select_target_tty, select_target_x11, select_target_linux, download_if,
  symbols_loaded, select_target_remote, attached, select_target_pid, end_terminal, detach, unselect,
  target_unselect, error_number, give_up, get_error_number_st,
}
use libmigdb.Debugger.{
  State, disconnected, connected, target_specified, running, stopped, Mode, dm_x11, dm_linux,
  dm_remote, dm_pid, Debugger, Settings, is_disconnected, is_connected, is_target_specified,
  is_stopped,
}
use libmigdb.Debugger.Steps.{
  Kind, connecting, disconnecting, selecting, attaching, unselecting, giving_up, stays, connects,
  disconnects, selects, attaches, unselects, detaches, gives_up, can_detach, Step, has, Follows,
  AfterMethod, is_connected-eq, is_target_specified-eq, is_stopped-eq, used-Follows, same-Follows,
  using-then, using-through, move_if-Follows,
}

pub is_disconnected-eq : (s : State) → is_disconnected s ≡ true → s ≡ disconnected
is_disconnected-eq disconnected e = refl
is_disconnected-eq connected e = cc
is_disconnected-eq target_specified e = cc
is_disconnected-eq running e = cc
is_disconnected-eq stopped e = cc

connect_to-Follows :
    (c : Option Handle) (d : Debugger)
    → d.state ≡ disconnected
    → Follows connecting d (connect_to c d).1
unfolding connect_to
connect_to-Follows none d e = record { step = stays; kept = λ _. rw e refl }
connect_to-Follows (some h) d e = record { step = rw e connects; kept = λ _. refl }

pub connect-Follows :
    (c : Option Handle) (d : Debugger) (w : World) → AfterMethod connecting d (connect c d w)
unfolding connect
connect-Follows c d w =
    After-if (is_disconnected d.state) _ _ w
      (λ e. returns (connect_to-Follows c d (is_disconnected-eq d.state e)))
      (λ _. returns (same-Follows connecting d))

pub disconnect-Follows :
    (xs : Surroundings) (d : Debugger) (w : World) → AfterMethod disconnecting d (disconnect xs d w)
unfolding disconnect mi_disconnect
disconnect-Follows xs d w =
    After-if (is_connected d.state) _ _ w
      (λ e. using-then d _ w _ (λ a h h₁ w₁ _.
        returns (record { step = rw (is_connected-eq d.state e) disconnects; kept = λ _. refl })))
      (λ _. returns (same-Follows disconnecting d))

-- While a target is selected the object is connected and keeps a handle. The other fields do not
-- matter.
record Selecting (d d' : Debugger) : Type 0 where
  same_state : d'.state ≡ d.state
  same_handle : has d'.h ≡ has d.h

Selecting-Follows : (k : Kind) (d d' : Debugger) → Selecting d d' → Follows k d d'
Selecting-Follows k d d' s = record {
  step = rw s.same_state stays;
  kept = λ c. rw (s.same_state, s.same_handle) c;
}

-- Selecting a target sets the mode, and is the same step in any mode.
selecting-mode :
    (m m' : Option Mode) (s s' : State) → Step selecting m s s' → Step selecting m' s s'
selecting-mode m m' s s' stays = stays
selecting-mode m m' s s' selects = selects

attaching-mode :
    (m m' : Option Mode) (s s' : State) → Step attaching m s s' → Step attaching m' s s'
attaching-mode m m' s s' stays = stays
attaching-mode m m' s s' attaches = attaches

-- A step from an object that differs from `d` in other fields only.
from-Follows :
    (k : Kind) (d d₁ d' : Debugger)
    → (Step k d₁.mode d₁.state d'.state → Step k d.mode d₁.state d'.state)
    → Selecting d d₁
    → Follows k d₁ d'
    → Follows k d d'
from-Follows k d d₁ d' any s r = record {
  step = rw⁻¹ s.same_state (any r.step);
  kept = λ c. r.kept (rw (s.same_state, s.same_handle) c);
}

tty_selected-Follows :
    (ok : Bool) (d : Debugger) (h h₁ : Handle)
    → d.h ≡ some h₁
    → d.state ≡ connected
    → Follows selecting d (tty_selected (ok, record d { h = some h })).1
unfolding tty_selected
tty_selected-Follows true d h h₁ e c = record { step = rw c selects; kept = λ _. refl }
tty_selected-Follows false d h h₁ e c = used-Follows selecting d h h₁ e

module _ (xs : Surroundings) where
  select_terminal-Follows :
      (tty : Option Bytes) (d : Debugger) (w : World)
      → d.state ≡ connected
      → AfterMethod selecting d (select_terminal xs (tty, d) w)
  unfolding select_terminal
  select_terminal-Follows none d w c = returns (same-Follows selecting d)
  select_terminal-Follows (some tty) d w c =
      using-then d _ w _ (λ ok h h₁ w₁ e. returns (tty_selected-Follows ok d h h₁ e c))

  program-Follows :
      (opened auxtty : Option Bytes) (d : Debugger) (w : World)
      → d.state ≡ connected
      → AfterMethod selecting d (select_terminal xs (program_tty opened auxtty d) w)
  unfolding program_tty
  program-Follows opened (some auxtty) d w c = select_terminal-Follows (some auxtty) d w c
  program-Follows opened none d w c =
      After-weaken (select_terminal-Follows opened (record d { aux_tty = opened }) w c) (λ r _ p.
        from-Follows selecting d (record d { aux_tty = opened }) r.1 (selecting-mode _ _ _ _)
          (record { same_state = refl; same_handle = refl }) p)

  exec_set-Follows :
      (opened auxtty : Option Bytes) (ok : Bool) (d : Debugger) (w : World)
      → d.state ≡ connected
      → AfterMethod selecting d (exec_set xs opened auxtty (ok, d) w)
  unfolding exec_set
  exec_set-Follows opened auxtty false d w c = returns (same-Follows selecting d)
  exec_set-Follows opened auxtty true d w c = program-Follows opened auxtty d w c

module _ (g : Settings) (xs : Surroundings) where
  select_target_tty-Follows :
      (opened : Option Bytes) (exec : Bytes) (args auxtty : Option Bytes) (m : Mode) (d : Debugger)
      (w : World)
      → AfterMethod selecting d (select_target_tty g xs opened exec args auxtty m d w)
  unfolding select_target_tty forgotten
  select_target_tty-Follows opened exec args auxtty m d w =
      After-if (is_connected d.state) _ _ w
        (λ e.
          After-weaken
            (using-through selecting (forgotten m d) _ w (exec_set xs opened auxtty) (λ ok h w₁.
              exec_set-Follows xs opened auxtty ok (record (forgotten m d) { h = some h }) w₁
                (is_connected-eq d.state e)))
            (λ r _ p.
              from-Follows selecting d (forgotten m d) r.1 (selecting-mode _ _ _ _)
                (record { same_state = refl; same_handle = refl }) p))
        (λ _. returns (same-Follows selecting d))

  pub select_target_x11-Follows :
      (opened : Option Bytes) (exec : Bytes) (args auxtty : Option Bytes) (d : Debugger) (w : World)
      → AfterMethod selecting d (select_target_x11 g xs opened exec args auxtty d w)
  unfolding select_target_x11
  select_target_x11-Follows opened exec args auxtty d w =
      select_target_tty-Follows opened exec args auxtty dm_x11 d w

  pub select_target_linux-Follows :
      (opened : Option Bytes) (exec : Bytes) (args auxtty : Option Bytes) (d : Debugger) (w : World)
      → AfterMethod selecting d (select_target_linux g xs opened exec args auxtty d w)
  unfolding select_target_linux
  select_target_linux-Follows opened exec args auxtty d w =
      select_target_tty-Follows opened exec args auxtty dm_linux d w

  selected-Follows :
      (d : Debugger)
      → d.state ≡ connected
      → Follows selecting d (record d { state = target_specified })
  selected-Follows d c = record { step = rw c selects; kept = λ k. sym (ap is_disconnected c) ∙ k }

  download_if-Follows :
      (download ok : Bool) (d : Debugger) (w : World)
      → d.state ≡ connected
      → AfterMethod selecting d (download_if g xs download (ok, d) w)
  unfolding download_if
  download_if-Follows download false d w c = returns (same-Follows selecting d)
  download_if-Follows false true d w c = returns (selected-Follows d c)
  download_if-Follows true true d w c = using-then d _ w _ (λ ok h h₁ w₁ e.
      returns (move_if-Follows selecting d target_specified ok h h₁ e (rw c selects) refl))

  symbols_loaded-Follows :
      (rparams : Bytes) (rtype : Option Bytes) (download ok : Bool) (d : Debugger) (w : World)
      → d.state ≡ connected
      → AfterMethod selecting d (symbols_loaded g xs rparams rtype download (ok, d) w)
  unfolding symbols_loaded
  symbols_loaded-Follows rparams rtype download false d w c = returns (same-Follows selecting d)
  symbols_loaded-Follows rparams rtype download true d w c =
      using-through selecting d _ w (download_if g xs download)
        (λ ok h w₁. download_if-Follows download ok (record d { h = some h }) w₁ c)

  pub select_target_remote-Follows :
      (exec rparams : Bytes) (rtype : Option Bytes) (download : Bool) (d : Debugger) (w : World)
      → AfterMethod selecting d (select_target_remote g xs exec rparams rtype download d w)
  unfolding select_target_remote forgotten
  select_target_remote-Follows exec rparams rtype download d w =
      let d₁ : Debugger = record (forgotten dm_remote d) { pre_run = some true } in
      After-if (is_connected d.state) _ _ w
        (λ e.
          After-weaken
            (using-through selecting d₁ _ w (symbols_loaded g xs rparams rtype download) (λ ok h w₁.
              symbols_loaded-Follows rparams rtype download ok (record d₁ { h = some h }) w₁
                (is_connected-eq d.state e)))
            (λ r _ p.
              from-Follows selecting d d₁ r.1 (selecting-mode _ _ _ _)
                (record { same_state = refl; same_handle = refl }) p))
        (λ _. returns (same-Follows selecting d))

  attached-Follows :
      (exec : Bytes) (res : Option Frame) (d : Debugger) (w : World)
      → d.state ≡ connected
      → AfterMethod attaching d (attached g xs exec (res, d) w)
  unfolding attached
  attached-Follows exec none d w c = returns (same-Follows attaching d)
  attached-Follows exec (some res) d w c =
      using-then (record d { state = stopped }) _ w _
        (λ ok h h₁ w₁ e. returns (record { step = rw c attaches; kept = λ _. refl }))

  pub select_target_pid-Follows :
      (exec : Bytes) (pid : ℤ) (d : Debugger) (w : World)
      → AfterMethod attaching d (select_target_pid g xs exec pid d w)
  unfolding select_target_pid forgotten
  select_target_pid-Follows exec pid d w =
      let d₁ : Debugger = record (forgotten dm_pid d) { pre_run = some false } in
      After-if (is_connected d.state) _ _ w
        (λ e.
          After-weaken
            (using-through attaching d₁ _ w (attached g xs exec) (λ res h w₁.
              attached-Follows exec res (record d₁ { h = some h }) w₁ (is_connected-eq d.state e)))
            (λ r _ p.
              from-Follows attaching d d₁ r.1 (attaching-mode _ _ _ _)
                (record { same_state = refl; same_handle = refl }) p))
        (λ _. returns (same-Follows attaching d))

unselected-Follows :
    (d : Debugger) (tty : Option Bytes)
    → d.state ≡ target_specified
    → Follows unselecting d (record d { aux_tty = tty; state = connected })
unselected-Follows d tty c = record {
  step = rw c unselects;
  kept = λ k. sym (ap is_disconnected c) ∙ k;
}

end_terminal-Follows : (d : Debugger) (w : World) → AfterMethod unselecting d (end_terminal d w)
unfolding end_terminal
end_terminal-Follows d w =
    After-if (is_target_specified d.state) _ _ w
      (λ e. returns (unselected-Follows d none (is_target_specified-eq d.state e)))
      (λ _. returns (same-Follows unselecting d))

module _ (xs : Surroundings) where
  detach-Follows :
      (d : Debugger) (w : World)
      → can_detach d.mode ≡ true
      → AfterMethod unselecting d (detach xs d w)
  unfolding detach
  detach-Follows d w c =
      After-if (is_target_specified d.state) _ _ w
        (λ e. returns (unselected-Follows d d.aux_tty (is_target_specified-eq d.state e)))
        (λ _.
          After-if (is_stopped d.state) _ _ w
            (λ e. using-then d _ w _ (λ ok h h₁ w₁ i. returns (
              move_if-Follows unselecting d connected ok h h₁ i
                (rw (is_stopped-eq d.state e) (detaches c)) refl)))
            (λ _. returns (same-Follows unselecting d)))

  unselect-Follows :
      (m : Option Mode) (d : Debugger) (w : World)
      → d.mode ≡ m
      → AfterMethod unselecting d (unselect xs m d w)
  unfolding unselect
  unselect-Follows none d w e = faults
  unselect-Follows (some dm_x11) d w e = end_terminal-Follows d w
  unselect-Follows (some dm_linux) d w e = end_terminal-Follows d w
  unselect-Follows (some dm_remote) d w e = detach-Follows d w (rw e refl)
  unselect-Follows (some dm_pid) d w e = detach-Follows d w (rw e refl)

  pub target_unselect-Follows :
      (d : Debugger) (w : World) → AfterMethod unselecting d (target_unselect xs d w)
  unfolding target_unselect
  target_unselect-Follows d w = unselect-Follows d.mode d w refl

  -- The way back from `connected` leaves no handle.
  pub disconnect-gone :
      (d : Debugger) (w : World)
      → d.state ≡ connected
      → After (λ r _. (r.1.state ≡ disconnected) × (r.1.h ≡ none)) (disconnect xs d w)
  unfolding disconnect mi_disconnect
  disconnect-gone d w c =
      rw (ap is_connected c) (using-then d _ w _ (λ a h h₁ w₁ _. returns (refl, refl)))

  pub give_up-gone :
      (d : Debugger) (w : World)
      → After
          (λ r w'. (r.1.state ≡ disconnected) × (r.1.h ≡ none) × (r.0 ≡ w'.error))
          (give_up xs d w)
  unfolding give_up error_number
  give_up-gone d w =
      After-then (target_unselect xs (record d { state = target_specified }) w) (λ r w₁.
        After-continue (disconnect-gone (record r.1 { state = connected }) w₁ refl)
          (λ q w₂ p. returns (p.0, p.1, refl)))

  pub get_error_number_st-Follows :
      (d : Debugger) (w : World) → AfterMethod giving_up d (get_error_number_st xs d w)
  unfolding get_error_number_st error_number
  get_error_number_st-Follows d w =
      After-if (w.error == mi_gdb_died) _ _ w
        (λ _.
          After-weaken (give_up-gone d w)
            (λ r _ p. record { step = rw p.0 gives_up; kept = λ _. rw (p.0, p.1) refl }))
        (λ _. returns (same-Follows giving_up d))
