-- ===== src/Debugger/Steps/Running.antt =====
-- The transitions of running, polling and killing.
use libmigdb.Base.{
  Bytes, codes, str_eq, Bool, true, false, if◌then◌else◌, ◌||◌, ◌&&◌, not, Option, none, some, ◌≡◌,
  refl, sym, ap,
}
use libmigdb.World.{World, pure, ◌>>=◌}
use libmigdb.World.After.{After, returns, faults, After-continue, After-if}
use libmigdb.Enums.{StopReason}
use libmigdb.Connect.Handle.{Handle}
use libmigdb.Connect.Response.{mi_get_response}
use libmigdb.Extract.Stop.{Stop, mi_res_stop}
use libmigdb.Command.{Surroundings}
use libmigdb.Command.Control.{gmi_exec_interrupt}
use libmigdb.Debugger.Running.{
  run_from, run, stop, is_exit_reason, exit_state, stop_state, temp_bkpt, is_unknown, known, noted,
  responded, poll, continue, run_or_continue, revert, do_kill, confirm_off, confirm_known, kill,
}
use libmigdb.Debugger.{
  State, disconnected, connected, target_specified, running, stopped, Mode, dm_x11, dm_linux,
  dm_remote, dm_pid, Debugger, Settings, is_disconnected, is_target_specified, is_running,
  is_stopped, move_if,
}
use libmigdb.Debugger.Steps.{
  Kind, polling, killing, Step, stays, kills_stopped, kills_running, hears_stop, hears_exit,
  hears_end, has, Follows, AfterMethod, is_target_specified-eq, is_stopped-eq, awake, same-Follows,
  using-Follows, using-then, using-through, starting-Follows,
}

run_from-Follows :
    (k : Kind) (xs : Surroundings) (pre_run : Option Bool) (d : Debugger) (w : World)
    → Step k d.mode d.state running
    → AfterMethod k d (run_from xs pre_run d w)
unfolding run_from
run_from-Follows k xs none d w st = faults
run_from-Follows k xs (some true) d w st = starting-Follows k d _ w st
run_from-Follows k xs (some false) d w st = starting-Follows k d _ w st

module _ (k : Kind) (xs : Surroundings) (d : Debugger) (w : World) where
  pub run-Follows : Step k d.mode target_specified running → AfterMethod k d (run xs d w)
  unfolding run
  run-Follows st =
      After-if (is_target_specified d.state) _ _ w
        (λ e. run_from-Follows k xs d.pre_run d w (rw (is_target_specified-eq d.state e) st))
        (λ _. returns (same-Follows k d))

  pub continue-Follows : Step k d.mode stopped running → AfterMethod k d (continue xs d w)
  unfolding continue
  continue-Follows st =
      After-if (is_stopped d.state) _ _ w
        (λ e. starting-Follows k d _ w (rw (is_stopped-eq d.state e) st))
        (λ _. returns (same-Follows k d))

  pub run_or_continue-Follows :
      Step k d.mode target_specified running
      → Step k d.mode stopped running
      → AfterMethod k d (run_or_continue xs d w)
  unfolding run_or_continue
  run_or_continue-Follows st st' =
      After-if (is_target_specified d.state) _ _ w (λ _. run-Follows st) (λ _. continue-Follows st')

  pub stop-Follows : AfterMethod k d (stop d w)
  unfolding stop
  stop-Follows =
      After-if (is_running d.state) _ _ w (λ _. using-Follows k d gmi_exec_interrupt w)
        (λ _. returns (same-Follows k d))

kill-Step :
    {m : Option Mode} (s : State)
    → (is_stopped s || is_running s) ≡ true
    → Step killing m s target_specified
kill-Step stopped e = kills_stopped
kill-Step running e = kills_running
kill-Step disconnected e = cc
kill-Step connected e = cc
kill-Step target_specified e = cc

killed-Follows :
    (d : Debugger) (h₁ : Handle) (d' : Debugger) (ok : Bool)
    → d.h ≡ some h₁
    → d'.state ≡ d.state
    → has d'.h ≡ true
    → Step killing d.mode d.state target_specified
    → Follows killing d (move_if target_specified (ok, d')).1
killed-Follows d h₁ d' true e same r st = record { step = st; kept = λ c. sym (ap not r) }
killed-Follows d h₁ d' false e same r st = record {
  step = rw same stays;
  kept = λ c. rw (same, r) (awake d h₁ e c);
}

module _ (xs : Surroundings) where
  revert-After :
      (prev : Option Bytes) (d : Debugger) (w : World)
      → has d.h ≡ true
      → After (λ d' _. (d'.state ≡ d.state) × (has d'.h ≡ true)) (revert xs prev d w)
  unfolding revert
  revert-After none d w e = returns (refl, e)
  revert-After (some prev) d w e = using-then d _ w _ (λ a h h₁ w₁ _. returns (refl, refl))

  do_kill-Follows :
      (prev : Option Bytes) (d : Debugger) (w : World)
      → Step killing d.mode d.state target_specified
      → AfterMethod killing d (do_kill xs prev d w)
  unfolding do_kill
  do_kill-Follows prev d w st = using-then d _ w _ (λ ok h h₁ w₁ e.
      After-continue (revert-After prev (record d { h = some h }) w₁ refl)
        (λ d' w₂ r. returns (killed-Follows d h₁ d' ok e r.0 r.1 st)))

  confirm_off-Follows :
      (prev : Bytes) (ok : Bool) (d : Debugger) (w : World)
      → Step killing d.mode d.state target_specified
      → AfterMethod killing d (confirm_off xs prev (ok, d) w)
  unfolding confirm_off
  confirm_off-Follows prev false d w st = returns (same-Follows killing d)
  confirm_off-Follows prev true d w st = do_kill-Follows (some prev) d w st

  confirm_known-Follows :
      (prev : Option Bytes) (d : Debugger) (w : World)
      → Step killing d.mode d.state target_specified
      → AfterMethod killing d (confirm_known xs (prev, d) w)
  unfolding confirm_known
  confirm_known-Follows none d w st = returns (same-Follows killing d)
  confirm_known-Follows (some prev) d w st =
      After-if (str_eq prev (codes "off")) _ _ w (λ _. do_kill-Follows none d w st)
        (λ _.
          using-through killing d _ w _
            (λ ok h w₁. confirm_off-Follows prev ok (record d { h = some h }) w₁ st))

  pub kill-Follows : (d : Debugger) (w : World) → AfterMethod killing d (kill xs d w)
  unfolding kill
  kill-Follows d w =
      After-if (is_stopped d.state || is_running d.state) _ _ w
        (λ e. using-through killing d _ w _ (λ prev h w₁.
          confirm_known-Follows prev (record d { h = some h }) w₁ (kill-Step d.state e)))
        (λ _. returns (same-Follows killing d))

-- The state that a stop leads to.
exit_state-After :
    (mode : Option Mode) (s : State) (w : World)
    → is_disconnected s ≡ false
    → After (λ s' _. Step polling mode s s' × (is_disconnected s' ≡ false)) (exit_state mode w)
unfolding exit_state
exit_state-After none s w a = faults
exit_state-After (some dm_pid) s w a = returns (hears_end a, refl)
exit_state-After (some dm_x11) s w a = returns (hears_exit a, refl)
exit_state-After (some dm_linux) s w a = returns (hears_exit a, refl)
exit_state-After (some dm_remote) s w a = returns (hears_exit a, refl)

stop_state-After :
    (d : Debugger) (reason : StopReason) (w : World)
    → is_disconnected d.state ≡ false
    → After
        (λ s' _. Step polling d.mode d.state s' × (is_disconnected s' ≡ false))
        (stop_state d reason w)
unfolding stop_state
stop_state-After d reason w a =
    After-if (is_exit_reason reason) _ _ w (λ _. exit_state-After d.mode d.state w a)
      (λ _. returns (hears_stop a, refl))

if-Follows :
    {A : Type 0} {k : Kind} {d : Debugger} (b : Bool) (x y : A × Debugger)
    → Follows k d x.1
    → Follows k d y.1
    → Follows k d (if b then x else y).1
if-Follows true x y p q = p
if-Follows false x y p q = q

if_running-Follows :
    (b : Bool) (d : Debugger)
    → (b ≡ true → is_disconnected d.state ≡ false)
    → (b ≡ true → has d.h ≡ true)
    → Follows polling d (if b then record d { state = stopped } else d)
if_running-Follows true d a e = record {
  step = hears_stop (a refl);
  kept = λ _. sym (ap not (e refl));
}
if_running-Follows false d a e = same-Follows polling d

running_awake : (s : State) → is_running s ≡ true → is_disconnected s ≡ false
running_awake running e = refl
running_awake disconnected e = cc
running_awake connected e = cc
running_awake target_specified e = cc
running_awake stopped e = cc

-- The object after a response of which the stop is known.
module _ (d : Debugger) (a : is_disconnected d.state ≡ false) where
  noted-Follows :
      (st : Option Stop) (h : Handle) (w : World)
      → AfterMethod polling (record d { h = some h }) (noted st (record d { h = some h }) w)
  unfolding noted temp_bkpt known
  noted-Follows none h w =
      returns
        (if_running-Follows (is_running d.state) (record d { h = some h }) (λ _. a) (λ _. refl))
  noted-Follows (some st) h w =
      After-continue (stop_state-After (record d { h = some h }) st.reason w a) (λ s w₁ p. returns (
        if-Follows (is_unknown st.reason && d.waiting_temp_bkpt) _ _
          (record { step = p.0; kept = λ _. p.1 }) (record { step = p.0; kept = λ _. p.1 })))

  responded-Follows :
      (g : Settings) (ok : Bool) (h : Handle) (w : World)
      → AfterMethod polling (record d { h = some h }) (responded g (ok, record d { h = some h }) w)
  unfolding responded
  responded-Follows g false h w = returns (same-Follows polling (record d { h = some h }))
  responded-Follows g true h w =
      using-through polling (record d { h = some h }) (mi_res_stop g.libc) w
        (λ r. noted r.0 r.1 >>= λ q. pure (some q.0, q.1))
        (λ st h' w₁. After-continue (noted-Follows st h' w₁) (λ q w₂ p. returns p))

pub poll-Follows : (g : Settings) (d : Debugger) (w : World) → AfterMethod polling d (poll g d w)
unfolding poll
poll-Follows g d w =
    After-if (is_disconnected d.state) _ _ w (λ _. returns (same-Follows polling d))
      (λ a.
        using-through polling d mi_get_response w (responded g)
          (λ ok h w₁. responded-Follows d a g ok h w₁))
