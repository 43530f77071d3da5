-- ===== src/Debugger/Steps/Ending.antt =====
-- How an object ends: the destructor, and `GetErrorNumberSt` after the death of gdb.
use libmigdb.Base.{
  ℕ, Bytes, Bool, true, false, not, Option, none, some, List, [], ◌∷◌, ◌++◌, ◌≡◌, ◌≢◌, refl, sym,
  ap, ◌∙◌, inl, inr, Bool-cases, suc,
}
use libmigdb.World.{World, ret, fault, M, pure, ◌>>=◌, mi_gdb_died}
use libmigdb.World.After.{After, returns, stalls, After-continue, After-then, After-if, After-ret}
use libmigdb.Connect.Handle.{Handle}
use libmigdb.Command.{Surroundings}
use libmigdb.Debugger.Running.{poll}
use libmigdb.Debugger.Target.{
  disconnect, polled, poll_until, stop_running, end_program, end_target, end_connection, destroy,
  unselect, target_unselect, end_terminal, detach, give_up, get_error_number_st,
}
use libmigdb.Debugger.{
  State, disconnected, connected, target_specified, running, stopped, Mode, dm_x11, dm_linux,
  dm_remote, dm_pid, Debugger, Settings, is_disconnected, is_connected, is_target_specified,
  is_running, is_stopped,
}
use libmigdb.Debugger.Steps.{
  Kind, disconnecting, polling, killing, giving_up, looking, Step, stays, connects, disconnects,
  selects, attaches, unselects, detaches, runs, continues, goes, goes_on, kills_stopped,
  kills_running, hears_stop, hears_exit, hears_end, gives_up, has, IsConsistent, Follows,
  using-then,
}
use libmigdb.Debugger.Steps.Running.{stop-Follows, poll-Follows, kill-Follows}
use libmigdb.Debugger.Steps.Target.{is_disconnected-eq, disconnect-gone, give_up-gone}

-- Connected, in whatever state, with a handle.
record Live (d : Debugger) : Type 0 where
  awake : is_disconnected d.state ≡ false
  held : has d.h ≡ true

abbrev may_end : Kind → Bool
may_end disconnecting = true
may_end giving_up = true
may_end _ = false

Step-awake :
    (k : Kind) (m : Option Mode) (s s' : State)
    → may_end k ≡ false
    → Step k m s s'
    → is_disconnected s ≡ false
    → is_disconnected s' ≡ false
Step-awake k m s s' e stays a = a
Step-awake k m s s' e disconnects a = cc
Step-awake k m s s' e gives_up a = cc
Step-awake k m s s' e connects a = refl
Step-awake k m s s' e selects a = refl
Step-awake k m s s' e attaches a = refl
Step-awake k m s s' e unselects a = refl
Step-awake k m s s' e (detaches b) a = refl
Step-awake k m s s' e runs a = refl
Step-awake k m s s' e continues a = refl
Step-awake k m s s' e goes a = refl
Step-awake k m s s' e goes_on a = refl
Step-awake k m s s' e kills_stopped a = refl
Step-awake k m s s' e kills_running a = refl
Step-awake k m s s' e (hears_stop b) a = refl
Step-awake k m s s' e (hears_exit b) a = refl
Step-awake k m s s' e (hears_end b) a = refl

true_ne_false : true ≢ false
true_ne_false e = cc

not-true : (b : Bool) → true ≡ not b → b ≡ false
not-true true e = cc
not-true false e = refl

not-false : (b : Bool) → false ≡ not b → b ≡ true
not-false true e = refl
not-false false e = cc

Live-Follows : (k : Kind) (d d' : Debugger) → may_end k ≡ false → Follows k d d' → Live d → Live d'
Live-Follows k d d' e r l =
    let a = Step-awake k d.mode d.state d'.state e r.step l.awake in
    record { awake = a; held = not-false (has d'.h) (sym a ∙ r.kept (rw (l.awake, l.held) refl)) }

-- Another state of an object that holds a handle.
Live-record :
    (d : Debugger) (s : State) → is_disconnected s ≡ false → Live d → Live (record d { state = s })
Live-record d s a l = record { awake = a; held = l.held }

next-Live :
    {A : Type 0} (next : Debugger → M Debugger)
    → ((d : Debugger) (w : World) → Live d → After (λ d' _. Live d') (next d w))
    → (o : Option A) (d : Debugger) (w : World) → Live d
    → After (λ d' _. Live d') (polled next (o, d) w)
unfolding polled
next-Live next k none d w l = k d w l
next-Live next k (some rs) d w l = returns l

polled-Live :
    (g : Settings) (arrivals : List Bytes) (d : Debugger) (w : World)
    → Live d
    → After (λ d' _. Live d') (poll_until g arrivals d w)
unfolding poll_until
polled-Live g [] d w l = stalls
polled-Live g (s ∷ ss) d w l =
    using-then d (λ h. pure (tt, record h { pipe = h.pipe ++ s })) w
      (λ r. poll g r.1 >>= λ q. polled (poll_until g ss) q)
      (λ a h h₁ w₁ _. After-continue (poll-Follows g (record d { h = some h }) w₁) (λ q w₂ r.
        next-Live (poll_until g ss) (polled-Live g ss) q.0 q.1 w₂ (
          Live-Follows polling (record d { h = some h }) q.1 refl r
            (record { awake = l.awake; held = refl }))))

module _ (g : Settings) (xs ys : Surroundings) (arrivals : List Bytes) where
  stop_running-Live :
      (d : Debugger) (w : World)
      → Live d
      → After (λ d' _. Live d' × (is_running d'.state ≡ false)) (stop_running g xs ys arrivals d w)
  unfolding stop_running
  stop_running-Live d w l =
      After-if (is_running d.state) _ _ w
        (λ _. After-continue (stop-Follows looking xs d w) (λ r w₁ p.
          After-continue (polled-Live g arrivals r.1 w₁ (Live-Follows looking d r.1 refl p l))
            (λ d' w₂ i. returns (Live-record d' stopped refl i, refl))))
        (λ e. returns (l, e))

  end_program-Live :
      (d : Debugger) (w : World)
      → Live d
      → is_running d.state ≡ false
      → After
          (λ d' _. Live d' × (is_running d'.state ≡ false) × (is_stopped d'.state ≡ false))
          (end_program g xs ys arrivals d w)
  unfolding end_program
  end_program-Live d w l n =
      After-if (is_stopped d.state) _ _ w
        (λ _. After-continue (kill-Follows xs d w) (λ r w₁ p. returns (
          Live-record r.1 target_specified refl (Live-Follows killing d r.1 refl p l),
          refl,
          refl,
        )))
        (λ e. returns (l, n, e))

  last_state :
      (s : State)
      → is_disconnected s ≡ false
      → is_running s ≡ false
      → is_stopped s ≡ false
      → is_target_specified s ≡ false
      → s ≡ connected
  last_state connected a b c e = refl
  last_state disconnected a b c e = cc
  last_state running a b c e = cc
  last_state stopped a b c e = cc
  last_state target_specified a b c e = cc

  end_target-connected :
      (d : Debugger) (w : World)
      → Live d
      → is_running d.state ≡ false
      → is_stopped d.state ≡ false
      → After (λ d' _. d'.state ≡ connected) (end_target g xs ys arrivals d w)
  unfolding end_target
  end_target-connected d w l n m =
      After-if (is_target_specified d.state) _ _ w
        (λ _. After-then (target_unselect ys d w) (λ r w₁. returns refl))
        (λ e. returns (last_state d.state l.awake n m e))

  end_connection-gone :
      (d : Debugger) (w : World)
      → d.state ≡ connected
      → After
          (λ d' _. (d'.state ≡ disconnected) × (d'.h ≡ none))
          (end_connection g xs ys arrivals d w)
  unfolding end_connection
  end_connection-gone d w c =
      After-if (is_connected d.state) _ _ w
        (λ _. After-continue (disconnect-gone (λ i. ys (suc i)) d w c) (λ r w₁ p. returns p))
        (λ e. elim (true_ne_false (sym (ap is_connected c) ∙ e)) [ ])

  destroy-Live :
      (d : Debugger) (w : World)
      → Live d
      → After (λ d' _. (d'.state ≡ disconnected) × (d'.h ≡ none)) (destroy g xs ys arrivals d w)
  unfolding destroy
  destroy-Live d w l = After-continue (stop_running-Live d w l) (λ d₁ w₁ p₁.
      After-continue (end_program-Live d₁ w₁ p₁.0 p₁.1) (λ d₂ w₂ p₂.
        After-continue (end_target-connected d₂ w₂ p₂.0 p₂.1 p₂.2)
          (λ d₃ w₃ p₃. end_connection-gone d₃ w₃ p₃)))

  destroy-idle :
      (d : Debugger) (w : World) → d.state ≡ disconnected → destroy g xs ys arrivals d w ≡ ret d w
  unfolding destroy stop_running end_program end_target end_connection
  destroy-idle d w e = rw e refl

none_held : (o : Option Handle) → has o ≡ false → o ≡ none
none_held none e = refl
none_held (some h) e = cc

-- A destructor that returns leaves the object disconnected and without a handle, if it had a handle
-- unless it was disconnected. Whether it returns is said in Debugger/Death.
destroy-disconnected :
    (g : Settings) (xs ys : Surroundings) (arrivals : List Bytes) (d : Debugger) (w : World)
    → IsConsistent d
    → After (λ d' _. (d'.state ≡ disconnected) × (d'.h ≡ none)) (destroy g xs ys arrivals d w)
destroy-disconnected g xs ys arrivals d w c = elim (Bool-cases (is_disconnected d.state)) [
  | inl e ↦
      rw (destroy-idle g xs ys arrivals d w (is_disconnected-eq d.state e))
        (returns (is_disconnected-eq d.state e, none_held d.h (not-true (has d.h) (sym e ∙ c))))
  | inr e ↦
      destroy-Live g xs ys arrivals d w
        (record { awake = e; held = not-false (has d.h) (sym e ∙ c) })
]

-- Without a handle the connection cannot be given up.
give_up-fault :
    (xs : Surroundings) (d : Debugger) (m : Mode) (w : World)
    → d.h ≡ none
    → d.mode ≡ some m
    → give_up xs d w ≡ fault
unfolding give_up target_unselect unselect end_terminal detach disconnect
give_up-fault xs d dm_x11 w e i = rw (i, e) refl
give_up-fault xs d dm_linux w e i = rw (i, e) refl
give_up-fault xs d dm_remote w e i = rw (i, e) refl
give_up-fault xs d dm_pid w e i = rw (i, e) refl

given_up-fault :
    (xs : Surroundings) (d : Debugger) (m : Option Mode) (w : World)
    → d.mode ≡ m
    → d.h ≡ none
    → give_up xs d w ≡ fault
unfolding give_up target_unselect unselect
given_up-fault xs d none w i e = rw i refl
given_up-fault xs d (some m) w i e = give_up-fault xs d m w e i

given_up :
    (xs : Surroundings) (d : Debugger) (w : World)
    → w.error ≡ mi_gdb_died
    → get_error_number_st xs d w ≡ give_up xs d w
unfolding get_error_number_st
given_up xs d w e = rw e refl

-- When a call of `GetErrorNumberSt` after the death of gdb returns, and returns the number of that
-- error, the next call uses the released handle.
pub get_error_number_st-fault :
    (xs ys : Surroundings) (d d' : Debugger) (w w' : World)
    → w.error ≡ mi_gdb_died
    → get_error_number_st xs d w ≡ ret (mi_gdb_died, d') w'
    → get_error_number_st ys d' w' ≡ fault
get_error_number_st-fault xs ys d d' w w' e r =
    let run : After
        (λ (q : ℕ × Debugger) (v : World).
          (q.1.state ≡ disconnected) × (q.1.h ≡ none) × (q.0 ≡ v.error))
        (ret (mi_gdb_died, d') w') =
      rw (sym r ∙ given_up xs d w e) (give_up-gone xs d w) in
    let (s, h, n) = After-ret run in
    given_up ys d' w' (sym n) ∙ given_up-fault ys d' d'.mode w' refl h
