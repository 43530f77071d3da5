-- ===== src/Debugger/Steps.antt =====
-- The transitions of the class `MIDebugger` (src/mi_gdb.h), those that its table and the comments of its
-- methods name and the others, and the rules for the calls that use the handle.

pub mod Running
pub mod Target
pub mod Others
pub mod Perform
pub mod Ending
pub mod Documented
use libmigdb.Base.{
  Bool, true, false, if◌then◌else◌, ◌||◌, not, Option, none, some, ◌⊎◌, inl, inr, ◌≡◌, refl, ◌∙◌,
  sym, ap, Option-cases,
}
use libmigdb.World.{World, Outcome, ret, fault, M, continue}
use libmigdb.World.After.{
  After, returns, faults, After-then, After-then-then, After-if, After-weaken,
}
use libmigdb.Connect.Handle.{Handle}
use libmigdb.Debugger.{
  State, disconnected, connected, target_specified, running, stopped, Mode, dm_remote, dm_pid,
  Debugger, is_disconnected, is_connected, is_target_specified, is_running, is_stopped, using,
  guarded, if_stopped, if_selected, if_idle, move_if, starting,
}

-- What a method is for. `going` is a method that starts the program or resumes it.
pub data Kind : Type 0 where
  connecting disconnecting selecting attaching unselecting starts resumes going : Kind
  polling killing giving_up looking : Kind

-- `TargetUnselect` detaches from these, stopped as they are.
abbrev pub can_detach : Option Mode → Bool
can_detach (some dm_pid) = true
can_detach (some dm_remote) = true
can_detach _ = false

-- The states before and after a method of a kind, on an object of that mode.
pub data Step : Kind → Option Mode → State → State → Type 0 where
  stays : {k : Kind} {m : Option Mode} {s : State} → Step k m s s
  connects : {m : Option Mode} → Step connecting m disconnected connected
  disconnects : {m : Option Mode} → Step disconnecting m connected disconnected
  selects : {m : Option Mode} → Step selecting m connected target_specified
  attaches : {m : Option Mode} → Step attaching m connected stopped
  unselects : {m : Option Mode} → Step unselecting m target_specified connected
  detaches : {m : Option Mode} → can_detach m ≡ true → Step unselecting m stopped connected
  runs : {m : Option Mode} → Step starts m target_specified running
  continues : {m : Option Mode} → Step resumes m stopped running
  goes : {m : Option Mode} → Step going m target_specified running
  goes_on : {m : Option Mode} → Step going m stopped running
  kills_stopped : {m : Option Mode} → Step killing m stopped target_specified
  kills_running : {m : Option Mode} → Step killing m running target_specified
  hears_stop : {m : Option Mode} {s : State} → is_disconnected s ≡ false → Step polling m s stopped
  hears_exit :
      {m : Option Mode} {s : State} → is_disconnected s ≡ false → Step polling m s target_specified
  hears_end : {s : State} → is_disconnected s ≡ false → Step polling (some dm_pid) s connected
  gives_up : {m : Option Mode} {s : State} → Step giving_up m s disconnected

abbrev pub has : {A : Type 0} → Option A → Bool
has none = false
has (some a) = true

-- There is a handle, unless the object is disconnected.
abbrev pub IsConsistent : Debugger → Type 0
IsConsistent d = is_disconnected d.state ≡ not (has d.h)

-- The object after a method of that kind.
pub record Follows (k : Kind) (d d' : Debugger) : Type 0 where
  pub step : Step k d.mode d.state d'.state
  pub kept : IsConsistent d → IsConsistent d'

abbrev pub AfterMethod : {A : Type 0} → Kind → Debugger → Outcome (A × Debugger) → Type 0
AfterMethod k d = After (λ r _. Follows k d r.1)

pub is_connected-eq : (s : State) → is_connected s ≡ true → s ≡ connected
is_connected-eq connected e = refl
is_connected-eq disconnected e = cc
is_connected-eq target_specified e = cc
is_connected-eq running e = cc
is_connected-eq stopped e = cc

pub is_target_specified-eq : (s : State) → is_target_specified s ≡ true → s ≡ target_specified
is_target_specified-eq target_specified e = refl
is_target_specified-eq connected e = cc
is_target_specified-eq disconnected e = cc
is_target_specified-eq running e = cc
is_target_specified-eq stopped e = cc

pub is_stopped-eq : (s : State) → is_stopped s ≡ true → s ≡ stopped
is_stopped-eq stopped e = refl
is_stopped-eq connected e = cc
is_stopped-eq disconnected e = cc
is_stopped-eq running e = cc
is_stopped-eq target_specified e = cc

pub is_running-eq : (s : State) → is_running s ≡ true → s ≡ running
is_running-eq running e = refl
is_running-eq connected e = cc
is_running-eq disconnected e = cc
is_running-eq stopped e = cc
is_running-eq target_specified e = cc

module _ {A : Type 0} (d : Debugger) (f : Handle → M (A × Handle)) (w : World) where
  using-none : d.h ≡ none → using d f w ≡ fault
  unfolding using
  using-none e = rw e

  pub using-some :
      (h : Handle)
      → d.h ≡ some h
      → using d f w ≡ continue (f h w) (λ r. ret (r.0, record d { h = some r.1 }))
  unfolding using
  using-some h e = rw e

  -- A call that uses the handle changes nothing else, and there is a handle.
  pub using-then :
      {B : Type 0} {Q : B → World → Type 0} (rest : A × Debugger → M B)
      → ((a : A) (h h₁ : Handle) (w₁ : World)
          → d.h ≡ some h₁
          → After Q (rest (a, record d { h = some h }) w₁))
      → After Q (continue (using d f w) rest)
  unfolding using
  using-then rest k = elim (Option-cases d.h) [
    | inl e ↦ rw (using-none e) faults
    | inr (h₁, e) ↦ rw (using-some h₁ e) (After-then-then (f h₁ w) _ _ (λ r w₁. k r.0 r.1 h₁ w₁ e))
  ]

  pub using-After :
      {P : A × Debugger → World → Type 0}
      → ((a : A) (h h₁ : Handle) (w₁ : World) → d.h ≡ some h₁ → P (a, record d { h = some h }) w₁)
      → After P (using d f w)
  unfolding using
  using-After k = elim (Option-cases d.h) [
    | inl e ↦ rw (using-none e) faults
    | inr (h₁, e) ↦ rw (using-some h₁ e) (After-then (f h₁ w) (λ r w₁. returns (k r.0 r.1 h₁ w₁ e)))
  ]

-- A consistent object that has a handle is not disconnected.
pub awake :
    (d : Debugger) (h : Handle) → d.h ≡ some h → IsConsistent d → is_disconnected d.state ≡ false
awake d h e c = c ∙ ap (λ (o : Option Handle). not (has o)) e

-- The object with another handle in the place of its handle.
pub used-Follows :
    (k : Kind) (d : Debugger) (h h₁ : Handle)
    → d.h ≡ some h₁
    → Follows k d (record d { h = some h })
used-Follows k d h h₁ e = record { step = stays; kept = awake d h₁ e }

pub same-Follows : (k : Kind) (d : Debugger) → Follows k d d
same-Follows k d = record { step = stays; kept = λ c. c }

module _ {A : Type 0} (k : Kind) (d : Debugger) (f : Handle → M (A × Handle)) (w : World) where
  pub using-Follows : AfterMethod k d (using d f w)
  using-Follows = using-After d f w (λ a h h₁ w₁ e. used-Follows k d h h₁ e)

  guarded-Follows : (guard : Bool) (a : A) → AfterMethod k d (guarded guard a f d w)
  unfolding guarded
  guarded-Follows true a = using-Follows
  guarded-Follows false a = returns (same-Follows k d)

  pub if_stopped-Follows : (a : A) → AfterMethod k d (if_stopped a f d w)
  unfolding if_stopped
  if_stopped-Follows a = guarded-Follows _ a

  pub if_selected-Follows : (a : A) → AfterMethod k d (if_selected a f d w)
  unfolding if_selected
  if_selected-Follows a = guarded-Follows _ a

  pub if_idle-Follows : (a : A) → AfterMethod k d (if_idle a f d w)
  unfolding if_idle
  if_idle-Follows a = guarded-Follows _ a

-- A call that moves the object to another state, which is not `disconnected`, when it succeeds.
pub move_if-Follows :
    (k : Kind) (d : Debugger) (s : State) (ok : Bool) (h h₁ : Handle)
    → d.h ≡ some h₁
    → Step k d.mode d.state s
    → is_disconnected s ≡ false
    → Follows k d (move_if s (ok, record d { h = some h })).1
move_if-Follows k d s true h h₁ e st a = record { step = st; kept = λ c. a }
move_if-Follows k d s false h h₁ e st a = used-Follows k d h h₁ e

pub starting-Follows :
    (k : Kind) (d : Debugger) (f : Handle → M (Bool × Handle)) (w : World)
    → Step k d.mode d.state running
    → AfterMethod k d (starting f d w)
unfolding starting
starting-Follows k d f w st =
    using-then d f w _ (λ ok h h₁ w₁ e. returns (move_if-Follows k d running ok h h₁ e st refl))

through-Follows :
    (k : Kind) (d d' : Debugger) (h h₁ : Handle)
    → d.h ≡ some h₁
    → Follows k (record d { h = some h }) d'
    → Follows k d d'
through-Follows k d d' h h₁ e r = record { step = r.step; kept = λ c. r.kept (awake d h₁ e c) }

-- A call that uses the handle, and what follows it.
module _ {A : Type 0} (k : Kind) (d : Debugger) (f : Handle → M (A × Handle)) (w : World) where
  pub using-through :
      {B : Type 0} (rest : A × Debugger → M (B × Debugger))
      → ((a : A) (h : Handle) (w₁ : World)
          → AfterMethod k (record d { h = some h }) (rest (a, record d { h = some h }) w₁))
      → AfterMethod k d (continue (using d f w) rest)
  using-through rest next =
      using-then d f w rest
        (λ a h h₁ w₁ e. After-weaken (next a h w₁) (λ r _ p. through-Follows k d r.1 h h₁ e p))

  -- A call behind a guard, and what follows it in both cases.
  pub guarded-through :
      {B : Type 0} (guard : Bool) (a : A) (rest : A × Debugger → M (B × Debugger))
      → ((a : A) (h : Handle) (w₁ : World)
          → AfterMethod k (record d { h = some h }) (rest (a, record d { h = some h }) w₁))
      → AfterMethod k d (rest (a, d) w)
      → AfterMethod k d (continue (guarded guard a f d w) rest)
  unfolding guarded
  guarded-through true a rest next other = using-through rest next
  guarded-through false a rest next other = other
