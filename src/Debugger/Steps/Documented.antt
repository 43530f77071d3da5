-- ===== src/Debugger/Steps/Documented.antt =====
-- The transitions of `MIDebugger` against its documentation: the table above the class (src/mi_gdb.h)
-- and the comments of the methods (src/cpp_int.cc).
use libmigdb.Base.{Bool, true, false, Option, some, ◌⊎◌, inl, inr, ◌≡◌, refl}
use libmigdb.Debugger.{
  State, disconnected, connected, target_specified, running, stopped, Mode, dm_pid, is_disconnected,
}
use libmigdb.Debugger.Steps.{
  Kind, connecting, disconnecting, selecting, attaching, unselecting, starts, resumes, going,
  polling, killing, giving_up, Step, stays, connects, disconnects, selects, unselects, runs,
  continues, goes, goes_on, kills_stopped, kills_running, hears_stop, hears_exit, can_detach,
}

-- What the table or the comment of the method names. `Poll` looks for a stop in any state but the
-- first, and then the state is `stopped` or `target_specified`.
abbrev pub documented : Kind → State → State → Bool
documented connecting disconnected connected = true
documented disconnecting connected disconnected = true
documented selecting connected target_specified = true
documented unselecting target_specified connected = true
documented starts target_specified running = true
documented resumes stopped running = true
documented going target_specified running = true
documented going stopped running = true
documented killing stopped target_specified = true
documented killing running target_specified = true
documented polling disconnected _ = false
documented polling _ stopped = true
documented polling _ target_specified = true
documented _ _ _ = false

-- What neither names: attaching to a process, detaching from a stopped one, the exit of a process that
-- was attached, and the end of the connection in `GetErrorNumberSt`.
pub data Undocumented : Kind → Option Mode → State → State → Type 0 where
  attaches : {m : Option Mode} → Undocumented attaching m connected stopped
  detaches : {m : Option Mode} → can_detach m ≡ true → Undocumented unselecting m stopped connected
  hears_end : {s : State} → Undocumented polling (some dm_pid) s connected
  gives_up : {m : Option Mode} {s : State} → Undocumented giving_up m s disconnected

-- The object stays in its state, or takes a transition of the one sort or of the other.
abbrev pub IsMove : Kind → Option Mode → State → State → Type 0
IsMove k m s s' = (s' ≡ s) ⊎ (documented k s s' ≡ true) ⊎ Undocumented k m s s'

polls :
    (s s' : State)
    → is_disconnected s ≡ false
    → documented polling connected s' ≡ true
    → documented polling s s' ≡ true
polls disconnected s' a e = cc
polls connected s' a e = e
polls target_specified s' a e = e
polls running s' a e = e
polls stopped s' a e = e

pub Step-IsMove : (k : Kind) (m : Option Mode) (s s' : State) → Step k m s s' → IsMove k m s s'
Step-IsMove k m s s' stays = inl refl
Step-IsMove k m s s' connects = inr (inl refl)
Step-IsMove k m s s' disconnects = inr (inl refl)
Step-IsMove k m s s' selects = inr (inl refl)
Step-IsMove k m s s' Step.attaches = inr (inr Undocumented.attaches)
Step-IsMove k m s s' unselects = inr (inl refl)
Step-IsMove k m s s' (Step.detaches c) = inr (inr (Undocumented.detaches c))
Step-IsMove k m s s' runs = inr (inl refl)
Step-IsMove k m s s' continues = inr (inl refl)
Step-IsMove k m s s' goes = inr (inl refl)
Step-IsMove k m s s' goes_on = inr (inl refl)
Step-IsMove k m s s' kills_stopped = inr (inl refl)
Step-IsMove k m s s' kills_running = inr (inl refl)
Step-IsMove k m s s' (hears_stop a) = inr (inl (polls s stopped a refl))
Step-IsMove k m s s' (hears_exit a) = inr (inl (polls s target_specified a refl))
Step-IsMove k m s s' (Step.hears_end a) = inr (inr Undocumented.hears_end)
Step-IsMove k m s s' Step.gives_up = inr (inr Undocumented.gives_up)
