-- ===== src/Debugger/Steps/Others.antt =====
-- The transitions of the methods that insert breakpoints, step through the program and inspect it.
use libmigdb.Base.{
  ℕ, ◌+◌, Bytes, codes, Bool, true, false, if◌then◌else◌, ◌||◌, Option, none, some, List, [], ◌∷◌,
  ◌++◌, ◌≡◌, refl, ◌∙◌,
}
use libmigdb.World.{World, pure, M}
use libmigdb.World.After.{After, returns, After-continue, After-then, After-if, After-weaken}
use libmigdb.Connect.Handle.{Handle}
use libmigdb.Extract.{ℤ}
use libmigdb.Extract.Breakpoints.{Bkpt, Wp}
use libmigdb.Extract.Variables.{Gvar}
use libmigdb.Extract.Registers.{ChgReg}
use libmigdb.Command.{Surroundings}
use libmigdb.Debugger.Points.{snprintf, breakpoint, break_delete, watch_delete}
use libmigdb.Debugger.Running.{run}
use libmigdb.Debugger.Walk.{
  run_past, run_to, run_to_main, step_over, trace_into, go_to, go_to_addr, finish_fun,
}
use libmigdb.Debugger.Inspect.{
  unless, type_known, value_known, empty_type, empty_value, fill_one_type_val, fill_type_val, show,
  shown_endian, known_endian, get_target_endian, shown_arch, known_arch, get_target_architecture,
}
use libmigdb.Debugger.Callbacks.{setting}
use libmigdb.Debugger.Registers.{get_changed_registers, update_registers}
use libmigdb.Debugger.{
  target_specified, running, stopped, Debugger, Settings, mi_get_main_func, is_target_specified,
  is_stopped, Endian, Arch, if_selected, starting, en_unknown, en_little, en_big, ar_unknown,
  ar_ia32, ar_sparc, ar_pic14, ar_avr, ar_unsupported,
}
use libmigdb.Debugger.Steps.{
  Kind, resumes, going, looking, Step, stays, continues, goes, goes_on, awake, IsConsistent,
  Follows, AfterMethod, is_target_specified-eq, is_stopped-eq, same-Follows, using-Follows,
  using-After, if_stopped-Follows, if_selected-Follows, if_idle-Follows, guarded-through,
  starting-Follows,
}
use libmigdb.Debugger.Steps.Running.{run-Follows}

module _ (g : Settings) (xs : Surroundings) where
  pub break_delete-Follows :
      (b : Option Bkpt) (d : Debugger) (w : World) → AfterMethod looking d (break_delete g xs b d w)
  unfolding break_delete
  break_delete-Follows none d w = returns (same-Follows looking d)
  break_delete-Follows (some b) d w = if_selected-Follows looking d _ w false

  pub watch_delete-Follows :
      (b : Option Wp) (d : Debugger) (w : World) → AfterMethod looking d (watch_delete g xs b d w)
  unfolding watch_delete
  watch_delete-Follows none d w = returns (same-Follows looking d)
  watch_delete-Follows (some b) d w = if_selected-Follows looking d _ w false

-- Another value of the flag for the temporary breakpoint.
waiting-Follows :
    (k : Kind) (d d' : Debugger) (b : Bool)
    → Follows k (record d { waiting_temp_bkpt = b }) d'
    → Follows k d d'
waiting-Follows k d d' b r = record { step = r.step; kept = r.kept }

module _ (k : Kind) (g : Settings) (xs : Surroundings) where
  run_past-Follows :
      (b : Option Bkpt) (d : Debugger) (w : World)
      → Step k d.mode target_specified running
      → AfterMethod k d (run_past g xs (b, d) w)
  unfolding run_past
  run_past-Follows none d w st = returns (same-Follows k d)
  run_past-Follows (some b) d w st =
      After-weaken (run-Follows k (λ i. xs (1 + i)) (record d { waiting_temp_bkpt = true }) w st)
        (λ r _ p. waiting-Follows k d r.1 true p)

  run_to-Follows :
      (place : Bytes) (d : Debugger) (w : World)
      → Step k d.mode target_specified running
      → AfterMethod k d (run_to g xs place d w)
  unfolding run_to breakpoint if_selected
  run_to-Follows place d w st =
      guarded-through k d _ w _ none (run_past g xs)
        (λ b h w₁. run_past-Follows b (record d { h = some h }) w₁ st) (returns (same-Follows k d))

  pub run_to_main-Follows :
      (d : Debugger) (w : World)
      → Step k d.mode target_specified running
      → AfterMethod k d (run_to_main g xs d w)
  unfolding run_to_main
  run_to_main-Follows d w st =
      After-if (is_target_specified d.state) _ _ w (λ _. run_to-Follows (mi_get_main_func g) d w st)
        (λ _. returns (same-Follows k d))

-- A method that goes on: from a selected target it runs, and from a stop it resumes.
going-Follows :
    (d : Debugger) (run resume : M (Bool × Debugger)) (w : World)
    → (d.state ≡ target_specified → AfterMethod going d (run w))
    → (d.state ≡ stopped → AfterMethod going d (resume w))
    → AfterMethod going d (
        (if is_target_specified d.state
            then run
            else if is_stopped d.state
            then resume
            else pure (false, d))
          w)
going-Follows d run resume w p q =
    After-if (is_target_specified d.state) _ _ w (λ e. p (is_target_specified-eq d.state e))
      (λ _.
        After-if (is_stopped d.state) _ _ w (λ e. q (is_stopped-eq d.state e))
          (λ _. returns (same-Follows going d)))

module _ (g : Settings) (xs : Surroundings) (d : Debugger) (w : World) where
  resuming-Follows :
      (f : Handle → M (Bool × Handle)) → d.state ≡ stopped → AfterMethod going d (starting f d w)
  resuming-Follows f e = starting-Follows going d f w (rw e goes_on)

  pub step_over-Follows : (inst : Bool) → AfterMethod going d (step_over g xs inst d w)
  unfolding step_over
  step_over-Follows inst =
      going-Follows d _ _ w (λ _. run_to_main-Follows going g xs d w goes) (resuming-Follows _)

  pub trace_into-Follows : (inst : Bool) → AfterMethod going d (trace_into g xs inst d w)
  unfolding trace_into
  trace_into-Follows inst =
      going-Follows d _ _ w (λ _. run_to_main-Follows going g xs d w goes) (resuming-Follows _)

  pub go_to-Follows : (file : Bytes) (line : ℤ) → AfterMethod going d (go_to g xs file line d w)
  unfolding go_to
  go_to-Follows file line =
      going-Follows d _ _ w (λ _. run_to-Follows going g xs _ d w goes) (resuming-Follows _)

  pub go_to_addr-Follows : (addr : ℕ) → AfterMethod going d (go_to_addr g xs addr d w)
  unfolding go_to_addr
  go_to_addr-Follows addr =
      going-Follows d _ _ w
        (λ _.
          run_to-Follows going g xs (snprintf 32 (codes "*" ++ g.libc.print_pointer addr)) d w goes)
        (resuming-Follows _)

  pub finish_fun-Follows : AfterMethod resumes d (finish_fun g xs d w)
  unfolding finish_fun
  finish_fun-Follows =
      After-if (is_stopped d.state) _ _ w
        (λ e. starting-Follows resumes d _ w (rw (is_stopped-eq d.state e) continues))
        (λ _. returns (same-Follows resumes d))

  pub show-Follows : (var : Bytes) → AfterMethod looking d (show g xs var d w)
  unfolding show
  show-Follows var = if_idle-Follows looking d _ w none

-- Another byte order or another architecture.
module _ (d d₁ : Debugger) (r : Follows looking d d₁) where
  pub endian-Follows : (e : Endian) → Follows looking d (record d₁ { target_endian = e })
  endian-Follows e = record { step = r.step; kept = r.kept }

  pub arch-Follows : (a : Arch) → Follows looking d (record d₁ { target_arch = a })
  arch-Follows a = record { step = r.step; kept = r.kept }

module _ (g : Settings) (xs : Surroundings) where
  shown_endian-Follows :
      (d : Debugger) (s : Option Bytes) (d₁ : Debugger)
      → Follows looking d d₁
      → Follows looking d (shown_endian g xs (s, d₁)).1
  unfolding shown_endian
  shown_endian-Follows d none d₁ r = r
  shown_endian-Follows d (some s) d₁ r = endian-Follows d d₁ r _

  known_endian-Follows :
      (e : Endian) (d : Debugger) (w : World) → AfterMethod looking d (known_endian g xs e d w)
  unfolding known_endian
  known_endian-Follows en_unknown d w =
      After-if (is_stopped d.state || is_target_specified d.state) _ _ w
        (λ _.
          After-continue (show-Follows g xs d w (codes "endian"))
            (λ r w₁ p. returns (shown_endian-Follows d r.0 r.1 p)))
        (λ _. returns (same-Follows looking d))
  known_endian-Follows en_little d w = returns (same-Follows looking d)
  known_endian-Follows en_big d w = returns (same-Follows looking d)

  pub get_target_endian-Follows :
      (d : Debugger) (w : World) → AfterMethod looking d (get_target_endian g xs d w)
  unfolding get_target_endian
  get_target_endian-Follows d w = known_endian-Follows d.target_endian d w

  shown_arch-Follows :
      (d : Debugger) (s : Option Bytes) (d₁ : Debugger)
      → Follows looking d d₁
      → Follows looking d (shown_arch g xs (s, d₁)).1
  unfolding shown_arch
  shown_arch-Follows d none d₁ r = r
  shown_arch-Follows d (some s) d₁ r = arch-Follows d d₁ r _

  known_arch-Follows :
      (a : Arch) (d : Debugger) (w : World) → AfterMethod looking d (known_arch g xs a d w)
  unfolding known_arch
  known_arch-Follows ar_unknown d w =
      After-if (is_stopped d.state || is_target_specified d.state) _ _ w
        (λ _.
          After-continue (show-Follows g xs d w (codes "architecture"))
            (λ r w₁ p. returns (shown_arch-Follows d r.0 r.1 p)))
        (λ _. returns (same-Follows looking d))
  known_arch-Follows ar_ia32 d w = returns (same-Follows looking d)
  known_arch-Follows ar_sparc d w = returns (same-Follows looking d)
  known_arch-Follows ar_pic14 d w = returns (same-Follows looking d)
  known_arch-Follows ar_avr d w = returns (same-Follows looking d)
  known_arch-Follows ar_unsupported d w = returns (same-Follows looking d)

  pub get_target_architecture-Follows :
      (d : Debugger) (w : World) → AfterMethod looking d (get_target_architecture g xs d w)
  unfolding get_target_architecture
  get_target_architecture-Follows d w = known_arch-Follows d.target_arch d w

  pub update_registers-Follows :
      (regs : List ChgReg) (d : Debugger) (w : World)
      → AfterMethod looking d (update_registers g xs regs d w)
  unfolding update_registers get_changed_registers
  update_registers-Follows regs d w =
      After-continue (if_stopped-Follows looking d _ w []) (λ r w₁ p. returns p)

-- The state is the same, and a handle is kept.
record Quiet (d d' : Debugger) : Type 0 where
  same : d'.state ≡ d.state
  kept : IsConsistent d → IsConsistent d'

Quiet-trans : (d d₁ d₂ : Debugger) → Quiet d d₁ → Quiet d₁ d₂ → Quiet d d₂
Quiet-trans d d₁ d₂ p q = record { same = q.same ∙ p.same; kept = λ c. q.kept (p.kept c) }

Quiet-Follows : (d d' : Debugger) → Quiet d d' → Follows looking d d'
Quiet-Follows d d' q = record { step = rw q.same stays; kept = q.kept }

unless-Quiet :
    (field : Option Bytes) (v : Gvar) (f : Handle → M ((Bool × Gvar) × Handle)) (d : Debugger)
    (w : World)
    → After (λ r _. Quiet d r.1) (unless field v f d w)
unfolding unless
unless-Quiet none v f d w =
    using-After d f w (λ a h h₁ w₁ e. record { same = refl; kept = awake d h₁ e })
unless-Quiet (some s) v f d w = returns (record { same = refl; kept = λ c. c })

module _ (g : Settings) where
  pub fill_one_type_val-Follows :
      (xs : Surroundings) (v : Option Gvar) (d : Debugger) (w : World)
      → AfterMethod looking d (fill_one_type_val g xs v d w)
  unfolding fill_one_type_val type_known value_known
  fill_one_type_val-Follows xs none d w = returns (same-Follows looking d)
  fill_one_type_val-Follows xs (some v) d w =
      After-continue (unless-Quiet v.type v _ d w) (λ r w₁ p.
        After-then (empty_type g xs r.0 w₁) (λ t w₂.
          After-continue (unless-Quiet (t.1).value t.1 _ r.1 w₂) (λ q w₃ p'.
            After-then (empty_value g xs t.0 q.0 w₃)
              (λ u w₄. returns (Quiet-Follows d q.1 (Quiet-trans d r.1 q.1 p p'))))))

  fill_type_val-Quiet :
      (xs : Surroundings) (vs : List Gvar) (d : Debugger) (w : World)
      → After (λ r _. Quiet d r.1) (fill_type_val g xs vs d w)
  unfolding fill_type_val type_known value_known
  fill_type_val-Quiet xs [] d w = returns (record { same = refl; kept = λ c. c })
  fill_type_val-Quiet xs (v ∷ vs) d w = After-continue (unless-Quiet v.type v _ d w) (λ r w₁ p.
      After-continue
        (After-if {P = λ q _. Quiet r.1 q.1} (r.0).0 (value_known g xs (r.0).1 r.1) (pure r) w₁
          (λ _. unless-Quiet ((r.0).1).value (r.0).1 _ r.1 w₁)
          (λ _. returns (record { same = refl; kept = λ c. c })))
        (λ q w₂ p'.
          After-continue
            (After-if {P = λ t _. Quiet q.1 t.1} (q.0).0 (fill_type_val g (λ i. xs (2 + i)) vs q.1)
              (pure ((false, vs), q.1)) w₂ (λ _. fill_type_val-Quiet (λ i. xs (2 + i)) vs q.1 w₂)
              (λ _. returns (record { same = refl; kept = λ c. c })))
            (λ t w₃ p''. returns (Quiet-trans d q.1 t.1 (Quiet-trans d r.1 q.1 p p') p''))))

  pub fill_type_val-Follows :
      (xs : Surroundings) (vs : List Gvar) (d : Debugger) (w : World)
      → AfterMethod looking d (fill_type_val g xs vs d w)
  fill_type_val-Follows xs vs d w =
      After-weaken (fill_type_val-Quiet xs vs d w) (λ r _ p. Quiet-Follows d r.1 p)

pub setting-Follows :
    (f : Handle → Handle) (d : Debugger) (w : World) → AfterMethod looking d (setting f d w)
unfolding setting
setting-Follows f d w = using-Follows looking d (λ h. pure (tt, f h)) w
