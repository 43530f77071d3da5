-- ===== src/Launch/Failure.antt =====
-- A connection that fails gives back what it took.
use libmigdb.Base.{
  ℕ, suc, Bytes, Bool, true, false, if◌then◌else◌, ◌&&◌, Option, List, [], ◌∷◌, ◌≡◌, refl,
}
use libmigdb.World.{World, ret, Plenty, mi_ok, mi_calloc-Plenty}
use libmigdb.Command.{Surroundings}
use libmigdb.Launch.{
  End, to_gdb_0, to_gdb_1, from_gdb_0, from_gdb_1, Launch, given_up, mi_connect_local,
  mi_pipe_create, mi_fork, mi_debugger_run, mi_missing_gdb,
}

abbrev same_end : End → End → Bool
same_end to_gdb_0 to_gdb_0 = true
same_end to_gdb_1 to_gdb_1 = true
same_end from_gdb_0 from_gdb_0 = true
same_end from_gdb_1 from_gdb_1 = true
same_end _ _ = false

-- How often an end is in a list.
abbrev pub times : End → List End → ℕ
times e [] = 0
times e (f ∷ fs) = let rest = times e fs in if same_end e f then suc rest else rest

-- The ends that `pipe` opened.
abbrev pub opened : Launch → End → Bool
opened l to_gdb_0 = l.executable && l.pipe_to
opened l to_gdb_1 = l.executable && l.pipe_to
opened l from_gdb_0 = l.executable && (l.pipe_to && l.pipe_from)
opened l from_gdb_1 = l.executable && (l.pipe_to && l.pipe_from)

abbrev pub once_if : Bool → ℕ
once_if true = 1
once_if false = 0

-- The number of the step that failed; the last is that gdb ended at once.
abbrev pub failed_step : Launch → ℕ
failed_step l =
    if l.executable
    then if l.pipe_to && l.pipe_from && l.stream_to && l.stream_from
      then if l.forked then mi_debugger_run else mi_fork
      else mi_pipe_create
    else mi_missing_gdb

-- Every step succeeds.
abbrev pub succeeds : Launch → Bool
succeeds l =
    l.executable && l.pipe_to && l.pipe_from && l.stream_to && l.stream_from && l.forked
    && l.child_running

-- There was a child, which had ended.
abbrev pub has_ended : Launch → Bool
has_ended l = l.executable && l.pipe_to && l.pipe_from && l.stream_to && l.stream_from && l.forked

-- The call returns null, `mi_error` is the number of the step, and each end is closed as often as it
-- was opened. A child that had ended is killed.
abbrev pub GivesBack : Launch → Surroundings → Option (List Bytes) → World → Type 0
GivesBack l xs gdb_start w =
    (r : List End × Bool) × (mi_connect_local l xs gdb_start w
      ≡ ret (given_up r) (record w { error = failed_step l }))
    × ((e : End) → times e r.0 ≡ once_if (opened l e))
    × (r.1 ≡ has_ended l)

balanced :
    (es : List End) (l : Launch)
    → times to_gdb_0 es ≡ once_if (opened l to_gdb_0)
    → times to_gdb_1 es ≡ once_if (opened l to_gdb_1)
    → times from_gdb_0 es ≡ once_if (opened l from_gdb_0)
    → times from_gdb_1 es ≡ once_if (opened l from_gdb_1)
    → (e : End) → times e es ≡ once_if (opened l e)
balanced es l a b c d to_gdb_0 = a
balanced es l a b c d to_gdb_1 = b
balanced es l a b c d from_gdb_0 = c
balanced es l a b c d from_gdb_1 = d

abbrev answers : Bool → Bool → Bool → Bool → Bool → Bool → Bool → Launch
answers executable pipe_to pipe_from stream_to stream_from forked child_running = record {
  executable = executable;
  pipe_to = pipe_to;
  pipe_from = pipe_from;
  stream_to = stream_to;
  stream_from = stream_from;
  forked = forked;
  child_running = child_running;
}

abbrev all_ends : List End
all_ends = to_gdb_0 ∷ to_gdb_1 ∷ from_gdb_0 ∷ from_gdb_1 ∷ []

module _ (xs : Surroundings) (gdb_start : Option (List Bytes)) (w : World) (p : Plenty w) where
  fails_at :
      (a b c d e f g : Bool)
      → succeeds (answers a b c d e f g) ≡ false
      → GivesBack (answers a b c d e f g) xs gdb_start w
  unfolding mi_connect_local
  fails_at false b c d e f g n =
      (([], false), refl, balanced [] (answers false b c d e f g) refl refl refl refl, refl)
  fails_at true false c d e f g n = (
    ([], false),
    rw (mi_calloc-Plenty (record w { error = mi_ok }) p) refl,
    balanced [] (answers true false c d e f g) refl refl refl refl,
    refl,
  )
  fails_at true true false d e f g n = (
    (to_gdb_0 ∷ to_gdb_1 ∷ [], false),
    rw (mi_calloc-Plenty (record w { error = mi_ok }) p) refl,
    balanced (to_gdb_0 ∷ to_gdb_1 ∷ []) (answers true true false d e f g) refl refl refl refl,
    refl,
  )
  fails_at true true true false false f g n = (
    (all_ends, false),
    rw (mi_calloc-Plenty (record w { error = mi_ok }) p) refl,
    balanced all_ends (answers true true true false false f g) refl refl refl refl,
    refl,
  )
  fails_at true true true false true f g n = (
    (all_ends, false),
    rw (mi_calloc-Plenty (record w { error = mi_ok }) p) refl,
    balanced all_ends (answers true true true false true f g) refl refl refl refl,
    refl,
  )
  fails_at true true true true false f g n = (
    (all_ends, false),
    rw (mi_calloc-Plenty (record w { error = mi_ok }) p) refl,
    balanced all_ends (answers true true true true false f g) refl refl refl refl,
    refl,
  )
  fails_at true true true true true false g n = (
    (all_ends, false),
    rw (mi_calloc-Plenty (record w { error = mi_ok }) p) refl,
    balanced all_ends (answers true true true true true false g) refl refl refl refl,
    refl,
  )
  fails_at true true true true true true false n = (
    (all_ends, true),
    rw (mi_calloc-Plenty (record w { error = mi_ok }) p) refl,
    balanced all_ends (answers true true true true true true false) refl refl refl refl,
    refl,
  )
  fails_at true true true true true true true n = cc

-- With memory to spare, when a step of `mi_connect_local` fails, the call returns null, `mi_error` is
-- the number of that step, and every end of a pipe is closed once if it was opened, and else not.
-- When gdb was started and had ended at once, its pid is signalled although `waitpid` has already
-- collected it.
pub mi_connect_local-GivesBack :
    (l : Launch) (xs : Surroundings) (gdb_start : Option (List Bytes)) (w : World)
    → Plenty w
    → succeeds l ≡ false
    → GivesBack l xs gdb_start w
mi_connect_local-GivesBack l xs gdb_start w p n =
    fails_at xs gdb_start w p l.executable l.pipe_to l.pipe_from l.stream_to l.stream_from l.forked
      l.child_running n
