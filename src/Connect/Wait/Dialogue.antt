-- ===== src/Connect/Wait/Dialogue.antt =====
-- A whole response: lines of the grammar of Parse/Print, and the prompt.
use libmigdb.Base.{
  Bytes, codes, if◌then◌else◌, Bool, true, false, ◌&&◌, not, List, [], ◌∷◌, ◌++◌, inr, ◌≡◌, refl,
  ap, ◌∙◌, sym, append_assoc, append-nil, All,
}
use libmigdb.World.{World, ret, Plenty}
use libmigdb.Tree.{Output}
use libmigdb.Parse.Print.{Line, result_record, error, print_line, IsPrintableLine}
use libmigdb.Connect.Handle.{Handle, Callbacks, Event}
use libmigdb.Connect.Response.Deliver.{closes, world_after, kept, told_of, IsChained}
use libmigdb.Connect.Response.Lines.{
  IsLineByte, echo_of, mi_get_response-print_line, mi_get_response-prompt,
}
use libmigdb.Connect.Wait.{Wait, ready, gdb_died, wait_response, mi_get_response_blk}

-- What gdb sends: each line with its newline, and then `after`.
abbrev pub sent_lines : List Line → Bytes → Bytes
sent_lines [] after = after
sent_lines (l ∷ ls) after = print_line l ++ b'\n' ∷ sent_lines ls after

-- The pipe can be read at each `select`, with nothing more in it than before.
abbrev pub ready_for : List Line → List Wait
ready_for [] = []
ready_for (l ∷ ls) = ready [] ∷ ready_for ls

abbrev pub all_kept : List Line → List Output
all_kept [] = []
all_kept (l ∷ ls) = kept l ++ all_kept ls

abbrev pub world_after_all : List Line → World → World
world_after_all [] w = w
world_after_all (l ∷ ls) w = world_after_all ls (world_after l w)

-- What the application hears of the lines, each echoed first.
abbrev pub all_heard : List Line → Callbacks → List Event
all_heard [] cs = []
all_heard (l ∷ ls) cs = (echo_of (print_line l) cs ++ told_of l cs) ++ all_heard ls cs

-- A printable line on one line of text, after which the response goes on.
pub record IsOrdinary (l : Line) : Type 0 where
  pub printable : IsPrintableLine l
  pub line_bytes : All IsLineByte (print_line l)
  pub goes_on : closes l ≡ false

-- What the call returns, the state of the pipe, and that nothing is left of the response.
abbrev pub Answers : List Line → Bytes → Bytes → Handle → World → List Output → Type 0
Answers ls s rest h w os =
    (h' : Handle) × (wait_response (ready_for ls) h w ≡ ret (os, h') (world_after_all ls w))
    × (h'.pipe ≡ rest)
    × (h'.po ≡ [])
    × (h'.died ≡ h.died)
    × (h'.events
        ≡ h.events ++ (all_heard ls h.callbacks ++ echo_of (codes "(gdb)" ++ s) h.callbacks))

Plenty-world_after : (l : Line) (w : World) → Plenty w → Plenty (world_after l w)
Plenty-world_after (result_record error rs) w p = p
Plenty-world_after _ w p = p

heard_more :
    (l : Line) (ls : List Line) (s : Bytes) (es es₁ : List Event) (cs cs₁ : Callbacks)
    → cs₁ ≡ cs
    → es₁ ≡ es ++ (echo_of (print_line l) cs ++ told_of l cs)
    → es₁ ++ (all_heard ls cs₁ ++ echo_of (codes "(gdb)" ++ s) cs₁)
      ≡ es ++ (all_heard (l ∷ ls) cs ++ echo_of (codes "(gdb)" ++ s) cs)
heard_more l ls s es es₁ cs cs₁ c e =
    ap (λ (d : Callbacks). es₁ ++ (all_heard ls d ++ echo_of (codes "(gdb)" ++ s) d)) c
    ∙ ap (λ (fs : List Event). fs ++ (all_heard ls cs ++ echo_of (codes "(gdb)" ++ s) cs)) e
    ∙ append_assoc es (echo_of (print_line l) cs ++ told_of l cs) _
    ∙ ap (λ (fs : List Event). es ++ fs)
        (sym (append_assoc (echo_of (print_line l) cs ++ told_of l cs) (all_heard ls cs) _))

wait_lines :
    (ls : List Line) (s rest : Bytes) (h : Handle) (w : World)
    → All IsOrdinary ls
    → All IsLineByte s
    → Plenty w
    → h.pipe ≡ sent_lines ls ((codes "(gdb)" ++ s) ++ b'\n' ∷ rest)
    → h.partial ≡ []
    → IsChained h
    → Answers ls s rest h w (h.po ++ all_kept ls)
unfolding wait_response
wait_lines [] s rest h w o b p e q c =
    let (h', got, pipe, partial, died, callbacks, events, po) =
      mi_get_response-prompt s rest h w b p
        (record { in_pipe = e; none_partial = q; chained = c }) in
    (
      record h' { po = []; has_last = false },
      rw got (
          ap (λ (os : List Output). ret (os, record h' { po = []; has_last = false }) w)
            (po ∙ sym (append-nil h.po))),
      pipe,
      refl,
      died,
      events,
    )
wait_lines (l ∷ ls) s rest h w o b p e q c =
    let (h₁, got, pipe, partial, died, callbacks, events, po, chained) =
      mi_get_response-print_line l _ h w o.0.printable o.0.line_bytes p
        (record { in_pipe = e; none_partial = q; chained = c }) in
    let h₂ = record h₁ { pipe = h₁.pipe ++ [] } in
    let (h', more, pipe', po', died', events') =
      wait_lines ls s rest h₂ (world_after l w) o.1 b (Plenty-world_after l w p)
        (append-nil h₁.pipe ∙ pipe) partial chained in
    (
      h',
      rw (got, o.0.goes_on)
          (more
            ∙ ap (λ (os : List Output). ret (os, h') (world_after_all ls (world_after l w)))
                (ap (λ (os : List Output). os ++ all_kept ls) po
                  ∙ append_assoc h.po (kept l) (all_kept ls))),
      pipe',
      po',
      died' ∙ died,
      events' ∙ heard_more l ls s h.events h₁.events h.callbacks h₁.callbacks callbacks events,
    )

blk_running :
    (xs : List Wait) (h : Handle) (w : World)
    → h.died ≡ false
    → mi_get_response_blk true xs h w ≡ wait_response xs h w
unfolding mi_get_response_blk
blk_running xs h w d =
    ap (λ (died : Bool). (if not died && true then wait_response xs h else gdb_died h) w) d

-- From a handle with nothing left over, with memory to spare, on a running gdb that has answered with
-- printable lines as Parse/Print writes them, none the result record `exit`, and then the prompt, all
-- of them without NUL, carriage return and newline bytes, the call returns every record but the streams, in the order in
-- which they came. The callbacks that are set have heard every line and what it stands for, in order.
-- The pipe is left behind the prompt, the chain is empty again, and `mi_error` and
-- `mi_error_from_gdb` are those of the last error record, if there was one.
pub mi_get_response_blk-sent_lines :
    (ls : List Line) (s rest : Bytes) (h : Handle) (w : World)
    → All IsOrdinary ls
    → All IsLineByte s
    → Plenty w
    → h.pipe ≡ sent_lines ls ((codes "(gdb)" ++ s) ++ b'\n' ∷ rest)
    → h.partial ≡ []
    → h.po ≡ []
    → h.died ≡ false
    → (h' : Handle) × (mi_get_response_blk true (ready_for ls) h w
        ≡ ret (all_kept ls, h') (world_after_all ls w))
      × (h'.pipe ≡ rest)
      × (h'.po ≡ [])
      × (h'.died ≡ false)
      × (h'.events
          ≡ h.events ++ (all_heard ls h.callbacks ++ echo_of (codes "(gdb)" ++ s) h.callbacks))
unfolding mi_get_response_blk
mi_get_response_blk-sent_lines ls s rest h w o b p e q c d =
    let (h', got, pipe, po, died, events) = wait_lines ls s rest h w o b p e q (inr c) in
    (
      h',
      blk_running (ready_for ls) h w d
          ∙ (got ∙ ap (λ (os : List Output). ret (os ++ all_kept ls, h') (world_after_all ls w)) c),
      pipe,
      po,
      died ∙ d,
      events,
    )
