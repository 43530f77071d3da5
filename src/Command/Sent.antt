-- ===== src/Command/Sent.antt =====
-- A command and its response as one dialogue.
use libmigdb.Base.{
  ℕ, Bytes, codes, if◌then◌else◌, Bool, true, false, List, [], ◌∷◌, ◌++◌, ◌≡◌, ap, inr, ◌∙◌,
  append_assoc, append-nil,
}
use libmigdb.World.{World, ret, Plenty, sys_alloc-Plenty}
use libmigdb.Tree.{mi_cl_done}
use libmigdb.Parse.Print.{Line}
use libmigdb.Connect.Handle.{Handle, Callbacks, Event}
use libmigdb.Connect.Response.Deliver.{heard, call-Delivered}
use libmigdb.Connect.Response.Lines.{echo_of}
use libmigdb.Connect.Wait.Dialogue.{ready_for, all_heard, world_after_all}
use libmigdb.Query.{mi_res_simple, mi_res_simple_done}
use libmigdb.Query.Answers.{IsAwaited, answer_of, has_class, mi_res_simple-sent_lines}
use libmigdb.Extract.{ℤ, Libc}
use libmigdb.Command.Breakpoint.{mi_break_enable, mi_break_disable, gmi_break_state}
use libmigdb.Command.{mi_send, put_text, line_of, send_line, command}

-- What the surroundings see of a line that is sent.
abbrev pub sending : Bytes → Callbacks → List Event
sending s cs = Event.sent s ∷ heard cs.has_to_gdb_echo (Event.to_gdb_echo s)

mi_send-put_text :
    (s : Bytes) (h : Handle) (w : World)
    → Plenty w
    → h.died ≡ false
    → mi_send h s w ≡ ret (put_text h s) w
unfolding mi_send
mi_send-put_text s h w p d = rw (d, sys_alloc-Plenty w p)

-- Sending leaves the pipe as it is, so the response that is awaited is still there.
put_text-IsAwaited :
    (text : Bytes) (ls : List Line) (s rest : Bytes) (h : Handle)
    → IsAwaited ls s rest h
    → IsAwaited ls s rest (put_text h text)
      × ((put_text h text).callbacks ≡ h.callbacks)
      × ((put_text h text).events ≡ h.events ++ sending text h.callbacks)
unfolding put_text
put_text-IsAwaited text ls s rest h i =
    let e = Event.to_gdb_echo text in
    let h₁ = record h { events = h.events ++ Event.sent text ∷ [] } in
    let d = call-Delivered h.callbacks.has_to_gdb_echo e h₁ (inr i.none_chained) in
    (
      record {
        ordinary = i.ordinary;
        prompt = i.prompt;
        in_pipe = d.same_pipe ∙ i.in_pipe;
        none_partial = d.same_partial ∙ i.none_partial;
        none_chained = d.added ∙ append-nil h.po ∙ i.none_chained;
        alive = d.same_died ∙ i.alive;
      },
      d.same_callbacks,
      d.told ∙ append_assoc h.events (Event.sent text ∷ []) (heard h.callbacks.has_to_gdb_echo e),
    )

-- What the surroundings see of a command and its response.
abbrev pub dialogue : Bytes → List Line → Bytes → Callbacks → List Event
dialogue text ls s cs = sending text cs ++ (all_heard ls cs ++ echo_of (codes "(gdb)" ++ s) cs)

-- When gdb answers with printable lines, none an exit record, and its prompt, nothing is left over in
-- the handle and memory is to spare, a command that waits for a class writes its text once, before
-- anything of the response is heard, and returns whether the first result record of the response has
-- that class; the response is taken out of the pipe and out of the chain.
pub command-sent_lines :
    (pieces : List Bytes) (tclass : ℕ) (ls : List Line) (s rest : Bytes) (h : Handle) (w : World)
    → Plenty w
    → IsAwaited ls s rest h
    → (h' : Handle) × (command
          (send_line h pieces)
          (λ k. mi_res_simple true (ready_for ls) k tclass)
          w
        ≡ ret (has_class tclass (answer_of ls), h') (world_after_all ls w))
      × (h'.pipe ≡ rest)
      × (h'.po ≡ [])
      × (h'.events ≡ h.events ++ dialogue (line_of pieces) ls s h.callbacks)
unfolding command send_line
command-sent_lines pieces tclass ls s rest h w p i =
    let text = line_of pieces in
    let (j, callbacks, events) = put_text-IsAwaited text ls s rest h i in
    let (h', got, pipe, po, told) =
      mi_res_simple-sent_lines tclass ls s rest (put_text h text) w p j in
    (
      h',
      rw (mi_send-put_text text h w p i.alive) got,
      pipe,
      po,
      told
          ∙ ap
              (λ (cs : Callbacks).
                (put_text h text).events ++ (all_heard ls cs ++ echo_of (codes "(gdb)" ++ s) cs))
              callbacks
          ∙ ap
              (λ (es : List Event).
                es ++ (all_heard ls h.callbacks ++ echo_of (codes "(gdb)" ++ s) h.callbacks))
              events
          ∙ append_assoc h.events (sending text h.callbacks) _,
    )

-- When gdb answers with printable lines, none an exit record, and its prompt, nothing is left over in
-- the handle and memory is to spare, `gmi_break_state` writes the one command that
-- enables or disables the breakpoint, and returns whether gdb said `done`.
pub gmi_break_state-sent_lines :
    (libc : Libc) (number : ℤ) (enable : Bool) (ls : List Line) (s rest : Bytes) (h : Handle)
    (w : World)
    → Plenty w
    → IsAwaited ls s rest h
    → (h' : Handle) × (gmi_break_state libc true (ready_for ls) h number enable w
        ≡ ret (has_class mi_cl_done (answer_of ls), h') (world_after_all ls w))
      × (h'.pipe ≡ rest)
      × (h'.po ≡ [])
      × (h'.events
          ≡ h.events
            ++ dialogue
                ((if enable then codes "-break-enable " else codes "-break-disable ")
                  ++ (libc.print_int number ++ codes "\n"))
                ls
                s
                h.callbacks)
unfolding gmi_break_state mi_break_enable mi_break_disable mi_res_simple_done line_of
gmi_break_state-sent_lines libc number true ls s rest h w p i =
    command-sent_lines (codes "-break-enable " ∷ libc.print_int number ∷ codes "\n" ∷ []) mi_cl_done
      ls s rest h w p i
gmi_break_state-sent_lines libc number false ls s rest h w p i =
    command-sent_lines (codes "-break-disable " ∷ libc.print_int number ∷ codes "\n" ∷ [])
      mi_cl_done ls s rest h w p i
