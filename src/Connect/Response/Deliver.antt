-- ===== src/Connect/Response/Deliver.antt =====
-- What delivering the record of a printed line does to the handle and to the globals.
use libmigdb.Base.{
  ℕ, zero, suc, Bytes, codes, str_eq, if◌then◌else◌, Bool, true, false, Bool-cases, Option, none,
  some, List, [], ◌∷◌, ◌++◌, inl, inr, ◌⊎◌, ◌≡◌, refl, append-nil, sym, ap, ◌∙◌,
}
use libmigdb.World.{World, ret, Plenty, mi_from_gdb, sys_alloc-Plenty}
use libmigdb.Tree.{Results, t_const, t_tuple, t_list, no_results, result, Output}
use libmigdb.Parse.Print.{
  Line, result_record, async_record, stream_record, ResultClass, error, done, running, connected,
  exit, AsyncKind, StreamKind, console, target, log, AsyncClass, AreResults, output_of,
  IsPrintableLine,
}
use libmigdb.Connect.Handle.{Handle, Callbacks, Event, call}
use libmigdb.Connect.Response.{catch_text, caught, record_message, is_exit, add_output, deliver}

-- The text that gdb gives with an error: the first result, if it is a string named `msg`.
abbrev pub message_of : Results → Option Bytes
message_of (result (some var) (t_const (some text)) rs) =
    if str_eq var (codes "msg") then some text else none
message_of _ = none

-- The globals after a line: only an error record changes them.
abbrev pub world_after : Line → World → World
world_after (result_record error rs) w = record w {
  error = mi_from_gdb;
  error_from_gdb = message_of rs;
}
world_after _ w = w

-- The records that the application gets from the response: the streams are not kept.
abbrev pub kept : Line → List Output
kept (stream_record k s) = []
kept l = output_of l ∷ []

-- `last` is not null when there is a record in the chain.
abbrev pub IsChained : Handle → Type 0
IsChained h = (h.has_last ≡ true) ⊎ (h.po ≡ [])

-- What the application hears through a callback, if it is set.
abbrev pub heard : Bool → Event → List Event
heard set e = if set then e ∷ [] else []

-- What the application hears of a line besides its echo.
abbrev pub told_of : Line → Callbacks → List Event
told_of (result_record cl rs) cs = []
told_of (async_record k cl rs) cs =
    heard cs.has_async (Event.async (output_of (async_record k cl rs)))
told_of (stream_record console s) cs = heard cs.has_console (Event.console (some s))
told_of (stream_record target s) cs = heard cs.has_target (Event.target (some s))
told_of (stream_record log s) cs = heard cs.has_log (Event.log (some s))

-- The parts of the handle that a delivery leaves alone, and the records and events that it adds.
pub record Delivered (os : List Output) (es : List Event) (h h' : Handle) : Type 0 where
  pub same_callbacks : h'.callbacks ≡ h.callbacks
  pub told : h'.events ≡ h.events ++ es
  pub same_pipe : h'.pipe ≡ h.pipe
  pub same_partial : h'.partial ≡ h.partial
  pub same_died : h'.died ≡ h.died
  pub added : h'.po ≡ h.po ++ os
  pub chained : IsChained h'

pub call-Delivered :
    (set : Bool) (e : Event) (h : Handle)
    → IsChained h
    → Delivered [] (heard set e) h (call set e h)
unfolding call
call-Delivered true e h c = record {
  same_callbacks = refl;
  told = refl;
  same_pipe = refl;
  same_partial = refl;
  same_died = refl;
  added = sym (append-nil h.po);
  chained = c;
}
call-Delivered false e h c = record {
  same_callbacks = refl;
  told = sym (append-nil h.events);
  same_pipe = refl;
  same_partial = refl;
  same_died = refl;
  added = sym (append-nil h.po);
  chained = c;
}

-- A delivery that changes none of these parts, after another.
catch_text-Delivered :
    {es : List Event} (text : Bytes) (n : ℕ) (h₀ h : Handle) (w : World)
    → Plenty w
    → Delivered [] es h₀ h
    → (h' : Handle) × (catch_text (some text) n h w ≡ ret h' w) × Delivered [] es h₀ h'
unfolding catch_text
catch_text-Delivered text zero h₀ h w p d = (h, refl, d)
catch_text-Delivered text (suc zero) h₀ h w p d = (
  caught h text true,
  rw (sys_alloc-Plenty w p),
  record {
    same_callbacks = d.same_callbacks;
    told = d.told;
    same_pipe = d.same_pipe;
    same_partial = d.same_partial;
    same_died = d.same_died;
    added = d.added;
    chained = d.chained;
  },
)
catch_text-Delivered text (suc (suc n)) h₀ h w p d = (
  record h { catch_console = suc n },
  refl,
  record {
    same_callbacks = d.same_callbacks;
    told = d.told;
    same_pipe = d.same_pipe;
    same_partial = d.same_partial;
    same_died = d.same_died;
    added = d.added;
    chained = d.chained;
  },
)

grown_chain :
    (os qs : List Output) (o : Output) (last : Bool)
    → (last ≡ true) ⊎ (qs ≡ [])
    → qs ≡ os ++ []
    → (if last then qs ++ o ∷ [] else o ∷ []) ≡ os ++ o ∷ []
grown_chain os qs o true c e = ap (λ (l : List Output). l ++ o ∷ []) (e ∙ append-nil os)
grown_chain os qs o false (inl c) e = cc
grown_chain os qs o false (inr c) e =
    ap (λ (l : List Output). l ++ o ∷ []) (sym c ∙ e ∙ append-nil os)

add_output-Delivered :
    {es : List Event} (o : Output) (h₀ h : Handle)
    → Delivered [] es h₀ h
    → Delivered (o ∷ []) es h₀ (add_output o h)
unfolding add_output
add_output-Delivered o h₀ h d = record {
  same_callbacks = d.same_callbacks;
  told = d.told;
  same_pipe = d.same_pipe;
  same_partial = d.same_partial;
  same_died = d.same_died;
  added = grown_chain h₀.po h.po o h.has_last d.chained d.added;
  chained = inl refl;
}

record_message-message_of :
    (rs : Results) (w : World)
    → AreResults rs
    → Plenty w
    → record_message rs w ≡ ret tt (record w { error_from_gdb = message_of rs })
unfolding record_message AreResults
record_message-message_of no_results w n p = refl
record_message-message_of (result none v rs) w n p = absurd n.0
record_message-message_of (result (some var) (t_const none) rs) w n p = absurd n.1
record_message-message_of (result (some var) (t_const (some text)) rs) w n p =
    elim (Bool-cases (str_eq var (codes "msg"))) [
      | inl e ↦ rw e (rw (sys_alloc-Plenty w p))
      | inr e ↦ rw e
    ]
record_message-message_of (result (some var) (t_tuple vs) rs) w n p = refl
record_message-message_of (result (some var) (t_list vs) rs) w n p = refl

Delivered-refl : (h : Handle) → IsChained h → Delivered [] [] h h
Delivered-refl h c = record {
  same_callbacks = refl;
  told = sym (append-nil h.events);
  same_pipe = refl;
  same_partial = refl;
  same_died = refl;
  added = sym (append-nil h.po);
  chained = c;
}

-- With this record gdb says that it has left, so no prompt follows.
abbrev pub closes : Line → Bool
closes (result_record exit rs) = true
closes _ = false

-- The outcome of one delivery.
abbrev pub Delivers : Line → Handle → World → Type 0
Delivers l h w =
    (h' : Handle) × (deliver (output_of l) h w ≡ ret (closes l, h') (world_after l w))
    × Delivered (kept l) (told_of l h.callbacks) h h'

deliver_result :
    (cl : ResultClass) (rs : Results) (h : Handle) (w : World)
    → AreResults rs
    → Plenty w
    → IsChained h
    → Delivers (result_record cl rs) h w
unfolding deliver is_exit output_of
deliver_result error rs h w n p c = (
  add_output (output_of (result_record error rs)) h,
  rw (record_message-message_of rs (record w { error = mi_from_gdb; error_from_gdb = none }) n p),
  add_output-Delivered _ h h (Delivered-refl h c),
)
deliver_result done rs h w n p c =
    (add_output _ h, refl, add_output-Delivered _ h h (Delivered-refl h c))
deliver_result running rs h w n p c =
    (add_output _ h, refl, add_output-Delivered _ h h (Delivered-refl h c))
deliver_result connected rs h w n p c =
    (add_output _ h, refl, add_output-Delivered _ h h (Delivered-refl h c))
deliver_result exit rs h w n p c =
    (add_output _ h, refl, add_output-Delivered _ h h (Delivered-refl h c))

-- Any class of any kind: the type and the subtype decide.
async_output :
    (k : AsyncKind) (cl : AsyncClass) (rs : Results) (h : Handle) (w : World)
    → deliver (output_of (async_record k cl rs)) h w
      ≡ ret
          (
            false,
            add_output
                (output_of (async_record k cl rs))
                (call h.callbacks.has_async (Event.async (output_of (async_record k cl rs))) h),
          )
          w
unfolding deliver output_of
async_output k cl rs h w = refl

deliver_async :
    (k : AsyncKind) (cl : AsyncClass) (rs : Results) (h : Handle) (w : World)
    → IsChained h
    → Delivers (async_record k cl rs) h w
unfolding is_exit output_of
deliver_async k cl rs h w c =
    let o = output_of (async_record k cl rs) in
    let h₁ = call h.callbacks.has_async (Event.async o) h in
    (
      add_output o h₁,
      async_output k cl rs h w,
      add_output-Delivered o h h₁ (call-Delivered h.callbacks.has_async (Event.async o) h c),
    )

deliver_stream :
    (k : StreamKind) (s : Bytes) (h : Handle) (w : World)
    → Plenty w
    → IsChained h
    → Delivers (stream_record k s) h w
unfolding deliver output_of
deliver_stream console s h w p c =
    let e = Event.console (some s) in
    let h₁ = call h.callbacks.has_console e h in
    let (h₂, caught, d) =
      catch_text-Delivered s h.catch_console h h₁ w p
        (call-Delivered h.callbacks.has_console e h c) in
    (h₂, rw caught, d)
deliver_stream target s h w p c =
    let e = Event.target (some s) in
    (call h.callbacks.has_target e h, refl, call-Delivered h.callbacks.has_target e h c)
deliver_stream log s h w p c =
    let e = Event.log (some s) in
    (call h.callbacks.has_log e h, refl, call-Delivered h.callbacks.has_log e h c)

-- Delivering the record of a printed line: an error record is noted in `mi_error` and
-- `mi_error_from_gdb`, a stream goes to its callback if one is set and is not kept, every other
-- record is added at the end of the chain, an async record goes to the async callback too, and the
-- response is complete if it is the result record `exit`. This holds for printable lines, with
-- memory to spare, when `last` is null only if the chain is empty.
pub deliver-output_of :
    (l : Line) (h : Handle) (w : World)
    → IsPrintableLine l
    → Plenty w
    → IsChained h
    → Delivers l h w
deliver-output_of (result_record cl rs) h w n p c = deliver_result cl rs h w n p c
deliver-output_of (async_record k cl rs) h w n p c = deliver_async k cl rs h w c
deliver-output_of (stream_record k s) h w n p c = deliver_stream k s h w p c
