-- ===== src/Connect/Response/Lines.antt =====
-- One call of `mi_get_response` on a line that Parse/Print writes, and on the prompt.
use libmigdb.Base.{
  ℕ, suc, Bytes, length, codes, ◌==◌, Bool, true, false, ◌&&◌, not, List, [], ◌∷◌, ◌++◌, ◌≡◌, refl,
  ap, ◌∙◌, arith, append-nil, append_assoc, All,
}
use libmigdb.World.{World, ret, Plenty}
use libmigdb.Parse.Print.{
  Line, result_record, async_record, stream_record, exec, status, notify, console, target, log,
  print_line, output_of, IsPrintableLine,
}
use libmigdb.Parse.Records.RoundTrip.{mi_parse_gdb_output-print_line}
use libmigdb.Tree.{Output}
use libmigdb.Connect.Handle.{Handle, Callbacks, Event, call}
use libmigdb.Connect.Getline.{c_string, count, mi_getline}
use libmigdb.Connect.Getline.Lines.{NotNewline, without_cr, mi_getline-line}
use libmigdb.Connect.Response.{
  is_prompt, handle_text, handle_line, after_line, deliver, mi_get_response,
}
use libmigdb.Connect.Response.Deliver.{
  world_after, kept, heard, told_of, IsChained, Delivered, Delivers, closes, call-Delivered,
  deliver-output_of,
}

-- A byte that may stand in a line: not NUL, newline or carriage return.
abbrev pub IsLineByte : ℕ → Type 0
IsLineByte c = ((c == 0) ≡ false) × ((c == b'\n') ≡ false) × ((c == b'\r') ≡ false)

pub NotNewline-IsLineByte : (s : Bytes) → All IsLineByte s → All NotNewline s
NotNewline-IsLineByte [] h = tt
NotNewline-IsLineByte (c ∷ s) h = (h.0.1, NotNewline-IsLineByte s h.1)

without_cr-IsLineByte : (s : Bytes) → All IsLineByte s → without_cr s ≡ s
unfolding without_cr
without_cr-IsLineByte [] h = refl
without_cr-IsLineByte (c ∷ s) h = rw h.0.2 (ap (◌∷◌ c) (without_cr-IsLineByte s h.1))

c_string-IsLineByte : (s : Bytes) → All IsLineByte s → c_string s ≡ s
unfolding c_string
c_string-IsLineByte [] h = refl
c_string-IsLineByte (c ∷ s) h = rw h.0.0 (ap (◌∷◌ c) (c_string-IsLineByte s h.1))

-- The state in which a call finds the next line whole in the pipe.
pub record IsReady (line rest : Bytes) (h : Handle) : Type 0 where
  pub in_pipe : h.pipe ≡ line ++ b'\n' ∷ rest
  pub none_partial : h.partial ≡ []
  pub chained : IsChained h

-- The handle with the line in its buffer.
abbrev with_line : Handle → Bytes → Bytes → ℕ → Handle
with_line h line rest m = record h { pipe = rest; llen = m; line = line; partial = [] }

getline-IsLineByte :
    (a rest : Bytes) (h : Handle) (w : World)
    → Plenty w
    → All IsLineByte a
    → IsReady a rest h
    → (m : ℕ) × (mi_getline h w ≡ ret (count (length a), with_line h a rest m) w)
getline-IsLineByte a rest h w p n r =
    let (m, e) = mi_getline-line a rest h w p (NotNewline-IsLineByte a n) r.in_pipe in
    let whole : h.partial ++ without_cr a ≡ a =
      ap (λ (t : Bytes). t ++ without_cr a) r.none_partial ∙ without_cr-IsLineByte a n in
    (m, e ∙ rw whole (rw (c_string-IsLineByte a n)))

-- The first byte of a printed line.
print_line-is_prompt : (l : Line) → is_prompt (print_line l) ≡ false
unfolding is_prompt print_line
print_line-is_prompt (result_record cl rs) = refl
print_line-is_prompt (async_record exec cl rs) = refl
print_line-is_prompt (async_record status cl rs) = refl
print_line-is_prompt (async_record notify cl rs) = refl
print_line-is_prompt (stream_record console s) = refl
print_line-is_prompt (stream_record target s) = refl
print_line-is_prompt (stream_record log s) = refl

length-print_line : (l : Line) → (n : ℕ) × (length (print_line l) ≡ suc n)
unfolding print_line
length-print_line (result_record cl rs) = (_, refl)
length-print_line (async_record k cl rs) = (_, refl)
length-print_line (stream_record k s) = (_, refl)

line-call : (set : Bool) (e : Event) (h : Handle) → (call set e h).line ≡ h.line
unfolding call
line-call true e h = refl
line-call false e h = refl

-- The echo of a line.
abbrev echoed : Handle → Handle
echoed h = call h.callbacks.has_from_gdb_echo (Event.from_gdb_echo h.line) h

handle_text-print_line :
    (l : Line) (h : Handle) (w : World)
    → IsPrintableLine l
    → Plenty w
    → handle_text h (print_line l) w ≡ deliver (output_of l) h w
unfolding handle_text
handle_text-print_line l h w n p =
    rw (print_line-is_prompt l, mi_parse_gdb_output-print_line l w n p)

handle_line-print_line :
    (l : Line) (h : Handle) (w : World)
    → h.line ≡ print_line l
    → IsPrintableLine l
    → Plenty w
    → handle_line h w ≡ deliver (output_of l) (echoed h) w
unfolding handle_line
handle_line-print_line l h w e n p =
    ap (λ (t : Bytes). handle_text (echoed h) t w)
      (line-call h.callbacks.has_from_gdb_echo (Event.from_gdb_echo h.line) h ∙ e)
    ∙ handle_text-print_line l (echoed h) w n p

-- The echo of a line.
abbrev pub echo_of : Bytes → Callbacks → List Event
echo_of s cs = heard cs.has_from_gdb_echo (Event.from_gdb_echo s)

-- What one call makes of a line.
abbrev pub Responds : Line → Bytes → Handle → World → Type 0
Responds l rest h w =
    (h' : Handle) × (mi_get_response h w ≡ ret (closes l, h') (world_after l w))
    × (h'.pipe ≡ rest)
    × (h'.partial ≡ [])
    × (h'.died ≡ h.died)
    × (h'.callbacks ≡ h.callbacks)
    × (h'.events ≡ h.events ++ (echo_of (print_line l) h.callbacks ++ told_of l h.callbacks))
    × (h'.po ≡ h.po ++ kept l)
    × IsChained h'

responds :
    (l : Line) (rest : Bytes) (h h₁ : Handle) (w : World)
    → mi_get_response h w ≡ deliver (output_of l) (echoed h₁) w
    → h₁.pipe ≡ rest
    → h₁.partial ≡ []
    → h₁.died ≡ h.died
    → h₁.po ≡ h.po
    → h₁.events ≡ h.events
    → h₁.callbacks ≡ h.callbacks
    → Delivered [] (echo_of (print_line l) h₁.callbacks) h₁ (echoed h₁)
    → Delivers l (echoed h₁) w
    → Responds l rest h w
responds l rest h h₁ w e pipe partial died po events callbacks echo (h', delivered, d) = (
  h',
  e ∙ delivered,
  d.same_pipe ∙ echo.same_pipe ∙ pipe,
  d.same_partial ∙ echo.same_partial ∙ partial,
  d.same_died ∙ echo.same_died ∙ died,
  d.same_callbacks ∙ echo.same_callbacks ∙ callbacks,
  d.told
      ∙ ap (λ (cs : Callbacks). (echoed h₁).events ++ told_of l cs)
          (echo.same_callbacks ∙ callbacks)
      ∙ ap (λ (es : List Event). es ++ told_of l h.callbacks)
          (echo.told
            ∙ ap (λ (cs : Callbacks). h₁.events ++ echo_of (print_line l) cs) callbacks
            ∙ ap (λ (es : List Event). es ++ echo_of (print_line l) h.callbacks) events)
      ∙ append_assoc h.events (echo_of (print_line l) h.callbacks) (told_of l h.callbacks),
  d.added ∙ ap (λ (os : List Output). os ++ kept l) (echo.added ∙ append-nil h₁.po ∙ po),
  d.chained,
)

-- With memory to spare, a call that finds a printed line in the pipe takes it out, and
-- delivers the record that the line stands for.
pub mi_get_response-print_line :
    (l : Line) (rest : Bytes) (h : Handle) (w : World)
    → IsPrintableLine l
    → All IsLineByte (print_line l)
    → Plenty w
    → IsReady (print_line l) rest h
    → Responds l rest h w
unfolding mi_get_response after_line
mi_get_response-print_line l rest h w n b p r =
    let (m, got) = getline-IsLineByte (print_line l) rest h w p b r in
    let (k, positive) = length-print_line l in
    let h₁ = with_line h (print_line l) rest m in
    let echo =
      call-Delivered h₁.callbacks.has_from_gdb_echo (Event.from_gdb_echo h₁.line) h₁ r.chained in
    responds l rest h h₁ w (rw got (rw positive (handle_line-print_line l h₁ w refl n p))) refl refl
      refl refl refl refl echo (deliver-output_of l (echoed h₁) w n p echo.chained)

abbrev prompt : Bytes → Bytes
prompt s = codes "(gdb)" ++ s

handle_text-prompt :
    (s : Bytes) (h : Handle) (w : World) → handle_text h (prompt s) w ≡ ret (true, h) w
unfolding handle_text
handle_text-prompt s h w = refl

IsLineByte-prompt : (s : Bytes) → All IsLineByte s → All IsLineByte (prompt s)
IsLineByte-prompt s b = (
  (refl, refl, refl),
  ((refl, refl, refl), ((refl, refl, refl), ((refl, refl, refl), ((refl, refl, refl), b)))),
)

-- A call that finds the prompt says that the response is complete, and keeps what was collected.
pub mi_get_response-prompt :
    (s rest : Bytes) (h : Handle) (w : World)
    → All IsLineByte s
    → Plenty w
    → IsReady (codes "(gdb)" ++ s) rest h
    → (h' : Handle) × (mi_get_response h w ≡ ret (true, h') w)
      × (h'.pipe ≡ rest)
      × (h'.partial ≡ [])
      × (h'.died ≡ h.died)
      × (h'.callbacks ≡ h.callbacks)
      × (h'.events ≡ h.events ++ echo_of (codes "(gdb)" ++ s) h.callbacks)
      × (h'.po ≡ h.po)
unfolding mi_get_response after_line handle_line
mi_get_response-prompt s rest h w b p r =
    let (m, got) = getline-IsLineByte (prompt s) rest h w p (IsLineByte-prompt s b) r in
    let h₁ = with_line h (prompt s) rest m in
    let e = Event.from_gdb_echo h₁.line in
    let echo = call-Delivered h₁.callbacks.has_from_gdb_echo e h₁ r.chained in
    (
      echoed h₁,
      rw got (
          ap (λ (t : Bytes). handle_text (echoed h₁) t w)
            (line-call h₁.callbacks.has_from_gdb_echo e h₁)
          ∙ handle_text-prompt s (echoed h₁) w),
      echo.same_pipe,
      echo.same_partial,
      echo.same_died,
      echo.same_callbacks,
      echo.told,
      echo.added ∙ append-nil h₁.po,
    )

-- A decision for concrete lines.
abbrev pub line_bytes : Bytes → Bool
line_bytes [] = true
line_bytes (c ∷ s) = (not (c == 0) && not (c == b'\n') && not (c == b'\r')) && line_bytes s

pub line_bytes-IsLineByte : (s : Bytes) → line_bytes s ≡ true → All IsLineByte s
line_bytes-IsLineByte [] h = tt
line_bytes-IsLineByte (c ∷ s) h =
    ((ground arith, ground arith, ground arith), line_bytes-IsLineByte s (ground arith))
