-- ===== src/Connect/Getline/Lines.antt =====
-- What `mi_getline` makes of the bytes that gdb sends.
use libmigdb.Base.{
  ℕ, ◌+◌, ◌<◌, Bytes, length, leb, ◌==◌, if◌then◌else◌, true, false, Bool-cases, [], ◌∷◌, ◌++◌, inl,
  inr, ◌≡◌, refl, ap, ◌∙◌, sym, arith, append_assoc, append-nil, All,
}
use libmigdb.World.{World, ret, Plenty, sys_alloc-Plenty}
use libmigdb.Connect.Handle.{Handle}
use libmigdb.Connect.Getline.{c_string, grow, count, read_bytes, mi_getline}

-- Carriage returns are dropped.
unfoldable pub without_cr : Bytes → Bytes
without_cr [] = []
without_cr (c ∷ s) = let rest = c ∷ without_cr s in if c == b'\r' then without_cr s else rest

grow-Plenty :
    (h : Handle) (w : World)
    → Plenty w
    → (m : ℕ) × (grow h w ≡ ret (true, record h { llen = m }) w) × (length h.partial < m)
unfolding grow
grow-Plenty h w p = elim (Bool-cases (leb h.llen (length h.partial))) [
  | inl e ↦ (length h.partial + 128, rw (e, sys_alloc-Plenty w p), omega arith)
  | inr e ↦ (h.llen, rw e, ground arith)
]

abbrev pub NotNewline : ℕ → Type 0
NotNewline c = (c == b'\n') ≡ false

store_room :
    (c : ℕ) (h : Handle) → length h.partial < h.llen → leb h.llen (length h.partial) ≡ false
store_room c h b = ground arith

-- A byte other than a newline is appended to the line, unless it is a carriage return.
read_byte :
    (c : ℕ) (s : Bytes) (h : Handle) (w : World)
    → Plenty w
    → NotNewline c
    → (m : ℕ) × (read_bytes (c ∷ s) h w
        ≡ read_bytes s
            (record h { pipe = s; llen = m; partial = h.partial ++ without_cr (c ∷ []) })
            w)
unfolding read_bytes without_cr
read_byte c s h w p n =
    let (m, grown, room) = grow-Plenty (record h { pipe = s }) w p in
    (
      m,
      rw grown (
          rw (store_room c (record h { pipe = s; llen = m }) room, n)
            (elim (Bool-cases (c == b'\r')) [
              | inl r ↦ rw (r, append-nil h.partial)
              | inr r ↦ rw r
            ])),
    )

without_cr-cons : (c : ℕ) (a : Bytes) → without_cr (c ∷ []) ++ without_cr a ≡ without_cr (c ∷ a)
unfolding without_cr
without_cr-cons c a = elim (Bool-cases (c == b'\r')) [ inl r ↦ rw r | inr r ↦ rw r ]

read_bytes-pipe :
    (s t : Bytes) (h : Handle) (w : World)
    → read_bytes s h w ≡ read_bytes s (record h { pipe = t }) w
unfolding read_bytes
read_bytes-pipe [] t h w = refl
read_bytes-pipe (c ∷ s) t h w = refl

-- A part of a line is collected before the bytes behind it.
read_part :
    (a s : Bytes) (h : Handle) (w : World)
    → Plenty w
    → All NotNewline a
    → (m : ℕ) × (read_bytes (a ++ s) h w
        ≡ read_bytes s (record h { pipe = s; llen = m; partial = h.partial ++ without_cr a }) w)
unfolding without_cr
read_part [] s h w p n = (h.llen, rw (append-nil h.partial) (read_bytes-pipe s s h w))
read_part (c ∷ a) s h w p n =
    let (m, first) = read_byte c (a ++ s) h w p n.0 in
    let h₁ = record h { pipe = a ++ s; llen = m; partial = h.partial ++ without_cr (c ∷ []) } in
    let (m', rest) = read_part a s h₁ w p n.1 in
    (
      m',
      first
          ∙ rest
          ∙ ap (λ (t : Bytes). read_bytes s (record h { pipe = s; llen = m'; partial = t }) w)
              (append_assoc h.partial (without_cr (c ∷ [])) (without_cr a)
                ∙ ap (λ (t : Bytes). h.partial ++ t) (without_cr-cons c a)),
    )

read_newline :
    (s : Bytes) (h : Handle) (w : World)
    → Plenty w
    → (m : ℕ) × (read_bytes (b'\n' ∷ s) h w
        ≡ ret
            (
              count (length h.partial),
              record h { pipe = s; llen = m; line = c_string h.partial; partial = [] },
            )
            w)
unfolding read_bytes
read_newline s h w p =
    let (m, grown, room) = grow-Plenty (record h { pipe = s }) w p in
    (m, rw grown (rw (store_room b'\n' (record h { pipe = s; llen = m }) room)))

-- A call that meets the end of a line returns how long the line is, without its carriage returns,
-- and leaves the line in the buffer; what an earlier call collected of it stands in front. The bytes
-- behind the newline stay in the pipe.
pub mi_getline-line :
    (a rest : Bytes) (h : Handle) (w : World)
    → Plenty w
    → All NotNewline a
    → h.pipe ≡ a ++ b'\n' ∷ rest
    → (m : ℕ) × (mi_getline h w
        ≡ ret
            (
              count (length (h.partial ++ without_cr a)),
              record h {
                pipe = rest;
                llen = m;
                line = c_string (h.partial ++ without_cr a);
                partial = [];
              },
            )
            w)
unfolding mi_getline
mi_getline-line a rest h w p n e =
    let (m, part) = read_part a (b'\n' ∷ rest) h w p n in
    let h₁ = record h { pipe = b'\n' ∷ rest; llen = m; partial = h.partial ++ without_cr a } in
    let (m', line) = read_newline rest h₁ w p in
    (m', ap (λ (s : Bytes). read_bytes s h w) e ∙ part ∙ line)

-- A call that finds no newline collects what there is, and says that there is nothing yet.
pub mi_getline-part :
    (h : Handle) (w : World)
    → Plenty w
    → All NotNewline h.pipe
    → (m : ℕ) × (mi_getline h w
        ≡ ret
            (count 0, record h { pipe = []; llen = m; partial = h.partial ++ without_cr h.pipe })
            w)
unfolding mi_getline read_bytes
mi_getline-part h w p n =
    let (m, part) = read_part h.pipe [] h w p n in
    (m, ap (λ (s : Bytes). read_bytes s h w) (sym (append-nil h.pipe)) ∙ part)

without_cr-append : (a b : Bytes) → without_cr (a ++ b) ≡ without_cr a ++ without_cr b
unfolding without_cr
without_cr-append [] b = refl
without_cr-append (c ∷ a) b = elim (Bool-cases (c == b'\r')) [
  | inl r ↦ rw r (without_cr-append a b)
  | inr r ↦ rw r (ap (◌∷◌ c) (without_cr-append a b))
]

-- With memory to spare, a line that arrives in two pieces is the line that arrives at once: the first
-- call returns 0, which says that there is no line yet; the second, when the rest has come, returns
-- the length of the whole line without its carriage returns, leaves the line in the buffer and the
-- bytes behind the newline in the pipe.
pub mi_getline-pieces :
    (a b rest : Bytes) (h : Handle) (w : World)
    → Plenty w
    → All NotNewline a
    → All NotNewline b
    → (h₁ : Handle) × (m : ℕ) × (mi_getline (record h { pipe = a }) w ≡ ret (count 0, h₁) w)
      × (mi_getline (record h₁ { pipe = b ++ b'\n' ∷ rest }) w
          ≡ ret
              (
                count (length (h.partial ++ without_cr (a ++ b))),
                record h {
                  pipe = rest;
                  llen = m;
                  line = c_string (h.partial ++ without_cr (a ++ b));
                  partial = [];
                },
              )
              w)
mi_getline-pieces a b rest h w p na nb =
    let (n, part) = mi_getline-part (record h { pipe = a }) w p na in
    let h₁ = record h { pipe = []; llen = n; partial = h.partial ++ without_cr a } in
    let (m, line) = mi_getline-line b rest (record h₁ { pipe = b ++ b'\n' ∷ rest }) w p nb refl in
    (
      h₁,
      m,
      part,
      rw (without_cr-append a b, ← append_assoc h.partial (without_cr a) (without_cr b)) line,
    )
