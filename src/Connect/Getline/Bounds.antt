-- ===== src/Connect/Getline/Bounds.antt =====
-- The line buffer is never written outside its bounds.
use libmigdb.Base.{
  ℕ, ◌+◌, ◌<◌, ◌≤◌, Bytes, length, length-append, leb, ◌==◌, if◌then◌else◌, Bool, true, false,
  Bool-cases, Option, none, some, [], ◌∷◌, inl, inr, ◌≡◌, arith,
}
use libmigdb.World.{World, M}
use libmigdb.World.Ensures.{Returns, returned, Returns-continue, sys_alloc-Returns}
use libmigdb.Connect.Handle.{Handle}
use libmigdb.Connect.Getline.{grow, store, Got, after_store, after_grow, read_bytes, mi_getline}

-- What has been collected of a line fits in the buffer.
pub record IsBuffered (h : Handle) : Type 0 where
  pub fits : length h.partial ≤ h.llen

abbrev Grown : Bool × Handle → Type 0
Grown (true, h) = length h.partial < h.llen
Grown (false, h) = IsBuffered h

grown :
    (h : Handle) (given : Bool)
    → Grown (
      given,
      (if given
          then record h { llen = length h.partial + 128 }
          else record h { llen = 0; partial = []; line = [] }),
    )
grown h true = omega arith
grown h false = record { fits = omega arith }

grow-Returns : (h : Handle) (w : World) → Returns Grown (grow h w)
unfolding grow
grow-Returns h w = elim (Bool-cases (leb h.llen (length h.partial))) [
  | inl e ↦ rw e (Returns-continue (sys_alloc-Returns w) λ given w₁ _. returned (grown h given))
  | inr e ↦ rw e (returned (ground arith))
]

abbrev Stored : Option ℕ × Handle → Type 0
Stored (n, h) = IsBuffered h

store-Returns :
    (c : ℕ) (h : Handle) (w : World) → length h.partial < h.llen → Returns Stored (store c h w)
unfolding store
store-Returns c h w b =
    let room : leb h.llen (length h.partial) ≡ false = ground arith in
    rw room (elim (Bool-cases (c == b'\n')) [
      | inl e ↦ rw e (returned (record { fits = omega arith }))
      | inr e ↦ rw e (elim (Bool-cases (c == b'\r')) [
        | inl r ↦ rw r (returned (record { fits = omega arith }))
        | inr r ↦
            rw r (returned (record { fits = omega (arith, length-append h.partial (c ∷ [])) }))
      ])
    ])

abbrev Kept : Got × Handle → Type 0
Kept (g, h) = IsBuffered h

after_store-Returns :
    (loop : Handle → M (Got × Handle)) (r : Option ℕ × Handle) (w : World)
    → ((h : Handle) (w' : World) → IsBuffered h → Returns Kept (loop h w'))
    → Stored r
    → Returns Kept (after_store loop r w)
unfolding after_store
after_store-Returns loop (none, h) w k b = k h w b
after_store-Returns loop (some n, h) w k b = returned b

after_grow-Returns :
    (loop : Handle → M (Got × Handle)) (c : ℕ) (r : Bool × Handle) (w : World)
    → ((h : Handle) (w' : World) → IsBuffered h → Returns Kept (loop h w'))
    → Grown r
    → Returns Kept (after_grow loop c r w)
unfolding after_grow
after_grow-Returns loop c (false, h) w k b = returned b
after_grow-Returns loop c (true, h) w k b =
    Returns-continue (store-Returns c h w b) λ r w₁ s. after_store-Returns loop r w₁ k s

read_bytes-Returns :
    (s : Bytes) (h : Handle) (w : World) → IsBuffered h → Returns Kept (read_bytes s h w)
unfolding read_bytes
read_bytes-Returns [] h w b = returned (record { fits = b.fits })
read_bytes-Returns (c ∷ s) h w b =
    Returns-continue (grow-Returns (record h { pipe = s }) w) λ r w₁ g.
      after_grow-Returns (read_bytes s) c r w₁ (λ h' w₂ b'. read_bytes-Returns s h' w₂ b') g

-- Whatever gdb sends and whatever the allocator answers, from a handle whose partial line fits its
-- buffer `mi_getline` writes only inside the buffer, and leaves a handle of which that is true again.
pub mi_getline-IsBuffered :
    (h : Handle) (w : World) → IsBuffered h → Returns (λ r. IsBuffered r.1) (mi_getline h w)
unfolding mi_getline
mi_getline-IsBuffered h w b = read_bytes-Returns h.pipe h w b
