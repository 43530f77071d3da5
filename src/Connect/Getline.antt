-- ===== src/Connect/Getline.antt =====
-- `mi_getline` (src/connect.c): a line of gdb's output, collected over as many calls as it takes.
pub mod Bounds
pub mod Lines
use libmigdb.Base.{
  ℕ, suc, ◌+◌, Bytes, length, ltb, leb, ◌==◌, if◌then◌else◌, Bool, true, false, Option, none, some,
  [], ◌∷◌, ◌++◌,
}
use libmigdb.World.{M, pure, crash, sys_alloc, ◌>>=◌}
use libmigdb.Connect.Handle.{Handle}

-- The string that starts at the buffer: a NUL that gdb sent ends it.
unfoldable pub c_string : Bytes → Bytes
c_string [] = []
c_string (c ∷ s) = let rest = c ∷ c_string s in if c == 0 then [] else rest

-- `if (h->lread>=h->llen) ... realloc`: the new size, and whether the block was given.
grow : Handle → M (Bool × Handle)
grow h =
    if leb h.llen (length h.partial)
    then (do
      given ← sys_alloc
      pure (
        given,
        (if given
            then record h { llen = length h.partial + 128 }
            else record h { llen = 0; partial = []; line = [] }),
      ))
    else pure (true, h)

-- A byte that was read; `none` goes on with the loop. A write at `lread` outside the buffer faults.
store : ℕ → Handle → M (Option ℕ × Handle)
unfolding c_string
store c h =
    if leb h.llen (length h.partial)
    then crash
    else if c == b'\n'
    then pure (some (length h.partial), record h { line = c_string h.partial; partial = [] })
    else if c == b'\r'
    then pure (none, h)
    else pure (none, record h { partial = h.partial ++ c ∷ [] })

-- What the call returns: `negative` for -1.
pub data Got : Type 0 where
  count : ℕ → Got
  negative : Got

after_store : (Handle → M (Got × Handle)) → Option ℕ × Handle → M (Got × Handle)
after_store loop (none, h) = loop h
after_store loop (some n, h) = pure (count n, h)

after_grow : (Handle → M (Got × Handle)) → ℕ → Bool × Handle → M (Got × Handle)
unfolding after_store store
after_grow loop c (false, h) = pure (negative, h)
after_grow loop c (true, h) = do r ← store c h; after_store loop r

-- The loop over the bytes that can be read; 0 when there are none left.
read_bytes : Bytes → Handle → M (Got × Handle)
unfolding after_grow grow
read_bytes [] h = pure (count 0, record h { pipe = [] })
read_bytes (c ∷ s) h = do r ← grow (record h { pipe = s }); after_grow (read_bytes s) c r

unfoldable pub mi_getline : Handle → M (Got × Handle)
unfolding read_bytes
mi_getline h = read_bytes h.pipe h
