-- ===== src/World.antt =====
-- The globals that the parser reads and writes, and the effects of C code on them (src/mi_gdb.h,
-- src/connect.c, src/alloc.c).
--
-- A C function is a function from the `World` before the call to an `Outcome`: the value returned
-- with the world after it, or `fault` for undefined behaviour (a read outside a string or through a
-- null pointer), or `out_of_fuel`, which has no counterpart in the program. A null result is `none`.
--
-- `malloc` and `calloc` are outside the program: `refusals` says of each coming allocation whether
-- it is refused, and all that come after the end of that list are granted. Any run makes finitely
-- many allocations, so each behaviour of the allocator is one such list.
pub mod Ensures
pub mod After
use libmigdb.Base.{ℕ, Bytes, Bool, true, false, Option, none, List, [], ◌∷◌, ◌≡◌, arith}

-- The values of `mi_error`.
abbrev pub mi_ok : ℕ
mi_ok = 0

abbrev pub mi_out_of_memory : ℕ
mi_out_of_memory = 1

abbrev pub mi_parser : ℕ
mi_parser = 5

abbrev pub mi_unknown_async : ℕ
mi_unknown_async = 6

abbrev pub mi_unknown_result : ℕ
mi_unknown_result = 7

abbrev pub mi_from_gdb : ℕ
mi_from_gdb = 8

abbrev pub mi_gdb_time_out : ℕ
mi_gdb_time_out = 9

abbrev pub mi_gdb_died : ℕ
mi_gdb_died = 10

abbrev pub mi_last_error : ℕ
mi_last_error = 13

-- `mi_error`, `mi_error_from_gdb`, and the allocator.
pub record World : Type 0 where
  pub error : ℕ
  pub error_from_gdb : Option Bytes
  pub refusals : List Bool

pub data Outcome {ℓ} (A : Type ℓ) : Type ℓ where
  ret : A → World → Outcome A
  fault : Outcome A
  out_of_fuel : Outcome A

abbrev pub M {ℓ} : Type ℓ → Type ℓ
M A = World → Outcome A

abbrev pub pure {ℓ} : {A : Type ℓ} → A → M A
pure a w = ret a w

abbrev pub crash {ℓ} : {A : Type ℓ} → M A
crash w = fault

abbrev pub continue {ℓ κ} : {A : Type ℓ} {B : Type κ} → Outcome A → (A → M B) → Outcome B
continue (ret a w) f = f a w
continue fault f = fault
continue out_of_fuel f = out_of_fuel

infixl 5 ◌>>=◌ ◌>>◌
abbrev pub ◌>>=◌ {ℓ κ} : {A : Type ℓ} {B : Type κ} → M A → (A → M B) → M B
◌>>=◌ m f w = continue (m w) f

abbrev pub ◌>>◌ {ℓ} : {B : Type ℓ} → M (Unit {0}) → M B → M B
m >> k = m >>= λ _. k

-- `mi_error = e;`
abbrev pub set_error : ℕ → M (Unit {0})
set_error e w = ret tt (record w { error = e })

-- `mi_error = e; return NULL;`
abbrev pub fail {ℓ} : {A : Type ℓ} → ℕ → M (Option A)
fail e w = ret none (record w { error = e })

answer : List Bool → World → Outcome Bool
answer [] w = ret true w
answer (false ∷ rs) w = ret true (record w { refusals = rs })
answer (true ∷ rs) w = ret false (record w { error = mi_out_of_memory; refusals = rs })

-- `mi_malloc`, `mi_calloc`, `mi_calloc1` and the `mi_alloc_*` functions: whether the block was given.
unfoldable pub mi_calloc : M Bool
unfolding answer
mi_calloc w = answer w.refusals w

silent_answer : List Bool → World → Outcome Bool
silent_answer [] w = ret true w
silent_answer (false ∷ rs) w = ret true (record w { refusals = rs })
silent_answer (true ∷ rs) w = ret false (record w { refusals = rs })

-- `realloc` and `strdup`, called directly: a refusal does not set `mi_error`.
unfoldable pub sys_alloc : M Bool
unfolding silent_answer
sys_alloc w = silent_answer w.refusals w

-- No allocation is refused from here on.
abbrev pub Plenty : World → Type 0
Plenty w = w.refusals ≡ []

pub mi_calloc-Plenty : (w : World) → Plenty w → mi_calloc w ≡ ret true w
unfolding mi_calloc
mi_calloc-Plenty w h = ground arith

pub sys_alloc-Plenty : (w : World) → Plenty w → sys_alloc w ≡ ret true w
unfolding sys_alloc
sys_alloc-Plenty w h = ground arith
