-- ===== src/Extract/Threads/Bounds.antt =====
-- What `mi_get_thread_ids` writes to its block, and where it ends.
use libmigdb.Base
use libmigdb.Base.{
  ℕ, zero, suc, ◌-◌, Bytes, codes, str_eq, length, leb, ◌==◌, if◌then◌else◌, Bool, true, false,
  some, sub_one, not_zero, leb-zero, leb-suc-zero, leb-suc, List, [], ◌∷◌, ◌≡◌, refl, arith,
}
use libmigdb.World.{World, ret, fault, continue, pure, Plenty, mi_calloc-Plenty}
use libmigdb.Tree.{Results, t_const, t_tuple, no_results, result, Output}
use libmigdb.Extract.{ℤ, pos, Libc}
use libmigdb.Extract.Threads.{
  thread_ids, ids_block, fill_ids, counted_ids, both_vars, mi_get_thread_ids,
}
use libmigdb.Query.{mi_get_var_r}

-- `{thread-id="t1",thread-id="t2",...}`.
abbrev pub ids_list : List Bytes → Results
ids_list [] = no_results
ids_list (t ∷ ts) = result (some (codes "thread-id")) (t_const (some t)) (ids_list ts)

-- The results of `-thread-list-ids`.
abbrev pub threads_line : List Bytes → Bytes → Results
threads_line ts number =
    result (some (codes "thread-ids")) (t_tuple (ids_list ts))
      (result (some (codes "number-of-threads")) (t_const (some number)) no_results)

module _ (libc : Libc) where
  abbrev pub ids_of : List Bytes → List ℤ
  ids_of [] = []
  ids_of (t ∷ ts) = libc.atoi t ∷ ids_of ts

  -- What follows a run that returns in one case only.
  if-continue :
      (b : Bool) (t : Bytes) (ts : List Bytes) (w : World)
      → continue (if b then ret (ids_of ts) w else fault) (λ is. pure (libc.atoi t ∷ is))
        ≡ (if b then ret (ids_of (t ∷ ts)) w else fault)
  if-continue true t ts w = refl
  if-continue false t ts w = refl

  if-continue-pair :
      (b : Bool) (n : ℕ) (ts : List Bytes) (w : World)
      → continue {B = ℤ × List ℤ}
          (if b then ret (ids_of ts) w else fault)
          (λ is. pure (pos (suc n), is))
        ≡ (if b then ret (pos (suc n), ids_of ts) w else fault)
  if-continue-pair true n ts w = refl
  if-continue-pair false n ts w = refl

  thread_ids-ids_list :
      (ts : List Bytes) (room : ℕ) (w : World)
      → thread_ids libc (ids_list ts) room w
        ≡ (if leb (length ts) room then ret (ids_of ts) w else fault)
  unfolding thread_ids libmigdb.Base.str_eq
  thread_ids-ids_list [] room w = rw (leb-zero room) refl
  thread_ids-ids_list (t ∷ ts) zero w = rw (leb-suc-zero (length ts)) refl
  thread_ids-ids_list (t ∷ ts) (suc room) w =
      rw (leb-suc (length ts) room, not_zero room, sub_one room, thread_ids-ids_list ts room w)
        (if-continue (leb (length ts) room) t ts w)

  -- With memory to spare, the ids of the threads are written, as gdb gives them, to a block for as many
  -- as `number-of-threads` says, when it says at least as many as there are; otherwise the call writes
  -- behind the block.
  pub mi_get_thread_ids-threads_line :
      (ts : List Bytes) (number : Bytes) (n : ℕ) (res : Output) (w : World)
      → res.c ≡ threads_line ts number
      → libc.atoi number ≡ pos (suc n)
      → Plenty w
      → mi_get_thread_ids libc res w
        ≡ (if leb (length ts) (suc n) then ret (pos (suc n), ids_of ts) w else fault)
  unfolding mi_get_thread_ids both_vars counted_ids ids_block fill_ids mi_get_var_r
      libmigdb.Base.str_eq
  mi_get_thread_ids-threads_line ts number n res w e a p =
      rw (e, a, not_zero n, mi_calloc-Plenty w p, thread_ids-ids_list ts (suc n) w)
        (if-continue-pair (leb (length ts) (suc n)) n ts w)
