-- ===== src/Extract/Memory/Bounds.antt =====
-- What is written to the buffer of `mi_get_read_memory`, and where it ends.
use libmigdb.Base
use libmigdb.Base.{
  ℕ, zero, suc, ◌+◌, ◌-◌, Bytes, codes, str_eq, length, leb, ◌==◌, if◌then◌else◌, Bool, true, false,
  Option, none, some, sub-suc, sub_one, sub_zero, not_zero, leb-zero, leb-suc-zero, leb-suc, List,
  [], ◌∷◌, ◌++◌, ◌≡◌, refl, ◌∙◌, ap, append_assoc, append-nil, arith,
}
use libmigdb.World.{World, Outcome, ret, fault, out_of_fuel, continue, pure}
use libmigdb.Tree.{Results, t_const, t_tuple, t_list, no_results, result}
use libmigdb.Extract.{Libc, walk, to_byte}
use libmigdb.Extract.Memory.{Memory, no_memory, put, data_step, data_bytes, memory_step, memory_row}

-- `["t1","t2",...]`, the data of a row.
abbrev pub data_list : List Bytes → Results
data_list [] = no_results
data_list (t ∷ ts) = result none (t_const (some t)) (data_list ts)

-- A row, with its address in front of its data.
abbrev pub memory_line : Bytes → List Bytes → Results
memory_line addr ts =
    result none
      (t_tuple (
        result (some (codes "addr")) (t_const (some addr))
          (result (some (codes "data")) (t_list (data_list ts)) no_results)))
      no_results

continue-pure : (o : Outcome Memory) → continue o (λ m. pure m) ≡ o
continue-pure (ret m w) = refl
continue-pure fault = refl
continue-pure out_of_fuel = refl

module _ (libc : Libc) where
  abbrev pub data_of : List Bytes → Bytes
  data_of [] = []
  data_of (t ∷ ts) = to_byte (libc.strtol t) ∷ data_of ts

  -- The bytes go behind those that are there already, while there is room for all of them.
  walk-data_list :
      (ts : List Bytes) (ok : ℕ) (na : Bool) (addr : Option ℕ) (bytes : Bytes) (room : ℕ)
      (w : World)
      → walk
          (data_step libc)
          (data_list ts)
          (record { ok = ok; na = na; addr = addr; bytes = bytes; room = room })
          w
        ≡ (if leb (length ts) room
            then ret
                (record {
                  ok = ok;
                  na = na;
                  addr = addr;
                  bytes = bytes ++ data_of ts;
                  room = room - length ts;
                })
                w
            else fault)
  unfolding walk data_step put
  walk-data_list [] ok na addr bytes room w =
      rw (leb-zero room, append-nil bytes, sub_zero room) refl
  walk-data_list (t ∷ ts) ok na addr bytes zero w = rw (leb-suc-zero (length ts)) refl
  walk-data_list (t ∷ ts) ok na addr bytes (suc room) w =
      rw
        (
          leb-suc (length ts) room,
          not_zero room,
          sub_one room,
          walk-data_list ts ok na addr (bytes ++ to_byte (libc.strtol t) ∷ []) room w,
          append_assoc bytes (to_byte (libc.strtol t) ∷ []) (data_of ts),
          sub-suc room (length ts),
        )
        refl

  -- A row with an address and data, of which the first text is not `N/A`, is read into exactly these
  -- bytes, without one more or less, when the buffer has room for them; otherwise the call writes
  -- behind the buffer.
  pub memory_row-memory_line :
      (size : ℕ) (addr t : Bytes) (ts : List Bytes) (w : World)
      → str_eq t (codes "N/A") ≡ false
      → memory_row libc size (memory_line addr (t ∷ ts)) w ≡ (
          if leb (length (t ∷ ts)) size
          then ret
              (record {
                ok = 2;
                na = false;
                addr = some (libc.strtoul addr);
                bytes = data_of (t ∷ ts);
                room = size - length (t ∷ ts);
              })
              w
          else fault)
  unfolding memory_row walk memory_step data_step data_bytes libmigdb.Base.str_eq
  memory_row-memory_line size addr t ts w n = rw n (
      continue-pure (
        walk (data_step libc) (data_list (t ∷ ts))
          (record (no_memory size) { ok = 2; addr = some (libc.strtoul addr) }) w)
      ∙ walk-data_list (t ∷ ts) 2 false (some (libc.strtoul addr)) [] size w)
