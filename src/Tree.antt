-- ===== src/Tree.antt =====
-- The parsed form of gdb's output (src/mi_gdb.h): `mi_results` and `mi_output`.
use libmigdb.Base.{ℕ, Bytes, Option, ◌≡◌, refl, ap}

-- `Results` is a chain of `mi_results` nodes, a null pointer for `no_results`: each node has its
-- `var` (null for a plain value), its `type` with the member of the union that the type selects, and
-- `next`. The string of a `t_const` is null once it has been moved into another structure.
mutual
  pub data Value : Type 0 where
    t_const : Option Bytes → Value
    t_tuple : Results → Value
    t_list : Results → Value

  pub data Results : Type 0 where
    no_results : Results
    result : Option Bytes → Value → Results → Results

-- `last->next = rs` at the end of a chain, a null `rs` included.
unfoldable pub append : Results → Results → Results
append no_results ys = ys
append (result var v xs) ys = result var v (append xs ys)

-- Types and subtypes of an `mi_output`.
abbrev pub mi_t_out_of_band : ℕ
mi_t_out_of_band = 0

abbrev pub mi_t_result_record : ℕ
mi_t_result_record = 1

abbrev pub mi_st_async : ℕ
mi_st_async = 0

abbrev pub mi_st_stream : ℕ
mi_st_stream = 1

abbrev pub mi_sst_exec : ℕ
mi_sst_exec = 0

abbrev pub mi_sst_status : ℕ
mi_sst_status = 1

abbrev pub mi_sst_notify : ℕ
mi_sst_notify = 2

abbrev pub mi_sst_console : ℕ
mi_sst_console = 3

abbrev pub mi_sst_target : ℕ
mi_sst_target = 4

abbrev pub mi_sst_log : ℕ
mi_sst_log = 5

abbrev pub mi_cl_unknown : ℕ
mi_cl_unknown = 0

abbrev pub mi_cl_stopped : ℕ
mi_cl_stopped = 1

abbrev pub mi_cl_download : ℕ
mi_cl_download = 2

abbrev pub mi_cl_done : ℕ
mi_cl_done = 2

abbrev pub mi_cl_running : ℕ
mi_cl_running = 3

abbrev pub mi_cl_connected : ℕ
mi_cl_connected = 4

abbrev pub mi_cl_error : ℕ
mi_cl_error = 5

abbrev pub mi_cl_exit : ℕ
mi_cl_exit = 6

-- One record of gdb's output; the chain by `next` is a list of these.
pub record Output : Type 0 where
  pub type : ℕ
  pub stype : ℕ
  pub sstype : ℕ
  pub tclass : ℕ
  pub c : Results

-- What `calloc` leaves in a new `mi_output`.
abbrev pub mi_alloc_output : Output
mi_alloc_output = record { type = 0; stype = 0; sstype = 0; tclass = 0; c = no_results }

-- A chain grown by one node at its end.
pub append_result :
    (xs : Results) (var : Option Bytes) (v : Value) (ys : Results)
    → append (append xs (result var v no_results)) ys ≡ append xs (result var v ys)
unfolding append
append_result no_results var v ys = refl
append_result (result a u xs) var v ys = ap (result a u) (append_result xs var v ys)

pub append-no_results : (xs : Results) → append xs no_results ≡ xs
unfolding append
append-no_results no_results = refl
append-no_results (result a u xs) = ap (result a u) (append-no_results xs)
