-- ===== src/Extract/Registers.antt =====
-- Registers (src/parse.c): their names, the ones that changed, and their values.
use libmigdb.Base.{
  ℕ, suc, Bytes, codes, str_eq, length, if◌then◌else◌, Bool, true, false, ◌&&◌, not, Option, none,
  some, List, [], ◌∷◌,
}
use libmigdb.World.{M, pure, crash, mi_calloc, set_error, mi_parser, ◌>>=◌, ◌>>◌}
use libmigdb.Tree.{Value, Results, t_const, t_tuple, t_list, no_results, result}
use libmigdb.Connect.Handle.{Handle}
use libmigdb.Connect.Wait.{Wait}
use libmigdb.Query.{mi_res_done_var}
use libmigdb.Extract.{ℤ, pos, Libc, required, eq_int}

-- `struct mi_chg_reg_struct`; a chain of them is a list.
pub record ChgReg : Type 0 where
  pub reg : ℤ
  pub val : Option Bytes
  pub name : Option Bytes
  pub updated : Bool

abbrev pub mi_alloc_chg_reg : ChgReg
mi_alloc_chg_reg = record { reg = pos 0; val = none; name = none; updated = false }

-- A refused block is written through at once. `n` is `cregs`.
unfoldable pub list_regs : ℕ → Results → M (List ChgReg)
list_regs n no_results = pure []
list_regs n (result none (t_const text) rs) =
    let rest = list_regs (suc n) rs in
    (do
      given ← mi_calloc
      ls ← (if given then rest else crash)
      pure (record mi_alloc_chg_reg { name = text; reg = pos n } ∷ ls))
list_regs n (result _ _ rs) = list_regs n rs

-- The list, and `*how_many`.
unfoldable pub mi_parse_list_regs : Results → M (List ChgReg × ℕ)
unfolding list_regs
mi_parse_list_regs r = do ls ← list_regs 0 r; pure (ls, length ls)

listed_regs : Option Value → M (List ChgReg × Option ℕ)
unfolding mi_parse_list_regs
listed_regs (some (t_list rs)) = do r ← mi_parse_list_regs rs; pure (r.0, some r.1)
listed_regs _ = pure ([], none)

-- `*how_many` is written only if there is a list.
unfoldable pub mi_get_list_registers :
    Bool → List Wait → Handle → M ((List ChgReg × Option ℕ) × Handle)
unfolding mi_res_done_var listed_regs
mi_get_list_registers running waits h = do
  r ← mi_res_done_var running waits h (codes "register-names")
  l ← listed_regs r.0
  pure (l, r.1)

-- The names of registers that are known: a node that is no string is passed over on its side only.
unfoldable pub mi_parse_list_regs_l : Results → List ChgReg → Bool × List ChgReg
mi_parse_list_regs_l no_results [] = (true, [])
mi_parse_list_regs_l no_results (l ∷ ls) = (false, l ∷ ls)
mi_parse_list_regs_l (result var v rs) [] = (false, [])
mi_parse_list_regs_l (result none (t_const text) rs) (l ∷ ls) =
    let (ok, rest) = mi_parse_list_regs_l rs ls in (ok, record l { name = text } ∷ rest)
mi_parse_list_regs_l (result _ _ rs) (l ∷ ls) = mi_parse_list_regs_l rs (l ∷ ls)

named_regs : Option Value → List ChgReg → Bool × List ChgReg
unfolding mi_parse_list_regs_l
named_regs (some (t_list rs)) l = mi_parse_list_regs_l rs l
named_regs _ l = (false, l)

unfoldable pub mi_get_list_registers_l :
    Bool → List Wait → Handle → List ChgReg → M ((Bool × List ChgReg) × Handle)
unfolding mi_res_done_var named_regs
mi_get_list_registers_l running waits h l = do
  r ← mi_res_done_var running waits h (codes "register-names")
  pure (named_regs r.0 l, r.1)

module _ (libc : Libc) where
  unfoldable pub mi_parse_list_changed_regs : Results → M (List ChgReg)
  mi_parse_list_changed_regs no_results = pure []
  mi_parse_list_changed_regs (result none (t_const text) rs) =
      let rest = mi_parse_list_changed_regs rs in
      (do
        given ← mi_calloc
        l ←
            (if given
              then required text (λ s. pure (record mi_alloc_chg_reg { reg = libc.atoi s }))
              else crash)
        ls ← rest
        pure (l ∷ ls))
  mi_parse_list_changed_regs (result _ _ rs) = mi_parse_list_changed_regs rs

  changed_regs : Option Value → M (List ChgReg)
  unfolding mi_parse_list_changed_regs
  changed_regs (some (t_list rs)) = mi_parse_list_changed_regs rs
  changed_regs _ = pure []

  unfoldable pub mi_get_list_changed_regs : Bool → List Wait → Handle → M (List ChgReg × Handle)
  unfolding mi_res_done_var changed_regs
  mi_get_list_changed_regs running waits h = do
    r ← mi_res_done_var running waits h (codes "changed-registers")
    l ← changed_regs r.0
    pure (l, r.1)

  -- The entries of one register. `false` is the end of the call, with `MI_PARSER`.
  unfoldable pub reg_value : Results → ChgReg → M (Bool × ChgReg)
  reg_value no_results l = pure (true, l)
  reg_value (result (some name) (t_const text) rs) l =
      let rest = reg_value rs l in
      let rest_valued = reg_value rs (record l { val = text }) in
      if str_eq name (codes "number")
      then required text (λ s.
        if eq_int (libc.atoi s) l.reg then rest else (set_error mi_parser >> pure (false, l)))
      else if str_eq name (codes "value")
      then rest_valued
      else rest
  reg_value (result _ _ rs) l = reg_value rs l

  -- Both chains advance at each step.
  unfoldable pub mi_parse_reg_values : Results → List ChgReg → M (Bool × List ChgReg)
  unfolding reg_value
  mi_parse_reg_values no_results [] = pure (true, [])
  mi_parse_reg_values no_results (l ∷ ls) = pure (false, l ∷ ls)
  mi_parse_reg_values (result var v rs) [] = pure (false, [])
  mi_parse_reg_values (result none (t_tuple c) rs) (l ∷ ls) =
      let rest = mi_parse_reg_values rs ls in
      (do r ← reg_value c l; q ← (if r.0 then rest else pure (false, ls)); pure (q.0, r.1 ∷ q.1))
  mi_parse_reg_values (result _ _ rs) (l ∷ ls) = do
    q ← mi_parse_reg_values rs ls
    pure (q.0, l ∷ q.1)

  valued_regs : Option Value → List ChgReg → M (Bool × List ChgReg)
  unfolding mi_parse_reg_values
  valued_regs (some (t_list rs)) l = mi_parse_reg_values rs l
  valued_regs _ l = pure (false, l)

  unfoldable pub mi_get_reg_values :
      Bool → List Wait → Handle → List ChgReg → M ((Bool × List ChgReg) × Handle)
  unfolding mi_res_done_var valued_regs
  mi_get_reg_values running waits h l = do
    r ← mi_res_done_var running waits h (codes "register-values")
    q ← valued_regs r.0 l
    pure (q, r.1)

  -- The entries of a new register, `none` after a refused block; and how many numbers there are.
  unfoldable pub new_reg : Results → Option ChgReg → ℕ → M (Option ChgReg × ℕ)
  new_reg no_results cur n = pure (cur, n)
  new_reg (result (some name) (t_const text) rs) cur n =
      let rest = new_reg rs cur n in
      let rest_numbered : ChgReg → M (Option ChgReg × ℕ) = λ l. new_reg rs (some l) (suc n) in
      let rest_valued : ChgReg → M (Option ChgReg × ℕ) = λ l. new_reg rs (some l) n in
      if str_eq name (codes "number")
      then required text
          (λ s. elim cur [ none ↦ crash | some l ↦ rest_numbered (record l { reg = libc.atoi s }) ])
      else if str_eq name (codes "value")
      then (elim cur [ none ↦ crash | some l ↦ rest_valued (record l { val = text }) ])
      else rest
  new_reg (result _ _ rs) cur n = new_reg rs cur n

  -- `first` says that `first` is not null, `cur` that `cur` is not.
  unfoldable pub new_regs : Bool → Bool → Results → ℕ → M (List ChgReg × ℕ)
  unfolding new_reg
  new_regs first cur no_results n = pure ([], n)
  new_regs first cur (result none (t_tuple c) rs) n =
      let after_given = new_regs true true rs in
      let after_refused = new_regs first false rs in
      if first && not cur then crash else (do
        given ← mi_calloc
        r ← new_reg c (if given then some mi_alloc_chg_reg else none) n
        elim r.0 [
          | none ↦ after_refused r.1
          | some l ↦ (do q ← after_given r.1; pure (l ∷ q.0, q.1))
        ])
  new_regs first cur (result _ _ rs) n = new_regs first cur rs n

  unfoldable pub mi_parse_reg_values_l : Results → M (List ChgReg × ℕ)
  unfolding new_regs
  mi_parse_reg_values_l r = new_regs false false r 0

  all_valued : Option Value → M (List ChgReg × Option ℕ)
  unfolding mi_parse_reg_values_l
  all_valued (some (t_list rs)) = do r ← mi_parse_reg_values_l rs; pure (r.0, some r.1)
  all_valued _ = pure ([], none)

  unfoldable pub mi_get_reg_values_l :
      Bool → List Wait → Handle → M ((List ChgReg × Option ℕ) × Handle)
  unfolding mi_res_done_var all_valued
  mi_get_reg_values_l running waits h = do
    r ← mi_res_done_var running waits h (codes "register-values")
    l ← all_valued r.0
    pure (l, r.1)
