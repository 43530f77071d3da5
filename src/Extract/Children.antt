-- ===== src/Extract/Children.antt =====
-- The children of a variable object (src/parse.c).
use libmigdb.Base.{
  ℕ, zero, suc, Bytes, codes, str_eq, ◌==◌, if◌then◌else◌, Bool, true, false, ◌&&◌, Option, none,
  some, List, [], ◌∷◌, ◌++◌,
}
use libmigdb.World.{M, pure, crash, mi_calloc, ◌>>=◌}
use libmigdb.Tree.{Value, Results, t_const, t_tuple, t_list, no_results, result, Output, mi_cl_done}
use libmigdb.Connect.Handle.{Handle}
use libmigdb.Connect.Wait.{Wait}
use libmigdb.Query.{mi_get_rrecord, mi_get_var_r, with_response}
use libmigdb.Extract.{ℤ, pos, Libc, walk, required, eq_int, below, add_one}
use libmigdb.Extract.Variables.{Gvar, mi_alloc_gvar, ends_star}

-- A variable with the chain of its children, empty for a null `child`.
pub record Family : Type 0 where
  pub var : Gvar
  pub child : List Gvar

module _ (libc : Libc) where
  child_const : Bytes → Option Bytes → Gvar → M Gvar
  unfolding ends_star
  child_const name text v =
      if str_eq name (codes "name")
      then pure (record v { name = text })
      else if str_eq name (codes "exp")
      then pure (record v { exp = text })
      else if str_eq name (codes "type")
      then required text (λ s.
        pure (record v { type = some s; ispointer = if ends_star s then true else v.ispointer }))
      else if str_eq name (codes "value")
      then pure (record v { value = text })
      else if str_eq name (codes "numchild")
      then required text (λ s. pure (record v { numchild = libc.atoi s }))
      else pure v

  unfoldable pub child_step : Option Bytes → Value → Gvar → M Gvar
  unfolding child_const
  child_step var (t_const text) v = required var (λ name. child_const name text v)
  child_step var _ v = pure v

  -- `cur->next=aux` faults for a null `cur`, when the variable had children before the call.
  link_child : ℕ → Family → Gvar → M Family
  link_child zero f kid = elim f.child [
    | [] ↦ pure (record f { child = kid ∷ [] })
    | c ∷ cs ↦ crash
  ]
  link_child (suc i) f kid = pure (record f { child = f.child ++ kid ∷ [] })

  abbrev pub new_child : Family → Gvar
  new_child f = record mi_alloc_gvar { depth = add_one f.var.depth }

  -- The next child, or `none` after a refused block.
  next_child : Results → ℕ → Family → M (Option Family)
  unfolding walk child_step link_child
  next_child r i f = do
    given ← mi_calloc
    if given
        then (do kid ← walk child_step r (new_child f); f' ← link_child i f kid; pure (some f'))
        else pure none

  -- The loop over the nodes, up to `count` children: how many there are, or `none` after a refused
  -- block, and the family so far.
  unfoldable pub children : ℤ → Results → ℕ → Family → M (Option ℕ × Family)
  unfolding next_child
  children count no_results i f = pure (some i, f)
  children count (result var (t_tuple r) ch) i f =
      let passed = children count ch i f in
      let linked = children count ch (suc i) in
      required var (λ name.
        if str_eq name (codes "child") && below i count
        then (do n ← next_child r i f; elim n [ none ↦ pure (none, f) | some f' ↦ linked f' ])
        else passed)
  children count (result var _ ch) i f =
      let passed = children count ch i f in required var (λ name. passed)

  counted_children : Option ℕ × Family → Bool × Family
  counted_children (none, f) = (false, f)
  counted_children (some i, f) = (
    eq_int (pos i) f.var.numchild,
    record f { var = record f.var { vischild = pos i; opened = true } },
  )

  unfoldable pub mi_get_children : Results → Family → M (Bool × Family)
  unfolding children counted_children
  mi_get_children ch f = do r ← children f.var.numchild ch 0 f; pure (counted_children r)

  children_value : Option Value → Family → M (Bool × Family)
  unfolding mi_get_children
  children_value (some (t_tuple ch)) f = mi_get_children ch f
  children_value (some (t_list ch)) f = mi_get_children ch f
  children_value _ f = pure (false, f)

  -- The children of before are released.
  number_known : Output → Bytes → Family → M (Bool × Family)
  unfolding mi_get_var_r children_value
  number_known res text f =
      let n = libc.atoi text in
      let f' : Family = record { var = record f.var { numchild = n }; child = [] } in
      if eq_int n (pos 0)
      then pure (true, f')
      else (do ch ← mi_get_var_r res.c (codes "children"); children_value ch f')

  number_value : Output → Option Value → Family → M (Bool × Family)
  unfolding number_known
  number_value res (some (t_const text)) f = required text (λ s. number_known res s f)
  number_value res _ f = pure (false, f)

  record_children : Family → Option Output → M (Bool × Family)
  unfolding mi_get_var_r number_value
  record_children f none = pure (false, f)
  record_children f (some res) =
      if res.tclass == mi_cl_done
      then (do num ← mi_get_var_r res.c (codes "numchild"); number_value res num f)
      else pure (false, f)

  unfoldable pub mi_res_children : Bool → List Wait → Handle → Family → M ((Bool × Family) × Handle)
  unfolding with_response mi_get_rrecord record_children
  mi_res_children running waits h f =
      with_response running waits h (λ r. record_children f (mi_get_rrecord r))
