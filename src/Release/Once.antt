-- ===== src/Release/Once.antt =====
-- Each block is released once: what a function of src/alloc.c releases, with what is spared, is every
-- block of the structure, each as often as it is there.
use libmigdb.Base.{
  ℕ, suc, ◌+◌, ◌==◌, Bool, true, false, if◌then◌else◌, Option, List, [], ◌∷◌, ◌++◌, ◌≡◌, refl,
  arith,
}
use libmigdb.Release.{
  free, is_block, ValueBlocks, const_block, tuple_blocks, list_blocks, ResultsBlocks, no_blocks,
  result_blocks, free_value_but, mi_free_results_but, OutputBlocks, mi_free_output_but, GvarBlocks,
  no_gvars, gvar_blocks, mi_free_gvar,
}

-- How often a block is in a list.
abbrev pub count : ℕ → List ℕ → ℕ
count b [] = 0
count b (c ∷ cs) = let rest = count b cs in if c == b then suc rest else rest

pub count-append : (b : ℕ) (xs ys : List ℕ) → count b (xs ++ ys) ≡ count b xs + count b ys
count-append b [] ys = omega arith
count-append b (x ∷ xs) ys = ground (arith, count-append b xs ys)

-- Every block of a chain.
unfoldable mutual
  unfolding free

  pub value_blocks : ValueBlocks → List ℕ
  value_blocks (const_block cstr) = free cstr
  value_blocks (tuple_blocks rs) = blocks rs
  value_blocks (list_blocks rs) = blocks rs

  pub blocks : ResultsBlocks → List ℕ
  blocks no_blocks = []
  blocks (result_blocks r var v next) = r ∷ (free var ++ (value_blocks v ++ blocks next))

-- The nodes that are spared, with what is below them.
unfoldable mutual
  unfolding free is_block

  pub spared_value : ValueBlocks → Option ℕ → List ℕ
  spared_value (const_block cstr) but = []
  spared_value (tuple_blocks rs) but = spared rs but
  spared_value (list_blocks rs) but = spared rs but

  pub spared : ResultsBlocks → Option ℕ → List ℕ
  spared no_blocks but = []
  spared (result_blocks r var v next) but =
      let rest = spared next but in
      let inside = spared_value v but in
      if is_block but r then r ∷ (free var ++ (value_blocks v ++ rest)) else inside ++ rest

count-cons : (b c : ℕ) (cs : List ℕ) → count b (c ∷ cs) ≡ count b (c ∷ []) + count b cs
count-cons b c cs = ground arith

-- Three parts and a block in front of the rest, as a sum.
count-node :
    (b : ℕ) (xs ys : List ℕ) (r : ℕ) (zs : List ℕ)
    → count b (xs ++ (ys ++ r ∷ zs)) ≡ count b xs + (count b ys + (count b (r ∷ []) + count b zs))
count-node b xs ys r zs =
    omega (arith, count-append b xs (ys ++ r ∷ zs), count-append b ys (r ∷ zs), count-cons b r zs)

count-front :
    (b : ℕ) (xs ys : List ℕ) (r : ℕ) (zs : List ℕ)
    → count b (r ∷ (xs ++ (ys ++ zs))) ≡ count b xs + (count b ys + (count b (r ∷ []) + count b zs))
count-front b xs ys r zs =
    omega
      (arith, count-cons b r (xs ++ (ys ++ zs)), count-append b xs (ys ++ zs), count-append b ys zs)

-- How the counts of a node follow from those of its parts.
node-once :
    (here : Bool) (b : ℕ) (var inside inside' blocks_v rest rest' blocks_n : List ℕ) (r : ℕ)
    → count b inside + count b inside' ≡ count b blocks_v
    → count b rest + count b rest' ≡ count b blocks_n
    → count b (if here then rest else var ++ (inside ++ r ∷ rest))
        + count b (if here then r ∷ (var ++ (blocks_v ++ rest')) else inside' ++ rest')
      ≡ count b (r ∷ (var ++ (blocks_v ++ blocks_n)))
node-once true b var inside inside' blocks_v rest rest' blocks_n r p q =
    omega (arith, p, q, count-front b var blocks_v r rest', count-front b var blocks_v r blocks_n)
node-once false b var inside inside' blocks_v rest rest' blocks_n r p q = omega (
  arith,
  p,
  q,
  count-node b var inside r rest,
  count-append b inside' rest',
  count-front b var blocks_v r blocks_n,
)

mutual
  unfolding free_value_but mi_free_results_but spared_value spared value_blocks blocks

  value-once :
      (b : ℕ) (v : ValueBlocks) (but : Option ℕ)
      → count b (free_value_but v but) + count b (spared_value v but) ≡ count b (value_blocks v)
  value-once b (const_block cstr) but = omega arith
  value-once b (tuple_blocks rs) but = results-once b rs but
  value-once b (list_blocks rs) but = results-once b rs but

  results-once :
      (b : ℕ) (rs : ResultsBlocks) (but : Option ℕ)
      → count b (mi_free_results_but rs but) + count b (spared rs but) ≡ count b (blocks rs)
  results-once b no_blocks but = refl
  results-once b (result_blocks r var v next) but =
      node-once (is_block but r) b (free var) _ _ _ _ _ _ r (value-once b v but)
        (results-once b next but)

-- The records that are spared, whole, and what the others spare.
unfoldable pub spared_output : List OutputBlocks → Option ℕ → Option ℕ → List ℕ
unfolding blocks spared is_block
spared_output [] but but_r = []
spared_output (o ∷ os) but but_r =
    let rest = spared_output os but but_r in
    if is_block but o.block then o.block ∷ (blocks o.c ++ rest) else spared o.c but_r ++ rest

unfoldable pub output_blocks : List OutputBlocks → List ℕ
unfolding blocks
output_blocks [] = []
output_blocks (o ∷ os) = o.block ∷ (blocks o.c ++ output_blocks os)

count-middle :
    (b : ℕ) (xs : List ℕ) (r : ℕ) (zs : List ℕ)
    → count b (xs ++ r ∷ zs) ≡ count b xs + (count b (r ∷ []) + count b zs)
count-middle b xs r zs = omega (arith, count-append b xs (r ∷ zs), count-cons b r zs)

count-head :
    (b r : ℕ) (xs zs : List ℕ)
    → count b (r ∷ (xs ++ zs)) ≡ count b xs + (count b (r ∷ []) + count b zs)
count-head b r xs zs = omega (arith, count-cons b r (xs ++ zs), count-append b xs zs)

output-once :
    (here : Bool) (b r : ℕ) (freed kept all rest rest' os : List ℕ)
    → count b freed + count b kept ≡ count b all
    → count b rest + count b rest' ≡ count b os
    → count b (if here then rest else freed ++ r ∷ rest)
        + count b (if here then r ∷ (all ++ rest') else kept ++ rest')
      ≡ count b (r ∷ (all ++ os))
output-once true b r freed kept all rest rest' os p q =
    omega (arith, p, q, count-head b r all rest', count-head b r all os)
output-once false b r freed kept all rest rest' os p q =
    omega
      (arith, p, q, count-middle b freed r rest, count-append b kept rest', count-head b r all os)

-- The blocks that `mi_free_output_but` releases and those that it spares, a record with all its
-- results and nodes with what is below them, are all the blocks of the chain: each block is there as
-- often as it is released or spared, so a block of the chain that stands in one place is released
-- once or not at all.
pub mi_free_output_but-once :
    (b : ℕ) (os : List OutputBlocks) (but but_r : Option ℕ)
    → count b (mi_free_output_but os but but_r) + count b (spared_output os but but_r)
      ≡ count b (output_blocks os)
unfolding mi_free_output_but spared_output output_blocks
mi_free_output_but-once b [] but but_r = refl
mi_free_output_but-once b (o ∷ os) but but_r =
    output-once (is_block but o.block) b o.block _ _ _ _ _ _ (results-once b o.c but_r)
      (mi_free_output_but-once b os but but_r)

unfoldable pub gvar_all : GvarBlocks → List ℕ
unfolding free
gvar_all no_gvars = []
gvar_all (gvar_blocks v name type exp value numchild child next) =
    free name ++ (free type ++ (free exp ++ (free value ++ (gvar_all child ++ v ∷ gvar_all next))))

-- Every variable whose `numchild` is 0 has no children.
abbrev pub IsCounted : GvarBlocks → Type 0
IsCounted no_gvars = Unit {0}
IsCounted (gvar_blocks v name type exp value true child next) = IsCounted child × IsCounted next
IsCounted (gvar_blocks v name type exp value false child next) = (child ≡ no_gvars) × IsCounted next

-- When every variable whose `numchild` is 0 has no children, `mi_free_gvar` releases exactly the
-- blocks of the chain and of all children, each once.
pub mi_free_gvar-IsCounted : (vs : GvarBlocks) → IsCounted vs → mi_free_gvar vs ≡ gvar_all vs
unfolding mi_free_gvar gvar_all
mi_free_gvar-IsCounted no_gvars c = refl
mi_free_gvar-IsCounted (gvar_blocks v name type exp value true child next) c =
    rw (mi_free_gvar-IsCounted child c.0, mi_free_gvar-IsCounted next c.1) refl
mi_free_gvar-IsCounted (gvar_blocks v name type exp value false child next) c =
    rw (c.0, mi_free_gvar-IsCounted next c.1) refl
