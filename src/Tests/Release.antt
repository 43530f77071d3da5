-- ===== src/Tests/Release.antt =====
-- What is released, at concrete blocks.
use libmigdb.Base.{◌+◌, true, false, none, some, List, [], ◌∷◌, ◌≡◌, refl}
use libmigdb.Release.{
  const_block, tuple_blocks, ResultsBlocks, no_blocks, result_blocks, OutputBlocks,
  mi_free_output_but, GvarBlocks, no_gvars, gvar_blocks, mi_free_gvar,
}
use libmigdb.Release.Once.{
  count, spared_output, output_blocks, mi_free_output_but-once, gvar_all, mi_free_gvar-IsCounted,
}

-- A tuple with a string in it, behind a string.
abbrev results : ResultsBlocks
results = result_blocks 1 (some 2) (const_block (some 3)) (
    result_blocks 4 none (tuple_blocks (result_blocks 5 (some 6) (const_block none) no_blocks))
      no_blocks)

abbrev outputs : List OutputBlocks
outputs = record { block = 7; c = results } ∷ record { block = 8; c = no_blocks } ∷ []

mi_free_output_but-once_example :
    count 5 (mi_free_output_but outputs none (some 4))
      + count 5 (spared_output outputs none (some 4))
    ≡ count 5 (output_blocks outputs)
mi_free_output_but-once_example = mi_free_output_but-once 5 outputs none (some 4)

abbrev variable : GvarBlocks
variable =
    gvar_blocks 1 (some 2) (some 3) none none true
      (gvar_blocks 4 (some 5) none none none false no_gvars no_gvars) no_gvars

mi_free_gvar-IsCounted_example : mi_free_gvar variable ≡ gvar_all variable
mi_free_gvar-IsCounted_example = mi_free_gvar-IsCounted variable ((refl, tt), tt)
