-- ===== src/Release.antt =====
-- The functions that release memory (src/alloc.c): the structures as blocks of memory, and which
-- blocks each function hands to `free`, in the order of the calls.
--
-- A block is its address, a number. A pointer that may be null is an `Option`, and so is the address
-- of what is spared.
pub mod Once
use libmigdb.Base.{
  ℕ, ◌==◌, Bool, true, false, if◌then◌else◌, Option, none, some, List, [], ◌∷◌, ◌++◌,
}

-- `free(p)`; a null pointer is nothing to release.
unfoldable pub free : Option ℕ → List ℕ
free none = []
free (some b) = b ∷ []

-- `r==no`.
unfoldable pub is_block : Option ℕ → ℕ → Bool
is_block none b = false
is_block (some n) b = b == n

-- A chain of `mi_results`, with the block of each node and those of its name and text.
mutual
  pub data ValueBlocks : Type 0 where
    const_block : Option ℕ → ValueBlocks
    tuple_blocks : ResultsBlocks → ValueBlocks
    list_blocks : ResultsBlocks → ValueBlocks

  pub data ResultsBlocks : Type 0 where
    no_blocks : ResultsBlocks
    result_blocks : ℕ → Option ℕ → ValueBlocks → ResultsBlocks → ResultsBlocks

unfoldable mutual
  unfolding free is_block

  pub free_value_but : ValueBlocks → Option ℕ → List ℕ
  free_value_but (const_block cstr) but = free cstr
  free_value_but (tuple_blocks rs) but = mi_free_results_but rs but
  free_value_but (list_blocks rs) but = mi_free_results_but rs but

  -- The node that is spared keeps what is below it; only its `next` is cut.
  pub mi_free_results_but : ResultsBlocks → Option ℕ → List ℕ
  mi_free_results_but no_blocks but = []
  mi_free_results_but (result_blocks r var v next) but =
      let rest = mi_free_results_but next but in
      let inside = free_value_but v but in
      if is_block but r then rest else free var ++ (inside ++ r ∷ rest)

unfoldable pub mi_free_results : ResultsBlocks → List ℕ
unfolding mi_free_results_but
mi_free_results r = mi_free_results_but r none

-- A record of the chain of `mi_output`.
pub record OutputBlocks : Type 0 where
  pub block : ℕ
  pub c : ResultsBlocks

unfoldable pub mi_free_output_but : List OutputBlocks → Option ℕ → Option ℕ → List ℕ
unfolding mi_free_results_but is_block
mi_free_output_but [] but but_r = []
mi_free_output_but (o ∷ os) but but_r =
    let rest = mi_free_output_but os but but_r in
    if is_block but o.block then rest else mi_free_results_but o.c but_r ++ o.block ∷ rest

unfoldable pub mi_free_output : List OutputBlocks → List ℕ
unfolding mi_free_output_but
mi_free_output r = mi_free_output_but r none none

-- A chain of `mi_gvar`: the block, name, type, exp and value, whether `numchild` is not 0, the
-- children and the next variable.
pub data GvarBlocks : Type 0 where
  no_gvars : GvarBlocks
  gvar_blocks :
      ℕ → Option ℕ → Option ℕ → Option ℕ → Option ℕ → Bool → GvarBlocks → GvarBlocks → GvarBlocks

unfoldable pub mi_free_gvar : GvarBlocks → List ℕ
unfolding free
mi_free_gvar no_gvars = []
mi_free_gvar (gvar_blocks v name type exp value numchild child next) =
    let children = mi_free_gvar child in
    let rest = mi_free_gvar next in
    free name
    ++ (free type
        ++ (free exp ++ (free value ++ ((if numchild then children else []) ++ v ∷ rest))))

-- The chains without a tree: frames, breakpoints, changes, watchpoints, instructions and registers.
pub record FrameBlocks : Type 0 where
  pub block : ℕ
  pub func : Option ℕ
  pub file : Option ℕ
  pub from : Option ℕ
  pub args : ResultsBlocks

unfoldable pub mi_free_frames : List FrameBlocks → List ℕ
unfolding free mi_free_results
mi_free_frames [] = []
mi_free_frames (f ∷ fs) =
    free f.func
    ++ (free f.file ++ (free f.from ++ (mi_free_results f.args ++ f.block ∷ mi_free_frames fs)))

pub record BkptBlocks : Type 0 where
  pub block : ℕ
  pub func : Option ℕ
  pub file : Option ℕ
  pub file_abs : Option ℕ
  pub cond : Option ℕ

unfoldable pub mi_free_bkpt : List BkptBlocks → List ℕ
unfolding free
mi_free_bkpt [] = []
mi_free_bkpt (b ∷ bs) =
    free b.func ++ (free b.file ++ (free b.file_abs ++ (free b.cond ++ b.block ∷ mi_free_bkpt bs)))

-- Two strings and the block, for `mi_gvar_chg`, `mi_asm_insn` and `mi_chg_reg`.
pub record PairBlocks : Type 0 where
  pub block : ℕ
  pub first : Option ℕ
  pub second : Option ℕ

unfoldable pub free_pairs : List PairBlocks → List ℕ
unfolding free
free_pairs [] = []
free_pairs (p ∷ ps) = free p.first ++ (free p.second ++ p.block ∷ free_pairs ps)

-- `name` and `new_type`.
unfoldable pub mi_free_gvar_chg : List PairBlocks → List ℕ
unfolding free_pairs
mi_free_gvar_chg p = free_pairs p

-- `func` and `inst`.
unfoldable pub mi_free_asm_insn : List PairBlocks → List ℕ
unfolding free_pairs
mi_free_asm_insn i = free_pairs i

-- `val` and `name`.
unfoldable pub mi_free_chg_reg : List PairBlocks → List ℕ
unfolding free_pairs
mi_free_chg_reg r = free_pairs r

pub record AsmInsnsBlocks : Type 0 where
  pub block : ℕ
  pub file : Option ℕ
  pub ins : List PairBlocks

unfoldable pub mi_free_asm_insns : List AsmInsnsBlocks → List ℕ
unfolding free mi_free_asm_insn
mi_free_asm_insns [] = []
mi_free_asm_insns (i ∷ is) =
    free i.file ++ (mi_free_asm_insn i.ins ++ i.block ∷ mi_free_asm_insns is)

pub record WpBlocks : Type 0 where
  pub block : ℕ
  pub exp : Option ℕ

unfoldable pub mi_free_wp : List WpBlocks → List ℕ
unfolding free
mi_free_wp [] = []
mi_free_wp (w ∷ ws) = free w.exp ++ w.block ∷ mi_free_wp ws

pub record StopBlocks : Type 0 where
  pub block : ℕ
  pub frame : List FrameBlocks
  pub wp : List WpBlocks
  pub wp_old : Option ℕ
  pub wp_val : Option ℕ
  pub gdb_result_var : Option ℕ
  pub return_value : Option ℕ
  pub signal_name : Option ℕ
  pub signal_meaning : Option ℕ

unfoldable pub mi_free_stop : Option StopBlocks → List ℕ
unfolding free mi_free_frames mi_free_wp
mi_free_stop none = []
mi_free_stop (some s) =
    mi_free_frames s.frame
    ++ (mi_free_wp s.wp
        ++ (free s.wp_old
            ++ (free s.wp_val
                ++ (free s.gdb_result_var
                    ++ (free s.return_value
                        ++ (free s.signal_name ++ (free s.signal_meaning ++ s.block ∷ [])))))))
