-- ===== src/Extract/Assembly.antt =====
-- Disassembled code (src/parse.c).
use libmigdb.Base.{ℕ, Bytes, codes, str_eq, if◌then◌else◌, Bool, Option, none, some, List, [], ◌∷◌}
use libmigdb.World.{M, pure, crash, mi_calloc, ◌>>=◌}
use libmigdb.Tree.{Value, Results, t_const, t_tuple, t_list, no_results, result}
use libmigdb.Connect.Handle.{Handle}
use libmigdb.Connect.Wait.{Wait}
use libmigdb.Query.{mi_res_done_var}
use libmigdb.Extract.{ℤ, pos, Libc, walk, required, to_unsigned}

-- `struct mi_asm_insn_struct` and `struct mi_asm_insns_struct`; a chain of each is a list.
pub record AsmInsn : Type 0 where
  pub addr : ℕ
  pub func : Option Bytes
  pub offset : ℕ
  pub inst : Option Bytes

pub record AsmInsns : Type 0 where
  pub file : Option Bytes
  pub line : ℤ
  pub ins : List AsmInsn

abbrev pub mi_alloc_asm_insn : AsmInsn
mi_alloc_asm_insn = record { addr = 0; func = none; offset = 0; inst = none }

abbrev pub mi_alloc_asm_insns : AsmInsns
mi_alloc_asm_insns = record { file = none; line = pos 0; ins = [] }

-- After a refused block all that was read is released, and the result is null.
abbrev pub or_null : {A : Type 0} → Option (List A) → List A
or_null none = []
or_null (some xs) = xs

abbrev pub in_front : {A : Type 0} → A → Option (List A) → Option (List A)
in_front x none = none
in_front x (some xs) = some (x ∷ xs)

module _ (libc : Libc) where
  insn_const : Bytes → Option Bytes → AsmInsn → M AsmInsn
  insn_const name text i =
      if str_eq name (codes "address")
      then required text (λ s. pure (record i { addr = libc.strtoul s }))
      else if str_eq name (codes "func-name")
      then pure (record i { func = text })
      else if str_eq name (codes "offset")
      then required text (λ s. pure (record i { offset = to_unsigned (libc.atoi s) }))
      else if str_eq name (codes "inst")
      then pure (record i { inst = text })
      else pure i

  unfoldable pub insn_step : Option Bytes → Value → AsmInsn → M AsmInsn
  unfolding insn_const
  insn_step var (t_const text) i = required var (λ name. insn_const name text i)
  insn_step var _ i = pure i

  unfoldable pub insns_chain : Results → M (Option (List AsmInsn))
  unfolding walk insn_step
  insns_chain no_results = pure (some [])
  insns_chain (result var (t_tuple sub) c) =
      let rest = insns_chain c in
      (do
        given ← mi_calloc
        if given
            then (do i ← walk insn_step sub mi_alloc_asm_insn; is ← rest; pure (in_front i is))
            else pure none)
  insns_chain (result var _ c) = insns_chain c

  unfoldable pub mi_parse_insn : Results → M (List AsmInsn)
  unfolding insns_chain
  mi_parse_insn c = do is ← insns_chain c; pure (or_null is)

  set_ins : AsmInsns → List AsmInsn → AsmInsns
  set_ins s is = record s { ins = is }

  -- A node inside a source line; one without a name is passed over.
  unfoldable pub line_step : Option Bytes → Value → AsmInsns → M AsmInsns
  unfolding mi_parse_insn set_ins
  line_step (some name) (t_const text) s =
      if str_eq name (codes "line")
      then required text (λ t. pure (record s { line = libc.atoi t }))
      else if str_eq name (codes "file")
      then pure (record s { file = text })
      else pure s
  line_step (some name) (t_list rs) s =
      if str_eq name (codes "line_asm_insn")
      then (do is ← mi_parse_insn rs; pure (set_ins s is))
      else pure s
  line_step _ _ s = pure s

  -- What the loop returns: the chain goes on, it was given up, or it was replaced by one element for
  -- instructions without source lines, whose block is not tested.
  pub data Lines : Type 0 where
    chain : List AsmInsns → Lines
    refused : Lines
    replaced : AsmInsns → Lines

  line_in_front : AsmInsns → Lines → Lines
  line_in_front s (chain ss) = chain (s ∷ ss)
  line_in_front s refused = refused
  line_in_front s (replaced t) = replaced t

  unfoldable pub source_lines : Results → M Lines
  unfolding walk line_step mi_parse_insn line_in_front set_ins
  source_lines no_results = pure (chain [])
  source_lines (result none v c) = do
    given ← mi_calloc
    if given
        then (do
          is ← mi_parse_insn (result none v c)
          pure (replaced (set_ins mi_alloc_asm_insns is)))
        else crash
  source_lines (result (some name) (t_tuple sub) c) =
      let rest = source_lines c in
      if str_eq name (codes "src_and_asm_line")
      then (do
        given ← mi_calloc
        if given
            then (do
              s ← walk line_step sub mi_alloc_asm_insns
              ss ← rest
              pure (line_in_front s ss))
            else pure refused)
      else rest
  source_lines (result (some name) _ c) = source_lines c

  lines_of : Lines → List AsmInsns
  lines_of (chain ss) = ss
  lines_of refused = []
  lines_of (replaced s) = s ∷ []

  unfoldable pub mi_parse_insns : Results → M (List AsmInsns)
  unfolding source_lines lines_of
  mi_parse_insns c = do ss ← source_lines c; pure (lines_of ss)

  list_insns : Option Value → M (List AsmInsns)
  unfolding mi_parse_insns
  list_insns (some (t_list rs)) = mi_parse_insns rs
  list_insns _ = pure []

  unfoldable pub mi_get_asm_insns : Bool → List Wait → Handle → M (List AsmInsns × Handle)
  unfolding mi_res_done_var list_insns
  mi_get_asm_insns running waits h = do
    r ← mi_res_done_var running waits h (codes "asm_insns")
    f ← list_insns r.0
    pure (f, r.1)
