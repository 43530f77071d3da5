-- ===== src/Command/Data.antt =====
-- Data manipulation (src/data_man.c).
use libmigdb.Base.{
  ℕ, leb, Bytes, codes, if◌then◌else◌, Bool, Option, none, some, List, [], ◌∷◌, ◌++◌,
}
use libmigdb.World.{M, set_error, mi_ok, ◌>>=◌, ◌>>◌}
use libmigdb.Enums.{GvarFmt, mi_format_enum_to_char}
use libmigdb.Connect.Handle.{Handle}
use libmigdb.Connect.Callbacks.{mi_version2u}
use libmigdb.Connect.Wait.{Wait}
use libmigdb.Query.{mi_res_simple_done, mi_res_value}
use libmigdb.Extract.{ℤ, pos, Libc}
use libmigdb.Command.{mi_send, send_line, command}
use libmigdb.Extract.Memory.{Memory, mi_get_read_memory}
use libmigdb.Extract.Assembly.{AsmInsns, mi_get_asm_insns}
use libmigdb.Extract.Registers.{
  ChgReg, mi_get_list_registers, mi_get_list_registers_l, mi_get_list_changed_regs,
  mi_get_reg_values, mi_get_reg_values_l,
}

unfoldable pub mi_data_evaluate_expression : Handle → Bytes → M Handle
unfolding send_line
mi_data_evaluate_expression h expression =
    send_line h (codes "-data-evaluate-expression \"" ∷ expression ∷ codes "\"\n" ∷ [])

unfoldable pub mi_dir : Handle → Option Bytes → M Handle
unfolding send_line
mi_dir h path =
    if leb (mi_version2u 2 0 0) h.version
    then elim path [
      | some s ↦ send_line h (codes "-environment-directory \"" ∷ s ∷ codes "\"\n" ∷ [])
      | none ↦ send_line h (codes "-environment-directory -r\n" ∷ [])
    ]
    else elim path [
      | some s ↦ send_line h (codes "-environment-directory " ∷ s ∷ codes "\n" ∷ [])
      | none ↦ send_line h (codes "-environment-directory \n" ∷ [])
    ]

unfoldable pub mi_data_list_register_names : Handle → M Handle
unfolding send_line
mi_data_list_register_names h = send_line h (codes "-data-list-register-names\n" ∷ [])

unfoldable pub mi_data_list_changed_registers : Handle → M Handle
unfolding send_line
mi_data_list_changed_registers h = send_line h (codes "-data-list-changed-registers\n" ∷ [])

unfoldable pub gmi_data_evaluate_expression :
    Bool → List Wait → Handle → Bytes → M (Option Bytes × Handle)
unfolding command mi_data_evaluate_expression mi_res_value
gmi_data_evaluate_expression running waits h expression =
    command (mi_data_evaluate_expression h expression) (mi_res_value running waits)

unfoldable pub gmi_dir : Bool → List Wait → Handle → Option Bytes → M (Bool × Handle)
unfolding command mi_dir mi_res_simple_done
gmi_dir running waits h path = command (mi_dir h path) (mi_res_simple_done running waits)

unfoldable pub gmi_data_list_register_names :
    Bool → List Wait → Handle → M ((List ChgReg × Option ℕ) × Handle)
unfolding command mi_data_list_register_names mi_get_list_registers
gmi_data_list_register_names running waits h =
    command (mi_data_list_register_names h) (mi_get_list_registers running waits)

module _ (libc : Libc) where
  -- `ws` and `c` are `unsigned`, and are printed by `%d`.
  unfoldable pub mi_data_read_memory_hx : Handle → Bytes → ℕ → ℕ → Bool → M Handle
  unfolding send_line
  mi_data_read_memory_hx h exp ws c conv_addr = send_line h (
      (if conv_addr then codes "-data-read-memory \"&" else codes "-data-read-memory \"")
      ∷ exp
      ∷ codes "\" x "
      ∷ libc.print_int (pos ws)
      ∷ codes " 1 "
      ∷ libc.print_int (pos c)
      ∷ codes "\n"
      ∷ [])

  unfoldable pub mi_data_disassemble_se : Handle → Bytes → Bytes → ℤ → M Handle
  unfolding send_line
  mi_data_disassemble_se h start end mode = send_line h (
      codes "-data-disassemble -s \""
      ∷ start
      ∷ codes "\" -e \""
      ∷ end
      ∷ codes "\" -- "
      ∷ libc.print_int mode
      ∷ codes "\n"
      ∷ [])

  unfoldable pub mi_data_disassemble_fl : Handle → Bytes → ℤ → ℤ → ℤ → M Handle
  unfolding send_line
  mi_data_disassemble_fl h file line lines mode = send_line h (
      codes "-data-disassemble -f \""
      ∷ file
      ∷ codes "\" -l "
      ∷ libc.print_int line
      ∷ codes " -n "
      ∷ libc.print_int lines
      ∷ codes " -- "
      ∷ libc.print_int mode
      ∷ codes "\n"
      ∷ [])

  -- The number of each register in a write of its own.
  send_regs : Handle → List ChgReg → M Handle
  unfolding mi_send
  send_regs h [] = mi_send h (codes "\n")
  send_regs h (l ∷ ls) = do h' ← mi_send h (libc.print_int l.reg ++ codes " "); send_regs h' ls

  unfoldable pub mi_data_list_register_names_l : Handle → List ChgReg → M Handle
  unfolding send_regs
  mi_data_list_register_names_l h l = do
    h' ← mi_send h (codes "-data-list-register-names ")
    send_regs h' l

  unfoldable pub mi_data_list_register_values : Handle → GvarFmt → List ChgReg → M Handle
  unfolding send_regs
  mi_data_list_register_values h fmt l = do
    h' ← mi_send h (codes "-data-list-register-values " ++ mi_format_enum_to_char fmt ∷ codes " ")
    send_regs h' l

  -- `room` is how many bytes `dest` can hold.
  unfoldable pub gmi_read_memory :
      Bool → List Wait → Handle → Bytes → ℕ → ℕ → Bool → M ((Bool × Memory) × Handle)
  unfolding command mi_data_read_memory_hx mi_get_read_memory
  gmi_read_memory running waits h exp size room conv_addr =
      command (mi_data_read_memory_hx h exp 1 size conv_addr)
        (λ h'. mi_get_read_memory libc running waits h' room 1)

  unfoldable pub gmi_data_disassemble_se :
      Bool → List Wait → Handle → Bytes → Bytes → ℤ → M (List AsmInsns × Handle)
  unfolding command mi_data_disassemble_se mi_get_asm_insns
  gmi_data_disassemble_se running waits h start end mode =
      command (mi_data_disassemble_se h start end mode) (mi_get_asm_insns libc running waits)

  unfoldable pub gmi_data_disassemble_fl :
      Bool → List Wait → Handle → Bytes → ℤ → ℤ → ℤ → M (List AsmInsns × Handle)
  unfolding command mi_data_disassemble_fl mi_get_asm_insns
  gmi_data_disassemble_fl running waits h file line lines mode =
      command (mi_data_disassemble_fl h file line lines mode) (mi_get_asm_insns libc running waits)

  unfoldable pub gmi_data_list_register_names_l :
      Bool → List Wait → Handle → List ChgReg → M ((Bool × List ChgReg) × Handle)
  unfolding command mi_data_list_register_names_l mi_get_list_registers_l
  gmi_data_list_register_names_l running waits h l =
      command (mi_data_list_register_names_l h l) (λ h'. mi_get_list_registers_l running waits h' l)

  -- `mi_error=MI_OK;` comes first.
  unfoldable pub gmi_data_list_changed_registers :
      Bool → List Wait → Handle → M (List ChgReg × Handle)
  unfolding command mi_data_list_changed_registers mi_get_list_changed_regs
  gmi_data_list_changed_registers running waits h = do
    set_error mi_ok
    command (mi_data_list_changed_registers h) (mi_get_list_changed_regs libc running waits)

  unfoldable pub gmi_data_list_register_values :
      Bool → List Wait → Handle → GvarFmt → List ChgReg → M ((Bool × List ChgReg) × Handle)
  unfolding command mi_data_list_register_values mi_get_reg_values
  gmi_data_list_register_values running waits h fmt l =
      command (mi_data_list_register_values h fmt l)
        (λ h'. mi_get_reg_values libc running waits h' l)

  unfoldable pub gmi_data_list_all_register_values :
      Bool → List Wait → Handle → GvarFmt → M ((List ChgReg × Option ℕ) × Handle)
  unfolding command mi_data_list_register_values mi_get_reg_values_l
  gmi_data_list_all_register_values running waits h fmt =
      command (mi_data_list_register_values h fmt []) (mi_get_reg_values_l libc running waits)
