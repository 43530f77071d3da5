-- ===== src/Enums.antt =====
-- The enumerations that gdb names in its records (src/mi_gdb.h), and their names (src/parse.c,
-- src/error.c). Strings that the library only hands to the user are bytes as well.
pub mod Names
use libmigdb.Base.{
  ℕ, zero, suc, Bytes, codes, str_eq, ltb, ◌==◌, Bool, true, if◌then◌else◌, Option, none, some,
  List, [], ◌∷◌,
}
use libmigdb.World.{mi_last_error}
use libmigdb.Extract.{ℤ, pos, negsuc}

pub data GvarLang : Type 0 where
  lg_unknown lg_c lg_cpp lg_java : GvarLang

unfoldable pub mi_lang_str_to_enum : Bytes → GvarLang
mi_lang_str_to_enum lang =
    if str_eq lang (codes "C")
    then lg_c
    else if str_eq lang (codes "C++")
    then lg_cpp
    else if str_eq lang (codes "Java")
    then lg_java
    else lg_unknown

unfoldable pub mi_lang_enum_to_str : GvarLang → Bytes
mi_lang_enum_to_str lg_c = codes "C"
mi_lang_enum_to_str lg_cpp = codes "C++"
mi_lang_enum_to_str lg_java = codes "Java"
mi_lang_enum_to_str lg_unknown = codes "unknown"

pub data GvarFmt : Type 0 where
  fm_natural fm_binary fm_decimal fm_hexadecimal fm_octal fm_raw : GvarFmt

unfoldable pub mi_format_str_to_enum : Bytes → GvarFmt
mi_format_str_to_enum format =
    if str_eq format (codes "binary")
    then fm_binary
    else if str_eq format (codes "decimal")
    then fm_decimal
    else if str_eq format (codes "hexadecimal")
    then fm_hexadecimal
    else if str_eq format (codes "octal")
    then fm_octal
    else fm_natural

unfoldable pub mi_format_enum_to_str : GvarFmt → Bytes
mi_format_enum_to_str fm_natural = codes "natural"
mi_format_enum_to_str fm_binary = codes "binary"
mi_format_enum_to_str fm_decimal = codes "decimal"
mi_format_enum_to_str fm_hexadecimal = codes "hexadecimal"
mi_format_enum_to_str fm_octal = codes "octal"
mi_format_enum_to_str fm_raw = codes "raw"

unfoldable pub mi_format_enum_to_char : GvarFmt → ℕ
mi_format_enum_to_char fm_natural = b'N'
mi_format_enum_to_char fm_binary = b't'
mi_format_enum_to_char fm_decimal = b'd'
mi_format_enum_to_char fm_hexadecimal = b'x'
mi_format_enum_to_char fm_octal = b'o'
mi_format_enum_to_char fm_raw = b'r'

pub data StopReason : Type 0 where
  sr_unknown sr_bkpt_hit sr_wp_trigger sr_read_wp_trigger sr_access_wp_trigger sr_wp_scope :
      StopReason
  sr_function_finished sr_location_reached sr_end_stepping_range : StopReason
  sr_exited_signalled sr_exited sr_exited_normally sr_signal_received : StopReason

-- The values of the enumeration.
unfoldable pub reason_number : StopReason → ℕ
reason_number sr_unknown = 0
reason_number sr_bkpt_hit = 1
reason_number sr_wp_trigger = 2
reason_number sr_read_wp_trigger = 3
reason_number sr_access_wp_trigger = 4
reason_number sr_wp_scope = 5
reason_number sr_function_finished = 6
reason_number sr_location_reached = 7
reason_number sr_end_stepping_range = 8
reason_number sr_exited_signalled = 9
reason_number sr_exited = 10
reason_number sr_exited_normally = 11
reason_number sr_signal_received = 12

-- `reason_names[i]` with `reason_values[i]`.
unfoldable pub reason_names : List (Bytes × StopReason)
reason_names =
    (codes "breakpoint-hit", sr_bkpt_hit)
    ∷ (codes "watchpoint-trigger", sr_wp_trigger)
    ∷ (codes "read-watchpoint-trigger", sr_read_wp_trigger)
    ∷ (codes "access-watchpoint-trigger", sr_access_wp_trigger)
    ∷ (codes "watchpoint-scope", sr_wp_scope)
    ∷ (codes "function-finished", sr_function_finished)
    ∷ (codes "location-reached", sr_location_reached)
    ∷ (codes "end-stepping-range", sr_end_stepping_range)
    ∷ (codes "exited-signalled", sr_exited_signalled)
    ∷ (codes "exited", sr_exited)
    ∷ (codes "exited-normally", sr_exited_normally)
    ∷ (codes "signal-received", sr_signal_received)
    ∷ []

-- The loop over the table.
unfoldable pub find_reason : Bytes → List (Bytes × StopReason) → StopReason
find_reason s [] = sr_unknown
find_reason s (entry ∷ table) =
    let rest = find_reason s table in if str_eq entry.0 s then entry.1 else rest

unfoldable pub mi_reason_str_to_enum : Bytes → StopReason
unfolding find_reason reason_names
mi_reason_str_to_enum s = find_reason s reason_names

unfoldable pub same_reason : StopReason → StopReason → Bool
unfolding reason_number
same_reason r s = reason_number r == reason_number s

-- `reason_values[i]` with `reason_expl[i]`.
unfoldable pub reason_expl : List (StopReason × Bytes)
reason_expl =
    (sr_bkpt_hit, codes "Hit a breakpoint")
    ∷ (sr_wp_trigger, codes "Write watchpoint")
    ∷ (sr_read_wp_trigger, codes "Read watchpoint")
    ∷ (sr_access_wp_trigger, codes "Access watchpoint")
    ∷ (sr_wp_scope, codes "Watchpoint out of scope")
    ∷ (sr_function_finished, codes "Function finished")
    ∷ (sr_location_reached, codes "Location reached")
    ∷ (sr_end_stepping_range, codes "End of stepping")
    ∷ (sr_exited_signalled, codes "Exited signalled")
    ∷ (sr_exited, codes "Exited with error")
    ∷ (sr_exited_normally, codes "Exited normally")
    ∷ (sr_signal_received, codes "Signal received")
    ∷ []

unfoldable pub find_expl : StopReason → List (StopReason × Bytes) → Option Bytes
unfolding same_reason
find_expl r [] = none
find_expl r (entry ∷ table) =
    let rest = find_expl r table in if same_reason entry.0 r then some entry.1 else rest

unfoldable pub mi_reason_enum_to_str : StopReason → Option Bytes
unfolding find_expl reason_expl same_reason
mi_reason_enum_to_str r =
    if same_reason r sr_unknown then some (codes "Unknown (temp bkp?)") else find_expl r reason_expl

unfoldable pub error_strs : List Bytes
error_strs =
    codes "Ok"
    ∷ codes "Out of memory"
    ∷ codes "Pipe creation"
    ∷ codes "Fork failed"
    ∷ codes "GDB not running"
    ∷ codes "Parser failed"
    ∷ codes "Unknown asyn response"
    ∷ codes "Unknown result response"
    ∷ codes "Error from gdb"
    ∷ codes "Time out in gdb response"
    ∷ codes "GDB suddenly died"
    ∷ codes "Can't execute X terminal"
    ∷ codes "Failed to create temporal"
    ∷ codes "Can't execute the debugger"
    ∷ []

-- `table[i]`; `none` is a read outside the table.
unfoldable pub get_elem? {ℓ} : {A : Type ℓ} → List A → ℕ → Option A
get_elem? [] n = none
get_elem? (x ∷ xs) zero = some x
get_elem? (x ∷ xs) (suc n) = get_elem? xs n

-- `mi_error<0 || mi_error>MI_LAST_ERROR`.
unfoldable pub is_no_error : ℤ → Bool
is_no_error (negsuc n) = true
is_no_error (pos n) = ltb mi_last_error n

-- `table[i]` for an `int`.
unfoldable pub at_int {ℓ} : {A : Type ℓ} → List A → ℤ → Option A
unfolding get_elem?
at_int table (pos n) = get_elem? table n
at_int table (negsuc n) = none

-- The argument is the global `mi_error`, which the application can set to any `int`.
unfoldable pub mi_get_error_str : ℤ → Option Bytes
unfolding is_no_error error_strs at_int
mi_get_error_str mi_error =
    if is_no_error mi_error then some (codes "Unknown") else at_int error_strs mi_error
