-- ===== src/Parse/Print.antt =====
-- The part of gdb's grammar that the theorems about the parser cover, written as a printer. Strings
-- stand in quotes with `\n`, `\t`, `\"` and `\\` escaped and the other bytes as they are, tuples in
-- braces, lists in brackets, elements are separated by commas; a line has no token, and an async
-- record is `stopped` or `download`. gdb has more: other async classes, which the library refuses, and
-- other escapes, which it does not translate.
use libmigdb.Base.{
  ℕ, Bytes, codes, ◌==◌, if◌then◌else◌, true, Option, none, some, [], ◌∷◌, ◌++◌, ◌≡◌, All,
}
use libmigdb.Tree.{
  Value, Results, t_const, t_tuple, t_list, no_results, result, Output, mi_t_out_of_band,
  mi_t_result_record, mi_st_async, mi_st_stream, mi_sst_exec, mi_sst_status, mi_sst_notify,
  mi_sst_console, mi_sst_target, mi_sst_log, mi_cl_unknown, mi_cl_stopped, mi_cl_download,
  mi_cl_done, mi_cl_running, mi_cl_connected, mi_cl_error, mi_cl_exit,
}
use libmigdb.Parse.Values.{mi_is_var_name_char, starts_name}

unfoldable pub escape_byte : ℕ → Bytes
escape_byte c =
    if c == b'\n'
    then b'\\' ∷ b'n' ∷ []
    else if c == b'\t'
    then b'\\' ∷ b't' ∷ []
    else if c == b'"'
    then b'\\' ∷ b'"' ∷ []
    else if c == b'\\'
    then b'\\' ∷ b'\\' ∷ []
    else c ∷ []

unfoldable pub escape : Bytes → Bytes
unfolding escape_byte
escape [] = []
escape (c ∷ s) = escape_byte c ++ escape s

abbrev pub quote : Bytes → Bytes
quote s = b'"' ∷ (escape s ++ b'"' ∷ [])

-- `name=`, or nothing in front of a plain value.
abbrev pub label : Option Bytes → Bytes
label none = []
label (some name) = name ++ b'=' ∷ []

-- `print_seq` writes the elements and the closing byte; `print_more` puts a comma before each.
unfoldable mutual
  unfolding escape

  pub print_value : Value → Bytes
  print_value (t_const none) = []
  print_value (t_const (some s)) = quote s
  print_value (t_tuple rs) = b'{' ∷ print_seq b'}' rs
  print_value (t_list rs) = b'[' ∷ print_seq b']' rs

  pub print_seq : ℕ → Results → Bytes
  print_seq close no_results = close ∷ []
  print_seq close (result var v rs) = label var ++ (print_value v ++ print_more close rs)

  pub print_more : ℕ → Results → Bytes
  print_more close no_results = close ∷ []
  print_more close (result var v rs) = b',' ∷ (label var ++ (print_value v ++ print_more close rs))

abbrev pub IsNameByte : ℕ → Type 0
IsNameByte c = mi_is_var_name_char c ≡ true

-- A name that gdb may write: not empty, and only name bytes.
abbrev pub IsName : Bytes → Type 0
IsName s = All IsNameByte s × (starts_name s ≡ true)

abbrev pub IsNamed : Option Bytes → Type 0
IsNamed none = ⊥
IsNamed (some s) = IsName s

abbrev pub IsPlain : Option Bytes → Type 0
IsPlain none = Unit
IsPlain (some s) = ⊥

-- What this grammar generates: a string is not null, the elements of a tuple are results, and those
-- of a list are all results or all values.
unfoldable mutual
  pub IsPrintable : Value → Type 0
  IsPrintable (t_const none) = ⊥
  IsPrintable (t_const (some s)) = Unit
  IsPrintable (t_tuple rs) = AreResults rs
  IsPrintable (t_list rs) = AreElements rs

  pub AreElements : Results → Type 0
  AreElements no_results = Unit
  AreElements (result none v rs) = IsPrintable v × AreValues rs
  AreElements (result (some name) v rs) = IsName name × IsPrintable v × AreResults rs

  pub AreResults : Results → Type 0
  AreResults no_results = Unit
  AreResults (result var v rs) = IsNamed var × IsPrintable v × AreResults rs

  pub AreValues : Results → Type 0
  AreValues no_results = Unit
  AreValues (result var v rs) = IsPlain var × IsPrintable v × AreValues rs

-- The results behind a class name.
unfoldable pub print_results : Results → Bytes
unfolding print_value
print_results no_results = []
print_results (result var v rs) = b',' ∷ (label var ++ (print_value v ++ print_results rs))

pub data ResultClass : Type 0 where
  done running connected error exit : ResultClass

pub data AsyncClass : Type 0 where
  stopped download : AsyncClass

pub data AsyncKind : Type 0 where
  exec status notify : AsyncKind

pub data StreamKind : Type 0 where
  console target log : StreamKind

-- The records, one to a line.
pub data Line : Type 0 where
  result_record : ResultClass → Results → Line
  async_record : AsyncKind → AsyncClass → Results → Line
  stream_record : StreamKind → Bytes → Line

abbrev pub result_class_name : ResultClass → Bytes
result_class_name done = codes "done"
result_class_name running = codes "running"
result_class_name connected = codes "connected"
result_class_name error = codes "error"
result_class_name exit = codes "exit"

abbrev pub result_class_code : ResultClass → ℕ
result_class_code done = mi_cl_done
result_class_code running = mi_cl_running
result_class_code connected = mi_cl_connected
result_class_code error = mi_cl_error
result_class_code exit = mi_cl_exit

abbrev pub async_class_name : AsyncClass → Bytes
async_class_name stopped = codes "stopped"
async_class_name download = codes "download"

abbrev pub async_class_code : AsyncClass → ℕ
async_class_code stopped = mi_cl_stopped
async_class_code download = mi_cl_download

abbrev pub async_mark : AsyncKind → ℕ
async_mark exec = b'*'
async_mark status = b'+'
async_mark notify = b'='

abbrev pub async_code : AsyncKind → ℕ
async_code exec = mi_sst_exec
async_code status = mi_sst_status
async_code notify = mi_sst_notify

abbrev pub stream_mark : StreamKind → ℕ
stream_mark console = b'~'
stream_mark target = b'@'
stream_mark log = b'&'

abbrev pub stream_code : StreamKind → ℕ
stream_code console = mi_sst_console
stream_code target = mi_sst_target
stream_code log = mi_sst_log

unfoldable pub print_line : Line → Bytes
unfolding print_results
print_line (result_record cl rs) = b'^' ∷ (result_class_name cl ++ print_results rs)
print_line (async_record k cl rs) = async_mark k ∷ (async_class_name cl ++ print_results rs)
print_line (stream_record k s) = stream_mark k ∷ quote s

-- The `mi_output` that stands for a line.
unfoldable pub output_of : Line → Output
output_of (result_record cl rs) = record {
  type = mi_t_result_record;
  stype = 0;
  sstype = 0;
  tclass = result_class_code cl;
  c = rs;
}
output_of (async_record k cl rs) = record {
  type = mi_t_out_of_band;
  stype = mi_st_async;
  sstype = async_code k;
  tclass = async_class_code cl;
  c = rs;
}
output_of (stream_record k s) = record {
  type = mi_t_out_of_band;
  stype = mi_st_stream;
  sstype = stream_code k;
  tclass = mi_cl_unknown;
  c = result none (t_const (some s)) no_results;
}

-- The results of a line are results of this grammar.
abbrev pub IsPrintableLine : Line → Type 0
IsPrintableLine (result_record cl rs) = AreResults rs
IsPrintableLine (async_record k cl rs) = AreResults rs
IsPrintableLine (stream_record k s) = Unit
