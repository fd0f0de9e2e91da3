-- ===== src/Mysql/Cursor.antt =====
-- src/mysqlapi.cpp: class mysql_cursor. A method is a function from the cursor and the calls at the
-- client library so far. The arrays mydefine and mybind are made and deleted together, and are one list
-- of columns here. Allocation never fails.
pub mod Statement
pub mod Define
pub mod Parms
pub mod Message
pub mod Tidy
pub mod Kept
pub mod Messages
mod Tests
use dbsqlapi.Prelude.{
  ℕ, suc, ◌+◌, ◌-◌, ◌%◌, ◌^◌, Bool, true, false, ◌||◌, not, Option, none, some, List, [], ◌∷◌, ◌++◌,
  CStr, codes, ℤ, pos, negsuc, ◌==◌, leb, ltb, if◌then◌else◌, length, get_elem?, set, take, drop,
  replicate,
}
use dbsqlapi.Heap.{Ptr, null}
use dbsqlapi.State.{St, pure, ◌>>=◌, ◌>>◌, when◌run◌otherwise◌}
use dbsqlapi.Mysql.Connection.{MysqlConnect, is_connected}
use dbsqlapi.Mysql.Client.{
  Client, Call, History, Cell, FieldInfo, StmtOp, stmt_init, stmt_close, on_stmt, result_metadata,
  on_result, free_result, undefined, op_prepare, op_bind_result, op_execute, op_store_result,
  op_fetch, op_param_count, op_bind_param, op_send_long_data, op_errno, op_error, op_affected_rows,
  op_num_fields, op_fetch_fields, op_num_rows,
}

-- STRING_SIZE and MAX_MSG_BUFFER_LENGTH
abbrev pub string_size : ℕ
string_size = 64

abbrev pub max_msg_buffer_length : ℕ
max_msg_buffer_length = 512

-- enum_field_types, as far as the driver names them, and sizeof(MYSQL_TIME) with 64-bit longs.
abbrev pub mysql_type_datetime : ℕ
mysql_type_datetime = 12

abbrev pub sizeof_mysql_time : ℕ
sizeof_mysql_time = 40

-- MYSQL_NO_DATA and MYSQL_DATA_TRUNCATED
abbrev pub mysql_no_data : ℕ
mysql_no_data = 100

abbrev pub mysql_data_truncated : ℕ
mysql_data_truncated = 101

-- mysql_define and the MYSQL_BIND of one column.
pub record Column : Type 0 where
  pub col_name : CStr
  pub buf : Option (List ℕ)
  pub length : ℕ
  pub field_type : ℕ
  pub is_null : Bool
  pub is_unsigned : Bool
  pub buffer_length : ℕ

abbrev pub blank_column : Column
blank_column = record {
  col_name = [];
  buf = none;
  length = 0;
  field_type = 0;
  is_null = false;
  is_unsigned = false;
  buffer_length = 0;
}

-- The MYSQL_BIND of a parameter. `length` is what in_length points to, `none` for NULL.
pub record ParmBind : Type 0 where
  pub buffer_type : ℕ
  pub buffer : Ptr
  pub buffer_length : ℕ
  pub length : Option ℕ
  pub is_unsigned : Bool

abbrev pub blank_parm : ParmBind
blank_parm = record {
  buffer_type = 0;
  buffer = null;
  buffer_length = 0;
  length = none;
  is_unsigned = false;
}

-- enum cursor_state
pub data CursorState : Type 0 where
  not_opened opened : CursorState

abbrev pub is_opened : CursorState → Bool
is_opened opened = true
is_opened not_opened = false

-- `attached` says that m_connect is not NULL.
pub record Cursor : Type 0 where
  pub state : CursorState
  pub attached : Bool
  pub stmtp : Ptr
  pub meta : Ptr
  pub parm_bind : Option (List ParmBind)
  pub columns : List Column
  pub item_num : ℕ
  pub row_count : ℕ
  pub stmt_err_no : ℕ
  pub msgbuf : List ℕ

-- mysql_cursor::mysql_cursor()
unfoldable pub fresh_cursor : Cursor
fresh_cursor = record {
  state = not_opened;
  attached = false;
  stmtp = null;
  meta = null;
  parm_bind = none;
  columns = [];
  item_num = 0;
  row_count = 0;
  stmt_err_no = 0;
  msgbuf = replicate max_msg_buffer_length 0;
}

pub record Traced : Type 0 where
  pub cur : Cursor
  pub calls : History

abbrev pub Act : Type 0 → Type 0
Act A = St Traced A

-- A call that gives nothing.
unfoldable pub emit : Call → Act (Unit {0})
emit c s = (tt, record s { calls = c ∷ s.calls })

unfoldable pub change : (Cursor → Cursor) → Act (Unit {0})
change f s = (tt, record s { cur = f s.cur })

unfoldable pub get_cur : Act Cursor
get_cur s = (s.cur, s)

-- `strncpy(buf, text, strlen(text))`: no NUL is written.
abbrev pub put_text : List ℕ → CStr → List ℕ
put_text buf text = text ++ drop (length text) buf

-- `strcpy(buf, text)`
abbrev pub put_string : List ℕ → CStr → List ℕ
put_string buf text = put_text buf (text ++ 0 ∷ [])

-- An array of chars as a C string.
unfoldable pub text_of : List ℕ → CStr
text_of [] = []
text_of (c ∷ cs) = if c == 0 then [] else c ∷ text_of cs

-- The conversion of an unsigned value to int.
unfoldable pub to_int : ℕ → ℤ
to_int n = let w = n % 2 ^ 32 in if ltb w 2147483648 then pos w else negsuc (4294967295 - w)

abbrev pub is_positive : ℤ → Bool
is_positive (pos n) = not (n == 0)
is_positive (negsuc n) = false
