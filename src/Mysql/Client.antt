-- ===== src/Mysql/Client.antt =====
-- The statements of the MySQL client library, as src/mysqlapi.cpp calls it through g_mysql. The library
-- is a parameter: what it answers is a function of all calls so far. The calls are kept, the last one
-- first.
pub mod Protocol
use dbsqlapi.Prelude.{ℕ, Bool, List, CStr}
use dbsqlapi.Heap.{Ptr}

-- The functions that work on a MYSQL_STMT.
pub data StmtOp : Type 0 where
  op_prepare : CStr → StmtOp
  op_bind_result op_execute op_store_result op_fetch op_param_count op_bind_param : StmtOp
  op_send_long_data : ℕ → Ptr → ℕ → StmtOp
  op_errno op_error op_affected_rows : StmtOp

-- mysql_num_fields, and the calls of mysql_fetch_field up to the NULL.
pub data ResultOp : Type 0 where
  op_num_fields op_fetch_fields op_num_rows : ResultOp

-- What happens at the library. `undefined` is no call: it stands for undefined behaviour of the driver,
-- such as a write outside an array; what is recorded after it means nothing.
pub data Call : Type 0 where
  stmt_init : Ptr → Call
  stmt_close : Ptr → Call
  on_stmt : StmtOp → Ptr → Call
  result_metadata : Ptr → Ptr → Call
  on_result : ResultOp → Ptr → Call
  free_result : Ptr → Call
  commit rollback : Call
  undefined : Call

abbrev pub History : Type 0
History = List Call

-- What mysql_fetch_field tells of a column.
pub record FieldInfo : Type 0 where
  pub name : CStr
  pub field_type : ℕ
  pub length : ℕ
  pub is_unsigned : Bool

-- What mysql_stmt_fetch stores for a column.
pub record Cell : Type 0 where
  pub is_null : Bool
  pub length : ℕ
  pub bytes : List ℕ

-- The answers. `answer` is what a function on a statement returns.
pub record Client : Type 0 where
  pub new_stmt : History → Ptr
  pub closes_badly : History → Bool
  pub answer : StmtOp → History → ℕ
  pub error_text : History → CStr
  pub metadata : History → Ptr
  pub num_fields : History → ℕ
  pub num_rows : History → ℕ
  pub fields : History → List FieldInfo
  pub row : History → List Cell
