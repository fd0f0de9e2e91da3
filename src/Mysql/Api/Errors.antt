-- ===== src/Mysql/Api/Errors.antt =====
-- src/mysqlapi.cpp: mysqlapi::getErr and getErrInfo, mysql_connect::getErrInfo, and the calls that go to
-- the connection alone. What mysql_errno and mysql_error say of the connection is an argument.
use dbsqlapi.Prelude.{
  ℕ, Option, none, some, [], ◌∷◌, CStr, ℤ, pos, negsuc, ◌==◌, str_eq, if◌then◌else◌,
}
use dbsqlapi.State.{pure, ◌>>=◌, ◌>>◌, when◌run◌otherwise◌}
use dbsqlapi.Mysql.Connection
use dbsqlapi.Mysql.Prepared.{system, statement, dynamic_statement}
use dbsqlapi.Mysql.Client.{Client}
use dbsqlapi.Mysql.Cursor.{put_text, text_of, to_int}
use dbsqlapi.Mysql.Cursor.Message.{get_stmt_err_no, get_stmt_err_info}
use dbsqlapi.Mysql.Api.{Do, on_cursor, set_operation, get_api}

-- mysql_connect::getErrInfo; `none` is NULL.
unfoldable pub conn_info : CStr → Do (Option CStr)
conn_info [] a = (none, a)
conn_info (c ∷ cs) a =
    let copied = put_text a.conn_msgbuf (c ∷ cs) in
    if str_eq (text_of a.conn_msgbuf) (c ∷ cs)
    then (some (text_of a.conn_msgbuf), a)
    else (some (text_of copied), record a { conn_msgbuf = copied })

module _ (client : Client) where
  -- The number that a statement has left, or the connection's where it is 0.
  unfoldable pub get_err : ℕ → Do ℤ
  get_err conn_errno = do
    a ← get_api
    elim a.prep.now_operation [
      | system ↦ pure (to_int (Connection.get_err conn_errno))
      | statement ↦ do
        n ← on_cursor (get_stmt_err_no client)
        when n == 0
            run pure (to_int (Connection.get_err conn_errno))
            otherwise (do m ← on_cursor (get_stmt_err_no client); pure (to_int m))
      | dynamic_statement ↦
          pure (
            to_int
              (if a.d_stmt_err_no == 0 then Connection.get_err conn_errno else a.d_stmt_err_no))
    ]

  unfoldable pub get_err_info : CStr → Do (Option CStr)
  get_err_info conn_error = do
    a ← get_api
    elim a.prep.now_operation [
      | system ↦ conn_info conn_error
      | statement ↦ do
        n ← on_cursor (get_stmt_err_no client)
        when n == 0
            run conn_info conn_error
            otherwise (do text ← on_cursor (get_stmt_err_info client); pure (some text))
      | dynamic_statement ↦
          if a.d_stmt_err_no == 0
          then conn_info conn_error
          else pure (some (text_of a.d_stat_msgbuf))
    ]

-- mysql_connect::changeDB, flashDB and processDdl: `answer` is what the function of the library returns.
unfoldable pub conn_change_db : ℕ → Option CStr → ℤ
conn_change_db answer none = negsuc 0
conn_change_db answer (some dbstring) = if answer == 0 then pos 0 else negsuc 0

unfoldable pub flash_db : ℕ → ℤ
flash_db answer = if answer == 0 then pos 0 else negsuc 0

unfoldable pub conn_process_ddl : ℕ → ℤ
conn_process_ddl answer = if answer == 0 then pos 0 else negsuc 0

unfoldable pub change_db : ℕ → Option CStr → Do ℤ
change_db answer db_name = do set_operation system; pure (conn_change_db answer db_name)

unfoldable pub process_ddl : ℕ → Do ℤ
process_ddl answer = do set_operation system; pure (conn_process_ddl answer)
