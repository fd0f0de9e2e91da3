-- ===== src/Mysql/Api/Statements.antt =====
-- src/mysqlapi.cpp: the methods of mysqlapi that run one statement on m_cursor.
use dbsqlapi.Prelude.{
  Bool, true, false, Option, none, some, List, ◌++◌, CStr, codes, ℤ, pos, negsuc, ◌==◌,
  if◌then◌else◌, take,
}
use dbsqlapi.State.{pure, ◌>>=◌, ◌>>◌, when◌run◌otherwise◌, stage}
use dbsqlapi.Mysql.Prepared.{statement}
use dbsqlapi.Mysql.Client.{Client}
use dbsqlapi.Mysql.Cursor.{Column}
use dbsqlapi.Mysql.Cursor.Statement.{open_cur, close_cur, prepare, execute, affect_rec, fetch}
use dbsqlapi.Mysql.Cursor.Define.{define}
use dbsqlapi.Mysql.Cursor.Message.{get_stmt_err_info, is_stmt_result_no_data}
use dbsqlapi.Mysql.Api.{Do, on_cursor, set_operation, get_api, commit_conn, rollback_conn}

module _ (client : Client) where
  -- `m_cursor.openCur(&m_connect)`
  unfoldable pub open_api : Do ℤ
  open_api a = on_cursor (open_cur client (some a.conn)) a

  -- `m_cursor.closeCur(); return -1;` and the same after m_cursor.getStmtErrInfo().
  unfoldable pub close_fail : Do ℤ
  close_fail = do _ ← on_cursor (close_cur client); pure (negsuc 0)

  unfoldable pub report_fail : Do ℤ
  report_fail = do _ ← on_cursor (get_stmt_err_info client); close_fail

  unfoldable pub in_set_sql : CStr → Do ℤ
  in_set_sql sql = do
    set_operation statement
    _ ← on_cursor (close_cur client)
    stage open_api (pure (negsuc 0))
        (stage (on_cursor (prepare client sql)) report_fail (pure (pos 0)))

  unfoldable pub in_exec : Bool → Do ℤ
  in_exec is_commit = do
    set_operation statement
    stage (on_cursor (execute client false))
        (do _ ← on_cursor (get_stmt_err_info client); rollback_conn; close_fail)
        (do
          when is_commit run commit_conn otherwise pure tt
          _ ← on_cursor (close_cur client)
          pure (pos 0))

  -- The second component is what is written through iReturn, for a pointer that is not NULL.
  unfoldable pub execute_sql : CStr → Bool → Bool → Do (ℤ × Option ℤ)
  execute_sql sql wants_count is_commit = do
    set_operation statement
    stage open_api (pure (negsuc 0, none)) (
        stage (on_cursor (prepare client sql)) (do r ← report_fail; pure (r, none))
          (stage (on_cursor (execute client false))
            (do rollback_conn; r ← report_fail; pure (r, none))
            (do
              n ←
                  when wants_count
                  run (do r ← on_cursor (affect_rec client); pure (some r))
                  otherwise pure none
              when is_commit run commit_conn otherwise pure tt
              _ ← on_cursor (close_cur client)
              pure (pos 0, n))))

  -- The second component is what m_cursor.output() turns into the list of fields.
  unfoldable pub get_rec : CStr → Do (ℤ × Option (List Column))
  get_rec sql = do
    set_operation statement
    stage open_api (pure (negsuc 0, none)) (
        stage (on_cursor (prepare client sql)) (do r ← report_fail; pure (r, none))
          (stage (on_cursor (define client)) (do r ← report_fail; pure (r, none))
            (stage (on_cursor (execute client true)) (do r ← report_fail; pure (r, none))
              (do
                n ← on_cursor (fetch client)
                when n == 0
                    run (do
                      a ← get_api
                      _ ← on_cursor (close_cur client)
                      pure (pos 0, some a.cursor.cur.columns))
                    otherwise (do
                      _ ← report_fail
                      b ← on_cursor (is_stmt_result_no_data n)
                      pure (if b then negsuc 2 else negsuc 0, none))))))

  -- The text that snprintf writes into the 64 bytes of `sql`.
  abbrev pub show_tables : CStr → CStr
  show_tables tab_name = take 63 (codes "show tables like '" ++ (tab_name ++ codes "' "))

  abbrev pub close_false : Do Bool
  close_false = do _ ← on_cursor (close_cur client); pure false

  unfoldable pub is_table : CStr → Do Bool
  is_table tab_name = do
    set_operation statement
    stage open_api (pure false) (
        stage (on_cursor (prepare client (show_tables tab_name))) close_false (
          stage (on_cursor (define client)) close_false (
            stage (on_cursor (execute client true)) close_false
              (do n ← on_cursor (fetch client); _ ← on_cursor (close_cur client); pure (n == 0)))))

  unfoldable pub check_sql : CStr → Do Bool
  check_sql sql = do
    set_operation statement
    stage (in_set_sql sql) (do _ ← on_cursor (get_stmt_err_info client); close_false)
        (do _ ← on_cursor (close_cur client); pure true)
