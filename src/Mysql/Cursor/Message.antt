-- ===== src/Mysql/Cursor/Message.antt =====
-- src/mysqlapi.cpp: the methods of mysql_cursor that report errors.
use dbsqlapi.Prelude.{ℕ, Bool, true, false, List, ◌∷◌, CStr, codes, ◌==◌, leb, length}
use dbsqlapi.Heap.{null}
use dbsqlapi.State.{pure, ◌>>=◌, ◌>>◌, when◌run◌otherwise◌}
use dbsqlapi.Mysql.Client.{Client, on_stmt, undefined, op_errno, op_error}
use dbsqlapi.Mysql.Cursor.{
  Act, emit, change, get_cur, put_text, put_string, text_of, mysql_no_data, mysql_data_truncated,
  max_msg_buffer_length,
}
use dbsqlapi.Mysql.Cursor.Statement.{ask}

-- `strcpy` of a literal into msgbuf.
abbrev pub say : ℕ → CStr → Act Bool
say n text = do
  change (λ d. record d { stmt_err_no = n; msgbuf = put_string d.msgbuf text })
  pure true

unfoldable pub is_stmt_result_no_data : ℕ → Act Bool
unfolding change
is_stmt_result_no_data result =
    when result == mysql_no_data
    run say mysql_no_data (codes "No more rows/data exists!")
    otherwise (when result == mysql_data_truncated
        run say mysql_data_truncated (codes "Data truncation occurred!")
        otherwise pure false)

module _ (client : Client) where
  unfoldable pub get_stmt_err_no : Act ℕ
  unfolding ask change get_cur
  get_stmt_err_no = do
    c ← get_cur
    when c.stmtp == null
        run pure c.stmt_err_no
        otherwise (do n ← ask client op_errno; change (λ d. record d { stmt_err_no = n }); pure n)

  -- mysql_stmt_error
  unfoldable pub stmt_error : Act CStr
  stmt_error s =
      (client.error_text s.calls, record s { calls = on_stmt op_error s.cur.stmtp ∷ s.calls })

  unfoldable pub copy_error : Act (Unit {0})
  unfolding stmt_error change emit get_cur
  copy_error = do
    text ← stmt_error
    change (λ d. record d { msgbuf = put_text d.msgbuf text })
    when leb (length text) max_msg_buffer_length run pure tt otherwise emit undefined

  -- What is returned is the text in msgbuf.
  unfoldable pub get_stmt_err_info : Act CStr
  unfolding get_stmt_err_no copy_error get_cur
  get_stmt_err_info = do
    c ← get_cur
    when c.stmtp == null
        run pure tt
        otherwise (do n ← get_stmt_err_no; when n == 0 run pure tt otherwise copy_error)
    d ← get_cur
    pure (text_of d.msgbuf)

  -- The number, and what is written to `perrbuf`. Both arguments of strncpy call getStmtErrInfo.
  unfoldable pub report_error_info : List ℕ → Act (ℕ × List ℕ)
  unfolding get_stmt_err_no get_stmt_err_info
  report_error_info perrbuf = do
    n ← get_stmt_err_no
    _ ← get_stmt_err_info
    text ← get_stmt_err_info
    pure (n, put_text perrbuf text)
