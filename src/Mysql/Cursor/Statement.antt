-- ===== src/Mysql/Cursor/Statement.antt =====
-- src/mysqlapi.cpp: the methods of mysql_cursor that open, run and close a statement.
use dbsqlapi.Prelude.{
  ℕ, ◌+◌, Bool, true, false, ◌||◌, not, Option, none, some, List, [], ◌∷◌, ◌++◌, CStr, ℤ, pos,
  negsuc, ◌==◌, leb, if◌then◌else◌, length, drop,
}
use dbsqlapi.Heap.{Ptr, null}
use dbsqlapi.State.{pure, ◌>>=◌, ◌>>◌, when◌run◌otherwise◌}
use dbsqlapi.Mysql.Connection.{MysqlConnect, is_connected}
use dbsqlapi.Mysql.Client.{
  Client, Cell, StmtOp, stmt_init, stmt_close, on_stmt, on_result, free_result, undefined,
  op_prepare, op_execute, op_store_result, op_fetch, op_affected_rows, op_num_rows,
}
use dbsqlapi.Mysql.Cursor.{
  Column, opened, not_opened, is_opened, Act, emit, change, get_cur, to_int, mysql_data_truncated,
}

module _ (client : Client) where
  -- A function of the library on `stmtp`.
  unfoldable pub ask : StmtOp → Act ℕ
  ask op s = (client.answer op s.calls, record s { calls = on_stmt op s.cur.stmtp ∷ s.calls })

  -- mysql_stmt_init
  unfoldable pub init_stmt : Act Ptr
  init_stmt s =
      (client.new_stmt s.calls, record s { calls = stmt_init (client.new_stmt s.calls) ∷ s.calls })

  -- `none` for a connection that is NULL.
  unfoldable pub open_cur : Option MysqlConnect → Act ℤ
  unfolding init_stmt change get_cur
  open_cur none = pure (negsuc 0)
  open_cur (some conn) = do
    c ← get_cur
    when is_opened c.state || not (is_connected conn.db_state) run pure (negsuc 0) otherwise (do
      p ← init_stmt
      change (λ d. record d { stmtp = p })
      when p == null
          run (do change (λ d. record d { state = not_opened; attached = true }); pure (negsuc 0))
          otherwise (do change (λ d. record d { state = opened; attached = true }); pure (pos 0)))

  -- `if(prepare_meta_result) { mysql_free_result(...); prepare_meta_result = NULL; }`
  unfoldable pub free_meta : Act (Unit {0})
  unfolding emit change get_cur
  free_meta = do
    c ← get_cur
    when c.meta == null
        run pure tt
        otherwise (do emit (free_result c.meta); change (λ d. record d { meta = null }))

  -- mysql_stmt_close: whether it returns 0.
  unfoldable pub close_stmt : Ptr → Act Bool
  close_stmt p s = (not (client.closes_badly s.calls), record s { calls = stmt_close p ∷ s.calls })

  -- The variable `ret` has no value where `stmtp` is NULL.
  unfoldable pub close_cur : Act ℤ
  unfolding free_meta close_stmt emit change get_cur
  close_cur = do
    c ← get_cur
    when not (is_opened c.state) run pure (negsuc 0) otherwise (do
      free_meta
      fine ← when c.stmtp == null run (do emit undefined; pure false) otherwise close_stmt c.stmtp
      change (λ d. record d { stmtp = null; state = not_opened; attached = false; row_count = 0 })
      pure (if fine then pos 0 else negsuc 0))

  -- `if(f(stmtp) != 0) return -1; return 0;`
  abbrev pub fail_or : StmtOp → Act ℤ → Act ℤ
  fail_or op next = do r ← ask op; when r == 0 run next otherwise pure (negsuc 0)

  unfoldable pub prepare : CStr → Act ℤ
  unfolding ask
  prepare sql_str = fail_or (op_prepare sql_str) (pure (pos 0))

  -- `select` says that iMode is MYSQL_SELECT_MODE.
  unfoldable pub execute : Bool → Act ℤ
  unfolding ask
  execute select =
      fail_or op_execute
        (when select run fail_or op_store_result (pure (pos 0)) otherwise pure (pos 0))

  -- BUFFER_ALL_RESULTS_TO_CLIENTSIDE is 1.
  unfoldable pub affect_rec : Act ℤ
  unfolding ask
  affect_rec = do n ← ask op_affected_rows; pure (to_int n)

  unfoldable pub get_results_row_count : Act ℤ
  unfolding get_cur emit
  get_results_row_count = do
    c ← get_cur
    when c.meta == null run pure (negsuc 0) otherwise (λ s. (
      to_int (client.num_rows s.calls),
      record s { calls = on_result op_num_rows c.meta ∷ s.calls },
    ))

-- What mysql_stmt_fetch stores for the bound columns, and whether all of it has room.
abbrev pub store_cell : Cell → Column → Column
store_cell x c = record c {
  is_null = x.is_null;
  length = x.length;
  buf = elim c.buf [ none ↦ none | some b ↦ some (x.bytes ++ drop (length x.bytes) b) ];
}

abbrev pub cell_fits : Cell → Column → Bool
cell_fits x c = elim c.buf [ none ↦ false | some b ↦ leb (length x.bytes) (length b) ]

unfoldable pub store_row : List Cell → List Column → List Column × Bool
store_row [] cs = (cs, true)
store_row (x ∷ xs) [] = ([], true)
store_row (x ∷ xs) (c ∷ cs) =
    let rest = store_row xs cs in (store_cell x c ∷ rest.0, if cell_fits x c then rest.1 else false)

module _ (client : Client) where
  -- The row is stored where a row is there.
  unfoldable pub fetch : Act ℕ
  unfolding ask change get_cur emit store_row
  fetch = do
    change (λ d. record d { row_count = d.row_count + 1 })
    h ← (λ s. (s.calls, s))
    r ← ask client op_fetch
    c ← get_cur
    let stored = store_row (client.row h) c.columns
    when (r == 0) || (r == mysql_data_truncated)
        run (do
          change (λ d. record d { columns = stored.0 })
          when stored.1 run pure r otherwise (do emit undefined; pure r))
        otherwise pure r
