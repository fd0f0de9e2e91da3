-- ===== src/Mysql/Api/Requests.antt =====
-- The calls of an application on one mysqlapi (src/mysqlapi.cpp).
use dbsqlapi.Prelude.{ℕ, ◌≡◌, Bool, true, Option, List, [], ◌∷◌, CStr, ℤ}
use dbsqlapi.Heap.{Ptr, Heap}
use dbsqlapi.Mysql.Client.{Client}
use dbsqlapi.Mysql.Cursor.{is_opened}
use dbsqlapi.Mysql.Cursor.Message.{get_stmt_err_info, get_stmt_err_no}
use dbsqlapi.Mysql.Api.{
  Api, Do, on_cursor, connect, disconnect, commit_conn, rollback_conn, begin_conn, DateFormat,
  set_prep, set_date_format,
}
use dbsqlapi.Mysql.Api.Statements.{execute_sql, get_rec, is_table, check_sql}
use dbsqlapi.Mysql.Api.Load.{
  LongType, set_sql, set_long_fld, begin_load_binary_data, transfer_bin_data, end_load_binary_data,
  on_prep,
}
use dbsqlapi.Mysql.Api.Execute.{ph_execute}
use dbsqlapi.Value.Arrays.{Chars}
use dbsqlapi.Mysql.Prepared.{
  statement, Prep, phfree, ph_set_int, ph_set_longlong, ph_set_string, ph_set_longbyte,
}
use dbsqlapi.Mysql.Api.Errors.{get_err, get_err_info, change_db, process_ddl}
use dbsqlapi.Mysql.Output.SysDate.{get_sys_date}

-- The calls of an application. A `connects` comes with the server's answer.
pub data Request : Type 0 where
  connects : Bool → CStr → CStr → CStr → Request
  disconnects begins commits rolls_back : Request
  executes_sql : CStr → Bool → Bool → Request
  gets_rec tests_table checks_sql : CStr → Request
  sets_sql : Option CStr → Request
  executes_ph : (Ptr → ℕ) → Bool → Request
  sets_long_fld : Option CStr → Ptr → ℕ → ℕ → LongType → Bool → Request
  begins_load : Option CStr → LongType → Request
  transfers : Ptr → ℕ → Request
  ends_load : Bool → Request
  sets_int sets_longlong : ℕ → Ptr → Request
  sets_string : ℕ → Ptr → ℕ → ℕ → Request
  sets_longbyte : ℕ → Ptr → ℕ → Request
  frees_ph gets_stmt_err_no gets_stmt_err_info : Request
  gets_err : ℕ → Request
  gets_err_info : CStr → Request
  gets_sys_date : Bool → Heap Chars → Request
  sets_date_format : DateFormat → Request
  changes_db : ℕ → Option CStr → Request
  processes_ddl : ℕ → Request

-- A parameter that goes outside its array, or is read through NULL.
abbrev pub set_outside : Prep → Prep
set_outside st = record st { now_operation = statement }

unfoldable pub set_parm : (Prep → Option (ℤ × Prep)) → Do ℤ
unfolding on_prep
set_parm f = on_prep f set_outside

module _ (client : Client) where
  unfoldable pub run_request : Request → Api → Api
  run_request (connects answer user password hoststring) a =
      (connect answer user password hoststring a).1
  run_request disconnects a = (disconnect client a).1
  run_request begins a = (begin_conn a).1
  run_request commits a = (commit_conn a).1
  run_request rolls_back a = (rollback_conn a).1
  run_request (executes_sql sql wants_count is_commit) a =
      (execute_sql client sql wants_count is_commit a).1
  run_request (gets_rec sql) a = (get_rec client sql a).1
  run_request (tests_table tab_name) a = (is_table client tab_name a).1
  run_request (checks_sql sql) a = (check_sql client sql a).1
  run_request (sets_sql sql) a = (set_sql sql a).1
  run_request (executes_ph strlen_at is_commit) a = (ph_execute client strlen_at is_commit a).1
  run_request (sets_long_fld sql p n m long_type is_commit) a =
      (set_long_fld client sql p n m long_type is_commit a).1
  run_request (begins_load sql col_type) a = (begin_load_binary_data client sql col_type a).1
  run_request (transfers p n) a = (transfer_bin_data client p n a).1
  run_request (ends_load is_commit) a = (end_load_binary_data client is_commit a).1
  run_request (sets_int n p) a = (set_parm (λ st. ph_set_int st n p) a).1
  run_request (sets_longlong n p) a = (set_parm (λ st. ph_set_longlong st n p) a).1
  run_request (sets_string n p text_len len) a =
      (set_parm (λ st. ph_set_string st n p text_len len) a).1
  run_request (sets_longbyte n p len) a = (set_parm (λ st. ph_set_longbyte st n p len) a).1
  run_request frees_ph a = (set_prep phfree a).1
  run_request gets_stmt_err_no a = (on_cursor (get_stmt_err_no client) a).1
  run_request gets_stmt_err_info a = (on_cursor (get_stmt_err_info client) a).1
  run_request (gets_err conn_errno) a = (get_err client conn_errno a).1
  run_request (gets_err_info conn_error) a = (get_err_info client conn_error a).1
  run_request (gets_sys_date has_place h) a = (get_sys_date client has_place a h).1
  run_request (sets_date_format d) a = (set_date_format d a).1
  run_request (changes_db answer db_name) a = (change_db answer db_name a).1
  run_request (processes_ddl answer) a = (process_ddl answer a).1

  -- Pieces of a long value come, and the load ends, only while a statement is open.
  abbrev pub MayCome : Request → Api → Type 0
  MayCome (transfers p n) a = is_opened a.cursor.cur.state ≡ true
  MayCome (ends_load is_commit) a = is_opened a.cursor.cur.state ≡ true
  MayCome _ a = Unit {0}

  unfoldable pub run_requests : List Request → Api → Api
  run_requests [] a = a
  run_requests (r ∷ rs) a = run_requests rs (run_request r a)

  abbrev pub InOrder : List Request → Api → Type 0
  InOrder [] a = Unit {0}
  InOrder (r ∷ rs) a = MayCome r a × InOrder rs (run_request r a)
