-- ===== src/Mysql/Api/RequestsTidy.antt =====
-- What each call on a mysqlapi (src/mysqlapi.cpp) leaves of m_cursor.
use dbsqlapi.Prelude.{
  ℕ, ◌≡◌, refl, Bool, true, false, not, Option, is_neg, codes, ◌==◌, if◌then◌else◌, [], ◌∷◌, CStr,
  ℤ, arith,
}
use dbsqlapi.Heap.{Heap}
use dbsqlapi.State.{pure, ◌>>=◌, ◌>>◌, when◌run◌otherwise◌}
use dbsqlapi.Mysql.Client.{Client}
use dbsqlapi.Mysql.Cursor.{is_opened, emit}
use dbsqlapi.Mysql.Cursor.Message.{get_stmt_err_no}
use dbsqlapi.Mysql.Cursor.Tidy.{IsTidy}
use dbsqlapi.Mysql.Api.{
  Api, Do, on_cursor, connect, disconnect, begin_conn, set_operation, DateFormat, set_date_format,
}
use dbsqlapi.Mysql.Api.Statements.{get_rec}
use dbsqlapi.Mysql.Api.Load.{on_prep}
use dbsqlapi.Mysql.Api.Tidy.{
  Leads, Ends, commit_conn-Leads, rollback_conn-Leads, close-Leads, execute_sql-Leads,
  get_rec-Leads, is_table-Leads, check_sql-Leads, cursor-Leads, bind-Leads, when-Leads, pure-Leads,
  get_api-Leads, info-Leads,
}
use dbsqlapi.Mysql.Api.TidyParms.{
  set_sql-Leads, set_long_fld-Ends, begin_load-Ends, transfer-Leads, end_load-Leads,
  ph_execute-Ends, set_prep-Leads,
}
use dbsqlapi.Value.Arrays.{Chars}
use dbsqlapi.Mysql.Prepared.{
  Operation, system, statement, dynamic_statement, Prep, phfree, ph_set_int, ph_set_longlong,
  ph_set_string, ph_set_longbyte,
}
use dbsqlapi.Mysql.Cursor.Kept.{get_stmt_err_no-Keeps}
use dbsqlapi.Mysql.Api.Errors.{conn_info, get_err, get_err_info, change_db, process_ddl}
use dbsqlapi.Mysql.Output.SysDate.{get_sys_date}
use dbsqlapi.Mysql.Api.Requests.{
  Request, connects, disconnects, begins, commits, rolls_back, executes_sql, gets_rec, tests_table,
  checks_sql, sets_sql, executes_ph, sets_long_fld, begins_load, transfers, ends_load, sets_int,
  sets_longlong, sets_string, sets_longbyte, frees_ph, gets_stmt_err_no, gets_stmt_err_info,
  gets_err, gets_err_info, gets_sys_date, sets_date_format, changes_db, processes_ddl, set_parm,
  run_request, MayCome,
}

module _ (client : Client) where
  connect-Ends :
      (answer : Bool) (user password hoststring : CStr)
      → Ends (connect answer user password hoststring)
  unfolding connect set_operation ◌>>◌ when◌run◌otherwise◌
  connect-Ends answer user password hoststring = record { from = λ a b t. (b, ground arith) }

  begin_conn-Ends : Ends begin_conn
  unfolding begin_conn
  begin_conn-Ends = record { from = λ a b t. (b, ground arith) }

  disconnect-Ends : Ends (disconnect client)
  unfolding disconnect set_operation ◌>>◌ ◌>>=◌
  disconnect-Ends = record { from = λ a b t. (false, (close-Leads client).at _ t) }

  while_open :
      {m : Do ℤ} {f : ℤ → Bool} (a : Api) (b : Bool)
      → is_opened a.cursor.cur.state ≡ true
      → Leads true m f
      → IsTidy b a.cursor
      → (c : Bool) × IsTidy c (m a).1.cursor
  while_open {m} {f} a true e h t = (f (m a).0, h.at a t)
  while_open a false e h t = absurd (ground (arith, t.open_is))

  set_parm-Leads : {b : Bool} (f : Prep → Option (ℤ × Prep)) → Leads b (set_parm f) (λ _. b)
  unfolding set_parm on_prep on_cursor emit
  set_parm-Leads f = record { at = λ a t. ground arith }

  err_no-Leads : {b : Bool} → Leads b (on_cursor (get_stmt_err_no client)) (λ _. b)
  err_no-Leads {b} = cursor-Leads (get_stmt_err_no client) (get_stmt_err_no-Keeps client b)

  conn_info-Leads : {b : Bool} (text : CStr) → Leads b (conn_info text) (λ _. b)
  unfolding conn_info
  conn_info-Leads [] = record { at = λ a t. t }
  conn_info-Leads (c ∷ cs) = record { at = λ a t. ground arith }

  if-Leads :
      {A : Type 0} {b : Bool} {m k : Do A} {f : A → Bool} (c : Bool)
      → Leads b m f
      → Leads b k f
      → Leads b (if c then m else k) f
  if-Leads true hm hk = hm
  if-Leads false hm hk = hk

  operation-Leads :
      {A : Type 0} {b : Bool} {m k n : Do A} {f : A → Bool} (o : Operation)
      → Leads b m f
      → Leads b k f
      → Leads b n f
      → Leads b (elim o [ system ↦ m | statement ↦ k | dynamic_statement ↦ n ]) f
  operation-Leads system hm hk hn = hm
  operation-Leads statement hm hk hn = hk
  operation-Leads dynamic_statement hm hk hn = hn

  get_err-Leads : {b : Bool} (n : ℕ) → Leads b (get_err client n) (λ _. b)
  unfolding get_err
  get_err-Leads {b} n =
      bind-Leads (λ _. b) get_api-Leads
        (λ a.
          operation-Leads a.prep.now_operation (pure-Leads _ refl)
            (bind-Leads (λ _. b) err_no-Leads
              (λ m.
                when-Leads (m == 0) (pure-Leads _ refl)
                  (bind-Leads (λ _. b) err_no-Leads (λ e. pure-Leads _ refl))))
            (pure-Leads _ refl))

  get_err_info-Leads : {b : Bool} (text : CStr) → Leads b (get_err_info client text) (λ _. b)
  unfolding get_err_info
  get_err_info-Leads {b} text =
      bind-Leads (λ _. b) get_api-Leads
        (λ a.
          operation-Leads a.prep.now_operation (conn_info-Leads text)
            (bind-Leads (λ _. b) err_no-Leads
              (λ m.
                when-Leads (m == 0) (conn_info-Leads text)
                  (bind-Leads (λ _. b) (info-Leads client) (λ e. pure-Leads _ refl))))
            (if-Leads (a.d_stmt_err_no == 0) (conn_info-Leads text)
              (pure-Leads _ {f = λ _. b} refl)))

  set_date_format-Leads : {b : Bool} (d : DateFormat) → Leads b (set_date_format d) (λ _. b)
  unfolding set_date_format set_operation ◌>>◌
  set_date_format-Leads d = record { at = λ a t. t }

  change_db-Leads :
      {b : Bool} (answer : ℕ) (name : Option CStr) → Leads b (change_db answer name) (λ _. b)
  unfolding change_db set_operation pure ◌>>◌
  change_db-Leads answer name = record { at = λ a t. t }

  process_ddl-Leads : {b : Bool} (answer : ℕ) → Leads b (process_ddl answer) (λ _. b)
  unfolding process_ddl set_operation pure ◌>>◌
  process_ddl-Leads answer = record { at = λ a t. t }

  if-IsTidy :
      {R : Type 0} {b : Bool} (c : Bool) (x y : R × Api)
      → IsTidy b x.1.cursor
      → IsTidy b y.1.cursor
      → IsTidy b (if c then x else y).1.cursor
  if-IsTidy true x y hx hy = hx
  if-IsTidy false x y hx hy = hy

  get_sys_date-IsTidy :
      (has_place : Bool) (h : Heap Chars) (a : Api) (b : Bool)
      → IsTidy b a.cursor
      → IsTidy b (get_sys_date client has_place a h).1.cursor
  unfolding get_sys_date set_operation
  get_sys_date-IsTidy has_place h a b t =
      let a1 = (set_operation statement a).1 in
      let u = (get_rec-Leads client (codes "select now()")).at a1 t in
      if-IsTidy (not has_place) _ _ t
        (if-IsTidy (is_neg (get_rec client (codes "select now()") a1).0.0) _ _ u u)

  pub run_request-IsTidy :
      (r : Request) (a : Api) (b : Bool)
      → MayCome client r a
      → IsTidy b a.cursor
      → (c : Bool) × IsTidy c (run_request client r a).cursor
  unfolding run_request
  run_request-IsTidy (connects answer user password hoststring) a b _ t =
      (connect-Ends answer user password hoststring).from a b t
  run_request-IsTidy disconnects a b _ t = disconnect-Ends.from a b t
  run_request-IsTidy begins a b _ t = begin_conn-Ends.from a b t
  run_request-IsTidy commits a b _ t = (b, commit_conn-Leads.at a t)
  run_request-IsTidy rolls_back a b _ t = (b, rollback_conn-Leads.at a t)
  run_request-IsTidy (executes_sql sql wants_count is_commit) a b _ t =
      (b, (execute_sql-Leads client sql wants_count is_commit).at a t)
  run_request-IsTidy (gets_rec sql) a b _ t = (b, (get_rec-Leads client sql).at a t)
  run_request-IsTidy (tests_table tab_name) a b _ t = (b, (is_table-Leads client tab_name).at a t)
  run_request-IsTidy (checks_sql sql) a b _ t = (false, (check_sql-Leads client sql).at a t)
  run_request-IsTidy (sets_sql sql) a b _ t = (b, (set_sql-Leads sql).at a t)
  run_request-IsTidy (executes_ph strlen_at is_commit) a b _ t =
      (ph_execute-Ends client strlen_at is_commit).from a b t
  run_request-IsTidy (sets_long_fld sql p n m long_type is_commit) a b _ t =
      (set_long_fld-Ends client sql p n m long_type is_commit).from a b t
  run_request-IsTidy (begins_load sql col_type) a b _ t =
      (begin_load-Ends client sql col_type).from a b t
  run_request-IsTidy (transfers p n) a b e t = while_open a b e (transfer-Leads client p n) t
  run_request-IsTidy (ends_load is_commit) a b e t =
      while_open a b e (end_load-Leads client is_commit) t
  run_request-IsTidy (sets_int n p) a b _ t = (b, (set_parm-Leads (λ st. ph_set_int st n p)).at a t)
  run_request-IsTidy (sets_longlong n p) a b _ t =
      (b, (set_parm-Leads (λ st. ph_set_longlong st n p)).at a t)
  run_request-IsTidy (sets_string n p text_len len) a b _ t =
      (b, (set_parm-Leads (λ st. ph_set_string st n p text_len len)).at a t)
  run_request-IsTidy (sets_longbyte n p len) a b _ t =
      (b, (set_parm-Leads (λ st. ph_set_longbyte st n p len)).at a t)
  run_request-IsTidy frees_ph a b _ t = (b, (set_prep-Leads phfree).at a t)
  run_request-IsTidy gets_stmt_err_no a b _ t = (b, err_no-Leads.at a t)
  run_request-IsTidy gets_stmt_err_info a b _ t = (b, (info-Leads client).at a t)
  run_request-IsTidy (gets_err n) a b _ t = (b, (get_err-Leads n).at a t)
  run_request-IsTidy (gets_err_info text) a b _ t = (b, (get_err_info-Leads text).at a t)
  run_request-IsTidy (gets_sys_date has_place h) a b _ t =
      (b, get_sys_date-IsTidy has_place h a b t)
  run_request-IsTidy (sets_date_format d) a b _ t = (b, (set_date_format-Leads d).at a t)
  run_request-IsTidy (changes_db answer db_name) a b _ t =
      (b, (change_db-Leads answer db_name).at a t)
  run_request-IsTidy (processes_ddl answer) a b _ t = (b, (process_ddl-Leads answer).at a t)
