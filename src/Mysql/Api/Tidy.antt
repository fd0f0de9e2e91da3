-- ===== src/Mysql/Api/Tidy.antt =====
-- What the methods of mysqlapi (src/mysqlapi.cpp) leave open at the client library.
use dbsqlapi.Prelude.{
  ◌≡◌, refl, inl, inr, Bool, true, false, not, none, some, CStr, ℤ, pos, negsuc, is_neg, arith,
  ◌==◌, Bool-cases,
}
use dbsqlapi.State.{pure, ◌>>=◌, ◌>>◌, when◌run◌otherwise◌, stage}
use dbsqlapi.Mysql.Client.{Client}
use dbsqlapi.Mysql.Cursor.{Act}
use dbsqlapi.Mysql.Cursor.Statement.{close_cur, prepare, execute, affect_rec, fetch}
use dbsqlapi.Mysql.Cursor.Define.{define}
use dbsqlapi.Mysql.Cursor.Message.{get_stmt_err_info, is_stmt_result_no_data}
use dbsqlapi.Mysql.Cursor.Tidy.{IsTidy, Takes, open_cur-Takes, open_cur_again, close_cur-Takes}
use dbsqlapi.Mysql.Cursor.Kept.{
  prepare-Keeps, execute-Keeps, affect_rec-Keeps, fetch-Keeps, define-Keeps,
  get_stmt_err_info-Keeps, is_stmt_result_no_data-Keeps,
}
use dbsqlapi.Mysql.Prepared.{Operation, statement}
use dbsqlapi.Mysql.Api.{Api, Do, on_cursor, set_operation, get_api, commit_conn, rollback_conn}
use dbsqlapi.Mysql.Api.Statements.{
  open_api, close_fail, report_fail, in_set_sql, in_exec, execute_sql, get_rec, is_table, check_sql,
  close_false, show_tables,
}

-- A method called while the statement of m_cursor is open or not, as `b` says, leaves it open or not, as `f`
-- says of the value that it returns.
pub record Leads {A : Type 0} (b : Bool) (m : Do A) (f : A → Bool) : Type 0 where
  pub at : (a : Api) → IsTidy b a.cursor → IsTidy (f (m a).0) (m a).1.cursor

module _ {A : Type 0} where
  pub pure-Leads : {b : Bool} (a : A) {f : A → Bool} → f a ≡ b → Leads b (pure a) f
  unfolding pure
  pure-Leads a e = record { at = λ s t. rw e t }

  pub bind-Leads :
      {B : Type 0} {b : Bool} {m : Do B} {k : B → Do A} {f : A → Bool} (g : B → Bool)
      → Leads b m g
      → ((x : B) → Leads (g x) (k x) f)
      → Leads b (m >>= k) f
  unfolding ◌>>=◌
  bind-Leads {m} g hm hk = record { at = λ a t. (hk (m a).0).at (m a).1 (hm.at a t) }

  pub seq-Leads :
      {b c : Bool} {m : Do (Unit {0})} {k : Do A} {f : A → Bool}
      → Leads b m (λ _. c)
      → Leads c k f
      → Leads b (m >> k) f
  unfolding ◌>>◌
  seq-Leads {m} hm hk = record { at = λ a t. hk.at (m a).1 (hm.at a t) }

  pub when-Leads :
      {b : Bool} (c : Bool) {m k : Do A} {f : A → Bool}
      → Leads b m f
      → Leads b k f
      → Leads b (when c run m otherwise k) f
  unfolding when◌run◌otherwise◌
  when-Leads true hm hk = record { at = hm.at }
  when-Leads false hm hk = record { at = hk.at }

  pub cursor-Leads : {b : Bool} (m : Act A) {f : A → Bool} → Takes b m f → Leads b (on_cursor m) f
  unfolding on_cursor
  cursor-Leads m h = record { at = λ a t. h a.cursor t }

  pub stage-Leads :
      {b : Bool} {op : Do ℤ} {failed next : Do A} {f : A → Bool} (h : Bool → Bool)
      → Leads b op (λ r. h (is_neg r))
      → Leads (h true) failed f
      → Leads (h false) next f
      → Leads b (stage op failed next) f
  unfolding stage ◌>>=◌ when◌run◌otherwise◌
  stage-Leads {op} h hop hf hn = record {
    at = λ a t. elim (Bool-cases (is_neg (op a).0)) [
      | inl neg ↦ rw neg (hf.at (op a).1 (rw neg at (hop.at a t)))
      | inr fine ↦ rw fine (hn.at (op a).1 (rw fine at (hop.at a t)))
    ];
  }

  -- A step on the open cursor.
  pub step-Leads :
      {op : Do ℤ} {failed next : Do A} {f : A → Bool}
      → Leads true op (λ _. true)
      → Leads true failed f
      → Leads true next f
      → Leads true (stage op failed next) f
  step-Leads = stage-Leads (λ _. true)

-- A method keeps the cursor tidy, open or not.
pub record Ends {A : Type 0} (m : Do A) : Type 0 where
  pub from : (a : Api) (b : Bool) → IsTidy b a.cursor → (c : Bool) × IsTidy c (m a).1.cursor

module _ {A : Type 0} where
  pub Leads-Ends : {m : Do A} {f : Bool → A → Bool} → ((b : Bool) → Leads b m (f b)) → Ends m
  Leads-Ends {m} {f} h = record { from = λ a b t. (f b (m a).0, (h b).at a t) }

  pub pure-Ends : (a : A) → Ends (pure a)
  unfolding pure
  pure-Ends x = record { from = λ a b t. (b, t) }

  pub bind-Ends :
      {B : Type 0} {m : Do B} {k : B → Do A} → Ends m → ((x : B) → Ends (k x)) → Ends (m >>= k)
  unfolding ◌>>=◌
  bind-Ends {m} hm hk = record {
    from = λ a b t. let (c, u) = hm.from a b t in (hk (m a).0).from (m a).1 c u;
  }

  pub seq-Ends : {m : Do (Unit {0})} {k : Do A} → Ends m → Ends k → Ends (m >> k)
  unfolding ◌>>◌
  seq-Ends {m} hm hk = record { from = λ a b t. let (c, u) = hm.from a b t in hk.from (m a).1 c u }

  pub when-Ends : (c : Bool) {m k : Do A} → Ends m → Ends k → Ends (when c run m otherwise k)
  unfolding when◌run◌otherwise◌
  when-Ends true hm hk = record { from = hm.from }
  when-Ends false hm hk = record { from = hk.from }

  pub stage-Ends :
      {op : Do ℤ} {failed next : Do A}
      → Ends op
      → Ends failed
      → Ends next
      → Ends (stage op failed next)
  unfolding stage
  stage-Ends hop hf hn = bind-Ends hop (λ r. when-Ends (is_neg r) hf hn)

pub set_operation-Leads : {b : Bool} (o : Operation) → Leads b (set_operation o) (λ _. b)
unfolding set_operation
set_operation-Leads o = record { at = λ a t. t }

pub get_api-Leads : {b : Bool} → Leads b get_api (λ _. b)
unfolding get_api
get_api-Leads = record { at = λ a t. t }

pub commit_conn-Leads : {b : Bool} → Leads b commit_conn (λ _. b)
unfolding commit_conn
commit_conn-Leads = record { at = λ a t. ground arith }

pub rollback_conn-Leads : {b : Bool} → Leads b rollback_conn (λ _. b)
unfolding rollback_conn
rollback_conn-Leads = record { at = λ a t. ground arith }

module _ (client : Client) where
  pub open_api-Leads : Leads false (open_api client) (λ r. not (is_neg r))
  unfolding open_api on_cursor
  open_api-Leads = record { at = λ a t. open_cur-Takes client (some a.conn) a.cursor t }

  pub close-Leads : {b : Bool} → Leads b (on_cursor (close_cur client)) (λ _. false)
  close-Leads {b} = cursor-Leads (close_cur client) (close_cur-Takes client b)

  pub info-Leads : {b : Bool} → Leads b (on_cursor (get_stmt_err_info client)) (λ _. b)
  info-Leads {b} = cursor-Leads (get_stmt_err_info client) (get_stmt_err_info-Keeps client b)

  module _ {A : Type 0} {b : Bool} {k : Do A} {f : A → Bool} where
    -- `m_cursor.closeCur();` and what follows.
    pub close_then : Leads false k f → Leads b (on_cursor (close_cur client) >>= λ _. k) f
    close_then h = bind-Leads (λ _. false) close-Leads (λ _. h)

  pub close_fail-Leads :
      {b : Bool} {f : ℤ → Bool} → f (negsuc 0) ≡ false → Leads b (close_fail client) f
  unfolding close_fail
  close_fail-Leads e = close_then (pure-Leads _ e)

  pub report_fail-Leads :
      {b : Bool} {f : ℤ → Bool} → f (negsuc 0) ≡ false → Leads b (report_fail client) f
  unfolding report_fail
  report_fail-Leads {b} e = bind-Leads (λ _. b) info-Leads (λ _. close_fail-Leads e)

  prepare-Leads : (sql : CStr) → Leads true (on_cursor (prepare client sql)) (λ _. true)
  prepare-Leads sql = cursor-Leads (prepare client sql) (prepare-Keeps client sql)

  pub execute-Leads : (select : Bool) → Leads true (on_cursor (execute client select)) (λ _. true)
  execute-Leads select = cursor-Leads (execute client select) (execute-Keeps client select)

  define-Leads : Leads true (on_cursor (define client)) (λ _. true)
  define-Leads = cursor-Leads (define client) (define-Keeps client)

  fetch-Leads : Leads true (on_cursor (fetch client)) (λ _. true)
  fetch-Leads = cursor-Leads (fetch client) (fetch-Keeps client)

  -- A statement is open exactly if inSetSql returns 0.
  pub in_set_sql-Leads :
      {b : Bool} (sql : CStr) → Leads b (in_set_sql client sql) (λ r. not (is_neg r))
  unfolding in_set_sql
  in_set_sql-Leads sql = seq-Leads (set_operation-Leads statement) (
      close_then (
        stage-Leads not open_api-Leads (pure-Leads _ refl)
          (step-Leads (prepare-Leads sql) (report_fail-Leads refl) (pure-Leads _ refl))))

  pub in_exec-Leads : (is_commit : Bool) → Leads true (in_exec client is_commit) (λ _. false)
  unfolding in_exec
  in_exec-Leads is_commit = seq-Leads (set_operation-Leads statement) (
      step-Leads (execute-Leads false)
        (bind-Leads (λ _. true) info-Leads
          (λ _. seq-Leads rollback_conn-Leads (close_fail-Leads refl)))
        (seq-Leads (when-Leads is_commit commit_conn-Leads (pure-Leads tt {f = λ _. true} refl))
          (close_then (pure-Leads _ refl))))

  -- A method that starts with openCur returns at once while the statement is open.
  starting :
      {A : Type 0} (b : Bool) (r : A) (next : Do A)
      → Leads true next (λ _. false)
      → Leads b (stage (open_api client) (pure r) next) (λ _. b)
  unfolding stage open_api on_cursor pure ◌>>=◌ when◌run◌otherwise◌
  starting true r next h = record {
    at = λ a t. rw (open_cur_again client (some a.conn) a.cursor t) t;
  }
  starting false r next h = unfold pure in stage-Leads not open_api-Leads (pure-Leads r refl) h

  -- report_fail with a second component.
  report_pair :
      {B : Type 0} (r : B)
      → Leads {A = ℤ × B} true (report_fail client >>= λ c. pure (c, r)) (λ _. false)
  report_pair r = bind-Leads (λ _. false) (report_fail-Leads refl) (λ c. pure-Leads (c, r) refl)

  pub execute_sql-Leads :
      {b : Bool} (sql : CStr) (wants_count is_commit : Bool)
      → Leads b (execute_sql client sql wants_count is_commit) (λ _. b)
  unfolding execute_sql
  execute_sql-Leads {b} sql wants_count is_commit = seq-Leads (set_operation-Leads statement) (
      starting b _ _ (
        step-Leads (prepare-Leads sql) (report_pair none) (
          step-Leads (execute-Leads false) (seq-Leads rollback_conn-Leads (report_pair none)) (
            bind-Leads (λ _. true)
              (when-Leads wants_count
                (bind-Leads (λ _. true) (cursor-Leads (affect_rec client) (affect_rec-Keeps client))
                  (λ r. pure-Leads (some r) refl))
                (pure-Leads none refl))
              (λ n.
                seq-Leads
                  (when-Leads is_commit commit_conn-Leads (pure-Leads tt {f = λ _. true} refl))
                  (close_then (pure-Leads (pos 0, n) refl)))))))

  pub get_rec-Leads : {b : Bool} (sql : CStr) → Leads b (get_rec client sql) (λ _. b)
  unfolding get_rec
  get_rec-Leads {b} sql = seq-Leads (set_operation-Leads statement) (
      starting b _ _ (
        step-Leads (prepare-Leads sql) (report_pair none) (
          step-Leads define-Leads (report_pair none) (
            step-Leads (execute-Leads true) (report_pair none) (
              bind-Leads (λ _. true) fetch-Leads
                (λ n.
                  when-Leads (n == 0)
                    (bind-Leads (λ _. true) get_api-Leads (λ a. close_then (pure-Leads _ refl)))
                    (bind-Leads (λ _. false) (report_fail-Leads refl)
                      (λ _.
                        bind-Leads (λ _. false)
                          (cursor-Leads (is_stmt_result_no_data n)
                            (is_stmt_result_no_data-Keeps client false n))
                          (λ c. pure-Leads _ refl)))))))))

  close_false-Leads : Leads true (close_false client) (λ _. false)
  close_false-Leads = close_then (pure-Leads false refl)

  pub is_table-Leads : {b : Bool} (tab_name : CStr) → Leads b (is_table client tab_name) (λ _. b)
  unfolding is_table
  is_table-Leads {b} tab_name = seq-Leads (set_operation-Leads statement) (
      starting b _ _ (
        step-Leads (prepare-Leads (show_tables client tab_name)) close_false-Leads (
          step-Leads define-Leads close_false-Leads (
            step-Leads (execute-Leads true) close_false-Leads
              (bind-Leads (λ _. true) fetch-Leads (λ n. close_then (pure-Leads _ refl)))))))

  -- Whatever was open, checkSql leaves nothing open.
  pub check_sql-Leads : {b : Bool} (sql : CStr) → Leads b (check_sql client sql) (λ _. false)
  unfolding check_sql
  check_sql-Leads {b} sql = seq-Leads (set_operation-Leads statement) (
      stage-Leads not (in_set_sql-Leads sql)
        (bind-Leads (λ _. false) info-Leads (λ _. close_then (pure-Leads false refl)))
        (close_then (pure-Leads true refl)))
