-- ===== src/Mysql/Api/Quiet.antt =====
-- Which methods of src/mysqlapi.cpp neither commit nor roll back.
use dbsqlapi.Prelude.{
  ℕ, suc, ◌≡◌, refl, Bool, true, false, Option, none, some, [], ◌∷◌, CStr, ℤ, pos, negsuc, is_neg,
  arith,
}
use dbsqlapi.State.{pure, ◌>>=◌, ◌>>◌, when◌run◌otherwise◌, stage}
use dbsqlapi.Mysql.Connection.{MysqlConnect}
use dbsqlapi.Mysql.Prepared.{Operation, statement}
use dbsqlapi.Mysql.Client.{Client, History, StmtOp, commit, rollback, op_bind_param}
use dbsqlapi.Mysql.Cursor.{ParmBind, Act, Traced, emit, change, get_cur}
use dbsqlapi.Mysql.Cursor.Statement.{
  ask, init_stmt, open_cur, free_meta, close_stmt, close_cur, prepare, execute, affect_rec,
}
use dbsqlapi.Mysql.Cursor.Parms.{
  release_parm_bind_struct, bind_pos, get_param_count, allocate_parm_bind_struct, bind_parm,
}
use dbsqlapi.Mysql.Cursor.Message.{get_stmt_err_no, stmt_error, copy_error, get_stmt_err_info}
use dbsqlapi.Mysql.Api.{Api, Do, on_cursor, set_operation, set_prep, get_api}
use dbsqlapi.Mysql.Api.Statements.{open_api, close_fail, report_fail, in_set_sql}
use dbsqlapi.Mysql.Api.Load.{on_prep, set_sql, prepare_own}
use dbsqlapi.Mysql.Api.Execute.{then_phfree}

abbrev pub commits : History → ℕ
commits [] = 0
commits (commit ∷ h) = suc (commits h)
commits (c ∷ h) = commits h

abbrev pub rollbacks : History → ℕ
rollbacks [] = 0
rollbacks (rollback ∷ h) = suc (rollbacks h)
rollbacks (c ∷ h) = rollbacks h

abbrev pub QuietAct : {A : Type 0} → Act A → Type 0
QuietAct m =
    (s : Traced)
    → (commits (m s).1.calls ≡ commits s.calls) × (rollbacks (m s).1.calls ≡ rollbacks s.calls)

module _ (client : Client) where
  pub ask_quiet : (op : StmtOp) → QuietAct (ask client op)
  unfolding ask
  ask_quiet op s = (refl, refl)

  pub prepare_quiet : (sql : CStr) → QuietAct (prepare client sql)
  unfolding prepare ask pure ◌>>=◌ ◌>>◌ when◌run◌otherwise◌
  prepare_quiet sql s = ground arith

  pub execute_quiet : (select : Bool) → QuietAct (execute client select)
  unfolding execute ask pure ◌>>=◌ ◌>>◌ when◌run◌otherwise◌
  execute_quiet select s = ground arith

  pub affect_rec_quiet : QuietAct (affect_rec client)
  unfolding affect_rec ask pure ◌>>=◌
  affect_rec_quiet s = (refl, refl)

  pub open_quiet : (conn : Option MysqlConnect) → QuietAct (open_cur client conn)
  unfolding open_cur init_stmt change get_cur pure ◌>>=◌ ◌>>◌ when◌run◌otherwise◌
  open_quiet none s = (refl, refl)
  open_quiet (some conn) s = ground arith

  pub close_quiet : QuietAct (close_cur client)
  unfolding close_cur free_meta close_stmt change get_cur emit pure ◌>>=◌ ◌>>◌ when◌run◌otherwise◌
  close_quiet s = ground arith

  pub err_no_quiet : QuietAct (get_stmt_err_no client)
  unfolding get_stmt_err_no ask change get_cur pure ◌>>=◌ ◌>>◌ when◌run◌otherwise◌
  err_no_quiet s = ground arith

  pub copy_quiet : QuietAct (copy_error client)
  unfolding copy_error stmt_error change get_cur emit pure ◌>>=◌ ◌>>◌ when◌run◌otherwise◌
  copy_quiet s = ground arith

  pub info_quiet : QuietAct (get_stmt_err_info client)
  unfolding get_stmt_err_info get_cur pure ◌>>=◌ ◌>>◌ when◌run◌otherwise◌
  info_quiet s = ground (arith, err_no_quiet s, copy_quiet (get_stmt_err_no client s).1)

  pub allocate_quiet : QuietAct (allocate_parm_bind_struct client)
  unfolding allocate_parm_bind_struct get_param_count release_parm_bind_struct ask change get_cur
      pure ◌>>=◌ ◌>>◌ when◌run◌otherwise◌
  allocate_quiet s = ground arith

pub bind_pos_quiet : (i : ℕ) (p : ParmBind) → QuietAct (bind_pos i p)
unfolding bind_pos change get_cur emit pure ◌>>=◌ ◌>>◌ when◌run◌otherwise◌
bind_pos_quiet i p s = ground arith

pub record Quiet {A : Type 0} (m : Do A) : Type 0 where
  pub same :
      (a : Api)
      → (commits (m a).1.cursor.calls ≡ commits a.cursor.calls)
        × (rollbacks (m a).1.cursor.calls ≡ rollbacks a.cursor.calls)

module _ {A : Type 0} where
  pub act-Quiet : (m : Act A) → QuietAct m → Quiet (on_cursor m)
  unfolding on_cursor
  act-Quiet m h = record { same = λ a. h a.cursor }

  pub pure-Quiet : (r : A) → Quiet (pure r)
  unfolding pure
  pure-Quiet r = record { same = λ a. (refl, refl) }

  pub bind-Quiet :
      {B : Type 0} {m : Do B} {k : B → Do A} → Quiet m → ((x : B) → Quiet (k x)) → Quiet (m >>= k)
  unfolding ◌>>=◌
  bind-Quiet {m} hm hk = record {
    same = λ a.
        let x = hm.same a in
        let y = (hk (m a).0).same (m a).1 in (omega (arith, x.0, y.0), omega (arith, x.1, y.1));
  }

  pub seq-Quiet : {m : Do (Unit {0})} {k : Do A} → Quiet m → Quiet k → Quiet (m >> k)
  unfolding ◌>>◌ ◌>>=◌
  seq-Quiet {m} hm hk = record { same = (bind-Quiet hm (λ _. hk)).same }

  pub when-Quiet : (b : Bool) {m k : Do A} → Quiet m → Quiet k → Quiet (when b run m otherwise k)
  unfolding when◌run◌otherwise◌
  when-Quiet true hm hk = record { same = hm.same }
  when-Quiet false hm hk = record { same = hk.same }

  pub stage-Quiet : {op : Do ℤ} {m k : Do A} → Quiet op → Quiet m → Quiet k → Quiet (stage op m k)
  unfolding stage
  stage-Quiet ho hm hk = bind-Quiet ho (λ r. when-Quiet (is_neg r) hm hk)

module _ (client : Client) where
  pub open_api-Quiet : Quiet (open_api client)
  unfolding open_api on_cursor
  open_api-Quiet = record { same = λ a. open_quiet client (some a.conn) a.cursor }

  pub close-Quiet : Quiet (on_cursor (close_cur client))
  close-Quiet = act-Quiet (close_cur client) (close_quiet client)

  pub info-Quiet : Quiet (on_cursor (get_stmt_err_info client))
  info-Quiet = act-Quiet (get_stmt_err_info client) (info_quiet client)

  pub close_fail-Quiet : Quiet (close_fail client)
  unfolding close_fail
  close_fail-Quiet = bind-Quiet close-Quiet (λ _. pure-Quiet (negsuc 0))

  pub report_fail-Quiet : Quiet (report_fail client)
  unfolding report_fail
  report_fail-Quiet = bind-Quiet info-Quiet (λ _. close_fail-Quiet)

  pub prepare-Quiet : (sql : CStr) → Quiet (on_cursor (prepare client sql))
  prepare-Quiet sql = act-Quiet (prepare client sql) (prepare_quiet client sql)

  pub execute-Quiet : Quiet (on_cursor (execute client false))
  execute-Quiet = act-Quiet (execute client false) (execute_quiet client false)

  pub set_operation-Quiet : (o : Operation) → Quiet (set_operation o)
  unfolding set_operation
  set_operation-Quiet o = record { same = λ a. (refl, refl) }

  pub in_set_sql-Quiet : (sql : CStr) → Quiet (in_set_sql client sql)
  unfolding in_set_sql
  in_set_sql-Quiet sql = seq-Quiet (set_operation-Quiet statement) (
      bind-Quiet close-Quiet (λ _.
        stage-Quiet open_api-Quiet (pure-Quiet (negsuc 0))
          (stage-Quiet (prepare-Quiet sql) report_fail-Quiet (pure-Quiet (pos 0)))))

  pub then_phfree-Quiet : {m : Do ℤ} → Quiet m → Quiet (then_phfree client m)
  unfolding set_prep
  then_phfree-Quiet h =
      bind-Quiet h (λ r. seq-Quiet (record { same = λ a. (refl, refl) }) (pure-Quiet r))

  pub prepare_own-Quiet : Quiet (prepare_own client)
  unfolding prepare_own get_api
  prepare_own-Quiet =
      bind-Quiet (record { same = λ a. (refl, refl) }) (λ a. in_set_sql-Quiet a.prep.sql)

  pub set_sql-Quiet : (sql : Option CStr) → Quiet (set_sql sql)
  unfolding set_sql on_prep on_cursor emit
  set_sql-Quiet sql = record { same = λ a. ground arith }

  pub allocate-Quiet : Quiet (on_cursor (allocate_parm_bind_struct client))
  allocate-Quiet = act-Quiet (allocate_parm_bind_struct client) (allocate_quiet client)

  pub bind_parm-Quiet : Quiet (on_cursor (bind_parm client))
  unfolding bind_parm
  bind_parm-Quiet = act-Quiet (bind_parm client) (ask_quiet client op_bind_param)
