-- ===== src/Mysql/Api/Atomic.antt =====
-- When the methods of mysqlapi (src/mysqlapi.cpp) commit and roll back.
use dbsqlapi.Prelude.{
  ℕ, ◌+◌, ◌≤◌, ◌≡◌, Bool, true, false, Option, none, some, CStr, ℤ, pos, negsuc, is_neg, arith,
  if◌then◌else◌,
}
use dbsqlapi.State.{pure, ◌>>=◌, ◌>>◌, when◌run◌otherwise◌, stage}
use dbsqlapi.Mysql.Prepared.{statement}
use dbsqlapi.Mysql.Client.{Client}
use dbsqlapi.Mysql.Cursor.Statement.{affect_rec}
use dbsqlapi.Mysql.Api.{Api, Do, commit_conn, rollback_conn}
use dbsqlapi.Mysql.Api.Statements.{close_fail, report_fail, in_exec, execute_sql}
use dbsqlapi.Mysql.Api.Quiet.{
  commits, rollbacks, Quiet, act-Quiet, affect_rec_quiet, bind-Quiet, close-Quiet, close_fail-Quiet,
  execute-Quiet, info-Quiet, open_api-Quiet, prepare-Quiet, pure-Quiet, report_fail-Quiet,
  set_operation-Quiet, when-Quiet,
}

-- `c` commits and `d` rollbacks.
pub record Counts {A : Type 0} (m : Do A) (P : ℕ → ℕ → A → Type 0) (a : Api) : Type 0 where
  pub c : ℕ
  pub d : ℕ
  pub commit_count : commits (m a).1.cursor.calls ≡ c + commits a.cursor.calls
  pub rollback_count : rollbacks (m a).1.cursor.calls ≡ d + rollbacks a.cursor.calls
  pub fits : P c d (m a).0

-- A method that returns 0 has committed exactly if it was asked to, and has rolled back nothing; one that
-- fails has committed nothing, and has rolled back at most once.
abbrev pub Atomic : Bool → ℕ → ℕ → ℤ → Type 0
Atomic is_commit c d (pos n) = (c ≡ (if is_commit then 1 else 0)) × (d ≡ 0)
Atomic is_commit c d (negsuc n) = (c ≡ 0) × (d ≤ 1)

pub record IsAtomic {A : Type 0} (P : ℕ → ℕ → A → Type 0) (m : Do A) : Type 0 where
  pub count_from : (a : Api) → Counts m P a

module _ {A : Type 0} where
  module _ {P : ℕ → ℕ → A → Type 0} where
    pub Quiet-Atomic : {m : Do A} → Quiet m → ((a : Api) → P 0 0 (m a).0) → IsAtomic P m
    Quiet-Atomic h p = record {
      count_from = λ a. record {
        c = 0;
        d = 0;
        commit_count = omega (arith, (h.same a).0);
        rollback_count = omega (arith, (h.same a).1);
        fits = p a;
      };
    }

    pub bind-Atomic :
        {B : Type 0} {m : Do B} {k : B → Do A}
        → Quiet m
        → ((x : B) → IsAtomic P (k x))
        → IsAtomic P (m >>= k)
    unfolding ◌>>=◌
    bind-Atomic {m} hm hk = record {
      count_from = λ a.
          let x = hm.same a in
          let y = (hk (m a).0).count_from (m a).1 in
          record {
            c = y.c;
            d = y.d;
            commit_count = omega (arith, x.0, y.commit_count);
            rollback_count = omega (arith, x.1, y.rollback_count);
            fits = y.fits;
          };
    }

    pub seq-Atomic : {m : Do (Unit {0})} {k : Do A} → Quiet m → IsAtomic P k → IsAtomic P (m >> k)
    unfolding ◌>>◌ ◌>>=◌
    seq-Atomic {m} hm hk = record { count_from = (bind-Atomic hm (λ _. hk)).count_from }

    pub when-Atomic :
        (b : Bool) {m k : Do A}
        → IsAtomic P m
        → IsAtomic P k
        → IsAtomic P (when b run m otherwise k)
    unfolding when◌run◌otherwise◌
    when-Atomic true hm hk = record { count_from = hm.count_from }
    when-Atomic false hm hk = record { count_from = hk.count_from }

    pub stage-Atomic :
        {op : Do ℤ} {m k : Do A}
        → Quiet op
        → IsAtomic P m
        → IsAtomic P k
        → IsAtomic P (stage op m k)
    unfolding stage
    stage-Atomic ho hm hk = bind-Atomic ho (λ r. when-Atomic (is_neg r) hm hk)

    pub rolled_back-Atomic :
        {m : Do A} → Quiet m → ((a : Api) → P 0 1 (m a).0) → IsAtomic P (rollback_conn >> m)
    unfolding rollback_conn ◌>>◌
    rolled_back-Atomic h p = record {
      count_from = λ a.
          let x = h.same (rollback_conn a).1 in
          record {
            c = 0;
            d = 1;
            commit_count = omega (arith, x.0);
            rollback_count = omega (arith, x.1);
            fits = p (rollback_conn a).1;
          };
    }

    pub commit_if-Atomic :
        (b : Bool) {m : Do A}
        → Quiet m
        → ((a : Api) → P (if b then 1 else 0) 0 (m a).0)
        → IsAtomic P ((when b run commit_conn otherwise pure tt) >> m)
    unfolding commit_conn ◌>>◌ pure when◌run◌otherwise◌
    commit_if-Atomic true h p = record {
      count_from = λ a.
          let x = h.same (commit_conn a).1 in
          record {
            c = 1;
            d = 0;
            commit_count = omega (arith, x.0);
            rollback_count = omega (arith, x.1);
            fits = p (commit_conn a).1;
          };
    }
    commit_if-Atomic false h p = record { count_from = λ a. (Quiet-Atomic h p).count_from a }

module _ (client : Client) where
  module _ (is_commit : Bool) where
    pub fail-Atomic : IsAtomic (Atomic is_commit) (pure (negsuc 0))
    unfolding pure
    fail-Atomic = Quiet-Atomic (pure-Quiet (negsuc 0)) (λ a. omega arith)

    pub report_fail-Atomic : IsAtomic (Atomic is_commit) (report_fail client)
    unfolding report_fail close_fail pure ◌>>=◌
    report_fail-Atomic = Quiet-Atomic (report_fail-Quiet client) (λ a. omega arith)

    pub close_fail-Atomic : IsAtomic (Atomic is_commit) (close_fail client)
    unfolding close_fail pure ◌>>=◌
    close_fail-Atomic = Quiet-Atomic (close_fail-Quiet client) (λ a. omega arith)

  pub in_exec-Atomic : (is_commit : Bool) → IsAtomic (Atomic is_commit) (in_exec client is_commit)
  unfolding in_exec
  in_exec-Atomic is_commit = seq-Atomic (set_operation-Quiet client statement) (
      stage-Atomic (execute-Quiet client)
        (bind-Atomic (info-Quiet client) (λ _.
          rolled_back-Atomic (close_fail-Quiet client)
            (unfold close_fail pure ◌>>=◌ in λ a. omega arith)))
        (commit_if-Atomic is_commit (bind-Quiet (close-Quiet client) (λ _. pure-Quiet (pos 0)))
          (unfold pure ◌>>=◌ in λ a. omega arith)))

  abbrev pub AtomicPair : Bool → ℕ → ℕ → ℤ × Option ℤ → Type 0
  AtomicPair is_commit c d r = Atomic is_commit c d r.0

  report_pair-Quiet : Quiet {A = ℤ × Option ℤ} (report_fail client >>= λ c. pure (c, none))
  report_pair-Quiet = bind-Quiet (report_fail-Quiet client) (λ c. pure-Quiet (c, none))

  pub report_pair-Atomic :
      (is_commit : Bool)
      → IsAtomic {A = ℤ × Option ℤ}
          (AtomicPair is_commit)
          (report_fail client >>= λ c. pure (c, none))
  unfolding report_fail close_fail pure ◌>>=◌
  report_pair-Atomic is_commit = Quiet-Atomic report_pair-Quiet (λ a. omega arith)

  -- executeSql commits exactly if it returns 0 and was asked to, and rolls back nothing then; where it
  -- returns -1 it has committed nothing, and has rolled back at most once.
  pub execute_sql-Atomic :
      (sql : CStr) (wants_count is_commit : Bool) (a : Api)
      → Counts (execute_sql client sql wants_count is_commit) (AtomicPair is_commit) a
  unfolding execute_sql
  execute_sql-Atomic sql wants_count is_commit a =
      (seq-Atomic {P = AtomicPair is_commit} (set_operation-Quiet client statement) (
          stage-Atomic (open_api-Quiet client)
            (Quiet-Atomic (pure-Quiet (negsuc 0, none)) (unfold pure in λ b. omega arith))
            (stage-Atomic (prepare-Quiet client sql) (report_pair-Atomic is_commit) (
              stage-Atomic (execute-Quiet client)
                (rolled_back-Atomic report_pair-Quiet
                  (unfold report_fail close_fail pure ◌>>=◌ in λ b. omega arith))
                (bind-Atomic
                  (when-Quiet wants_count
                    (bind-Quiet (act-Quiet (affect_rec client) (affect_rec_quiet client))
                      (λ r. pure-Quiet (some r)))
                    (pure-Quiet none))
                  (λ n.
                    commit_if-Atomic is_commit
                      (bind-Quiet (close-Quiet client) (λ _. pure-Quiet (pos 0, n)))
                      (unfold pure ◌>>=◌ in λ b. omega arith))))))).count_from
        a
