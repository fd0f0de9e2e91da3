-- ===== src/Mysql/Api/AtomicParms.antt =====
-- When the methods of mysqlapi (src/mysqlapi.cpp) that execute a statement with parameters commit and roll
-- back.
use dbsqlapi.Prelude.{
  ℕ, suc, ◌≡◌, refl, Bool, true, false, Option, none, some, List, [], ◌∷◌, CStr, ℤ, pos, negsuc,
  is_neg, arith, ◌==◌,
}
use dbsqlapi.Heap.{Ptr, null}
use dbsqlapi.State.{pure, ◌>>=◌, ◌>>◌, when◌run◌otherwise◌, stage}
use dbsqlapi.Mysql.Connection.{is_connect}
use dbsqlapi.Mysql.Prepared.{statement, FldVal, Prep, Bind, bind_of}
use dbsqlapi.Mysql.Client.{Client, op_send_long_data}
use dbsqlapi.Mysql.Cursor.Parms.{bind_pos, bind_large_parm}
use dbsqlapi.Mysql.Api.{Api, Do, on_cursor, set_prep, get_api}
use dbsqlapi.Mysql.Api.Statements.{close_fail, report_fail, in_exec}
use dbsqlapi.Mysql.Api.Load.{
  LongType, long_binary, long_text, long_other, stage_zero, send_long, open_parms, set_long_fld,
  mysql_type_blob, mysql_type_string,
}
use dbsqlapi.Mysql.Api.Quiet.{
  Quiet, act-Quiet, allocate-Quiet, ask_quiet, bind-Quiet, bind_parm-Quiet, bind_pos_quiet,
  close_fail-Quiet, prepare_own-Quiet, pure-Quiet, report_fail-Quiet, seq-Quiet,
  set_operation-Quiet, set_sql-Quiet, then_phfree-Quiet, when-Quiet,
}
use dbsqlapi.Mysql.Api.Execute.{bind_fields, then_phfree, ph_execute}
use dbsqlapi.Mysql.Api.Atomic.{
  Counts, Atomic, IsAtomic, bind-Atomic, close_fail-Atomic, fail-Atomic, in_exec-Atomic,
  Quiet-Atomic, report_fail-Atomic, seq-Atomic, stage-Atomic, when-Atomic,
}

get_api-Quiet : Quiet get_api
unfolding get_api
get_api-Quiet = record { same = λ a. (refl, refl) }

set_prep-Quiet : (g : Prep → Prep) → Quiet (set_prep g)
unfolding set_prep
set_prep-Quiet g = record { same = λ a. (refl, refl) }

field-Quiet :
    {m : Do Bool} {k : Bind → Do Bool} (o : Option Bind)
    → Quiet m
    → ((x : Bind) → Quiet (k x))
    → Quiet (elim o [ none ↦ m | some x ↦ k x ])
field-Quiet none hm hk = hm
field-Quiet (some x) hm hk = hk x

bind_fields-Quiet :
    (strlen_at : Ptr → ℕ) (i : ℕ) (vs : List FldVal) → Quiet (bind_fields strlen_at i vs)
unfolding bind_fields
bind_fields-Quiet strlen_at i [] = pure-Quiet true
bind_fields-Quiet strlen_at i (v ∷ vs) = when-Quiet (v.data_ptr == null) (pure-Quiet true) (
    field-Quiet (bind_of v) (pure-Quiet false) (λ x. seq-Quiet (set_prep-Quiet _) (
      bind-Quiet (act-Quiet (bind_pos i _) (bind_pos_quiet i _))
        (λ _. bind_fields-Quiet strlen_at (suc i) vs))))

module _ (client : Client) where
  zero-Atomic :
      {P : ℕ → ℕ → ℤ → Type 0} {op : Do ℕ} {m k : Do ℤ}
      → Quiet op
      → IsAtomic P m
      → IsAtomic P k
      → IsAtomic P (stage_zero client op m k)
  zero-Atomic ho hm hk = bind-Atomic ho (λ r. when-Atomic (r == 0) hk hm)

  -- inExec and what comes after it, which neither commits nor rolls back.
  in_exec_then :
      (is_commit : Bool) (k : Do ℤ)
      → Quiet k
      → ((a : Api) → (k a).0 ≡ pos 0)
      → IsAtomic (Atomic is_commit) (stage (in_exec client is_commit) (pure (negsuc 0)) k)
  unfolding stage pure ◌>>=◌ when◌run◌otherwise◌
  in_exec_then is_commit k h zero_is = record {
    count_from = λ a.
        let x = (in_exec-Atomic client is_commit).count_from a in
        let y = h.same (in_exec client is_commit a).1 in
        record {
          c = x.c;
          d = x.d;
          commit_count = ground (arith, x.commit_count, y);
          rollback_count = ground (arith, x.rollback_count, y);
          fits = ground (arith, x.fits, zero_is (in_exec client is_commit a).1);
        };
  }

  large-Quiet : (p : Ptr) (n : ℕ) → Quiet (on_cursor (bind_large_parm client 0 p n))
  unfolding bind_large_parm
  large-Quiet p n =
      act-Quiet (bind_large_parm client 0 p n) (ask_quiet client (op_send_long_data 0 p n))

  module _ (is_commit : Bool) where
    send_long-Atomic :
        (p : Ptr) (buffer_type n : ℕ)
        → IsAtomic (Atomic is_commit) (send_long client p buffer_type n is_commit)
    unfolding send_long
    send_long-Atomic p buffer_type n =
        bind-Atomic (act-Quiet (bind_pos 0 _) (bind_pos_quiet 0 _)) (λ _.
          zero-Atomic (bind_parm-Quiet client) (report_fail-Atomic client is_commit) (
            zero-Atomic (large-Quiet p n) (report_fail-Atomic client is_commit)
              (in_exec_then is_commit _ (pure-Quiet (pos 0)) (unfold pure in λ a. refl))))

    part-Atomic :
        (p : Ptr) (n m : ℕ) (long_type : LongType)
        → IsAtomic (Atomic is_commit) (elim long_type [
          | long_other ↦ close_fail client
          | long_binary ↦ send_long client p mysql_type_blob n is_commit
          | long_text ↦ send_long client p mysql_type_string m is_commit
        ])
    part-Atomic p n m long_binary = send_long-Atomic p _ n
    part-Atomic p n m long_text = send_long-Atomic p _ m
    part-Atomic p n m long_other = close_fail-Atomic client is_commit

    -- setLongFld commits exactly if it returns 0 and was asked to, and rolls back nothing then; where it
    -- returns -1 it has committed nothing, and has rolled back at most once.
    pub set_long_fld-Atomic :
        (sql : Option CStr) (p : Ptr) (n m : ℕ) (long_type : LongType) (a : Api)
        → Counts (set_long_fld client sql p n m long_type is_commit) (Atomic is_commit) a
    unfolding set_long_fld open_parms
    set_long_fld-Atomic sql p n m long_type a =
        (seq-Atomic {P = Atomic is_commit} (set_operation-Quiet client statement) (
            when-Atomic (p == null) (fail-Atomic client is_commit) (
              stage-Atomic (set_sql-Quiet client sql) (fail-Atomic client is_commit) (
                stage-Atomic (prepare_own-Quiet client) (fail-Atomic client is_commit) (
                  stage-Atomic (allocate-Quiet client) (report_fail-Atomic client is_commit)
                    (part-Atomic p n m long_type)))))).count_from
          a

    freed-Atomic :
        (m : Do ℤ)
        → Quiet m
        → ((a : Api) → (m a).0 ≡ negsuc 0)
        → IsAtomic (Atomic is_commit) (then_phfree client m)
    unfolding set_prep pure ◌>>=◌ ◌>>◌
    freed-Atomic m h e = Quiet-Atomic (then_phfree-Quiet client h) (λ a. rw (e a) (omega arith))

    -- Where a step of phExecute fails.
    report_freed : IsAtomic (Atomic is_commit) (then_phfree client (report_fail client))
    unfolding report_fail close_fail pure ◌>>=◌
    report_freed = freed-Atomic (report_fail client) (report_fail-Quiet client) (λ a. refl)

    close_freed : IsAtomic (Atomic is_commit) (then_phfree client (close_fail client))
    unfolding close_fail pure ◌>>=◌
    close_freed = freed-Atomic (close_fail client) (close_fail-Quiet client) (λ a. refl)

    -- phExecute commits exactly if it returns 0 and was asked to, and rolls back nothing then; where it
    -- returns -1 it has committed nothing, and has rolled back at most once.
    pub ph_execute-Atomic :
        (strlen_at : Ptr → ℕ) (a : Api)
        → Counts (ph_execute client strlen_at is_commit) (Atomic is_commit) a
    unfolding ph_execute
    ph_execute-Atomic strlen_at a =
        (bind-Atomic {P = Atomic is_commit} get_api-Quiet (λ b.
            when-Atomic (is_neg (is_connect b.conn)) (fail-Atomic client is_commit) (
              seq-Atomic (set_operation-Quiet client statement) (
                stage-Atomic (prepare_own-Quiet client) (fail-Atomic client is_commit) (
                  stage-Atomic (allocate-Quiet client) report_freed (
                    bind-Atomic get_api-Quiet (λ c.
                      bind-Atomic (bind_fields-Quiet strlen_at 0 c.prep.fld_vals) (λ known.
                        when-Atomic known
                          (zero-Atomic (bind_parm-Quiet client) report_freed (
                            in_exec_then is_commit _ (then_phfree-Quiet client (pure-Quiet (pos 0)))
                              (unfold set_prep pure ◌>>=◌ ◌>>◌ in λ d. refl)))
                          close_freed)))))))).count_from
          a
