-- ===== src/Mysql/Connection/Balance.antt =====
-- Which connections a mysql_connect of src/mysqlapi.cpp opens and closes.
use dbsqlapi.Prelude.{ℕ, suc, ◌+◌, ◌≡◌, Bool, List, [], ◌∷◌, ◌++◌, arith, if◌then◌else◌}
use dbsqlapi.Mysql.Connection.{
  MysqlConnect, Event, opened, closed, committed, rolled_back, is_connected, connect, disconnect,
  destroy, begin_trans, commit_trans, rollback_trans, set_no_connct,
}

-- The calls of an application on one connection; a `connect` comes with the server's answer.
pub data Call : Type 0 where
  call_connect : Bool → Call
  call_disconnect call_set_no_connct call_begin call_commit call_rollback : Call

pub run_call : Call → MysqlConnect → MysqlConnect × List Event
run_call (call_connect answer) c = ((connect answer c).1, (connect answer c).2)
run_call call_disconnect c = ((disconnect c).1, (disconnect c).2)
run_call call_set_no_connct c = (set_no_connct c, [])
run_call call_begin c = begin_trans c
run_call call_commit c = commit_trans c
run_call call_rollback c = rollback_trans c

unfoldable pub run_calls : List Call → MysqlConnect → MysqlConnect × List Event
run_calls [] c = (c, [])
run_calls (k ∷ ks) c =
    let rest = run_calls ks (run_call k c).0 in (rest.0, (run_call k c).1 ++ rest.1)

abbrev pub opens : List Event → ℕ
opens [] = 0
opens (opened ∷ es) = suc (opens es)
opens (closed ∷ es) = opens es
opens (committed ∷ es) = opens es
opens (rolled_back ∷ es) = opens es

abbrev pub closes : List Event → ℕ
closes [] = 0
closes (closed ∷ es) = suc (closes es)
closes (opened ∷ es) = closes es
closes (committed ∷ es) = closes es
closes (rolled_back ∷ es) = closes es

-- 1 while the connection is open.
abbrev pub held : MysqlConnect → ℕ
held c = if is_connected c.db_state then 1 else 0

-- The connections that setNoConnct gives up without closing them.
abbrev pub given_up : Call → MysqlConnect → ℕ
given_up call_set_no_connct c = held c
given_up (call_connect answer) c = 0
given_up call_disconnect c = 0
given_up call_begin c = 0
given_up call_commit c = 0
given_up call_rollback c = 0

unfoldable pub all_given_up : List Call → MysqlConnect → ℕ
all_given_up [] c = 0
all_given_up (k ∷ ks) c = given_up k c + all_given_up ks (run_call k c).0

opens-append : (xs ys : List Event) → opens (xs ++ ys) ≡ opens xs + opens ys
opens-append [] ys = omega arith
opens-append (opened ∷ xs) ys = omega (arith, opens-append xs ys)
opens-append (closed ∷ xs) ys = opens-append xs ys
opens-append (committed ∷ xs) ys = opens-append xs ys
opens-append (rolled_back ∷ xs) ys = opens-append xs ys

closes-append : (xs ys : List Event) → closes (xs ++ ys) ≡ closes xs + closes ys
closes-append [] ys = omega arith
closes-append (closed ∷ xs) ys = omega (arith, closes-append xs ys)
closes-append (opened ∷ xs) ys = closes-append xs ys
closes-append (committed ∷ xs) ys = closes-append xs ys
closes-append (rolled_back ∷ xs) ys = closes-append xs ys

run_call-balance :
    (k : Call) (c : MysqlConnect)
    → opens (run_call k c).1 + held c
      ≡ closes (run_call k c).1 + held (run_call k c).0 + given_up k c
unfolding set_no_connct run_call connect disconnect begin_trans commit_trans rollback_trans
run_call-balance (call_connect answer) c = ground arith
run_call-balance call_disconnect c = ground arith
run_call-balance call_set_no_connct c = ground arith
run_call-balance call_begin c = ground arith
run_call-balance call_commit c = ground arith
run_call-balance call_rollback c = ground arith

destroy-closes : (c : MysqlConnect) → closes (destroy c) ≡ held c
unfolding destroy disconnect
destroy-closes c = ground arith

-- Over any sequence of connect, disconnect, setNoConnct, beginTrans, commitTrans and rollbackTrans, whatever
-- the server answers, the client library has opened as many connections as it has closed, one more while
-- the object is connected, and one more for each setNoConnct on a connected object, which gives the
-- connection up without closing it; the destructor closes the one that is left.
pub run_calls-balance :
    (ks : List Call) (c : MysqlConnect)
    → (opens (run_calls ks c).1 + held c
        ≡ closes (run_calls ks c).1 + held (run_calls ks c).0 + all_given_up ks c)
      × (closes (destroy (run_calls ks c).0) ≡ held (run_calls ks c).0)
unfolding run_calls all_given_up
run_calls-balance [] c = (omega arith, destroy-closes c)
run_calls-balance (k ∷ ks) c =
    let step = run_call-balance k c in
    let rest = run_calls-balance ks (run_call k c).0 in
    (
      omega (
        arith,
        step,
        rest.0,
        opens-append (run_call k c).1 (run_calls ks (run_call k c).0).1,
        closes-append (run_call k c).1 (run_calls ks (run_call k c).0).1,
      ),
      rest.1,
    )
