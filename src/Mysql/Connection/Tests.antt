-- ===== src/Mysql/Connection/Tests.antt =====
-- The laws of a connection (src/mysqlapi.cpp) at concrete servers.
use dbsqlapi.Prelude.{ℕ, List, ◌+◌, ◌≡◌, refl, inr, Bool, true, false, [], ◌∷◌, pos, arith, leb}
use dbsqlapi.Mysql.Connection.{
  not_connected, MysqlConnect, Session, check_con_status, destroy, is_gone,
}
use dbsqlapi.Mysql.Connection.Balance.{
  Call, call_connect, call_set_no_connct, call_begin, all_given_up, run_calls, opens, closes, held,
  run_calls-balance,
}
use dbsqlapi.Mysql.Connection.Retry.{up, check_con_status-restored}

abbrev fresh_connect : MysqlConnect
fresh_connect = record { db_state = not_connected; transaction = false }

abbrev day : List Call
day =
    call_connect false
    ∷ call_connect true
    ∷ call_set_no_connct
    ∷ call_connect true
    ∷ call_begin
    ∷ []

run_calls-balance_example :
    (opens (run_calls day fresh_connect).1 + held fresh_connect
      ≡ closes (run_calls day fresh_connect).1
        + held (run_calls day fresh_connect).0
        + all_given_up day fresh_connect)
    × (closes (destroy (run_calls day fresh_connect).0) ≡ held (run_calls day fresh_connect).0)
run_calls-balance_example = run_calls-balance day fresh_connect

-- An open session whose server has gone (error 2006), with two open queries.
abbrev session : Session
session = record { conn = up; handles = 1 ∷ 2 ∷ []; sleeps = 0 }

-- The server answers from the third round on.
abbrev third : ℕ → Bool
third j = leb 2 j

check_con_status-restored_example :
    check_con_status 2006 5 third session ≡ (pos 2, record { conn = up; handles = []; sleeps = 2 })
unfolding is_gone
check_con_status-restored_example =
    check_con_status-restored 2006 5 2 third session (inr refl) (omega arith) (λ j lt. ground arith)
      (ground arith)
