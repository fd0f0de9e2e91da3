-- ===== src/Mysql/Api/Tests.antt =====
-- The methods of mysqlapi (src/mysqlapi.cpp) with a library that always answers 0.
use dbsqlapi.Prelude.{ℕ, true, false, some, [], ◌∷◌, CStr, codes, List}
use dbsqlapi.Mysql.Connection.{MysqlConnect, connected, is_connect}
use dbsqlapi.Mysql.Connection
use dbsqlapi.Mysql.Prepared.{FldVal, system, no_val}
use dbsqlapi.Value.{sql_int}
use dbsqlapi.Mysql.Client.{Client, History, StmtOp, op_param_count}
use dbsqlapi.Mysql.Client.Protocol.{IsLegal}
use dbsqlapi.Mysql.Api.{Api, new_api}
use dbsqlapi.Mysql.Api.Statements.{execute_sql}
use dbsqlapi.Mysql.Api.Load.{long_binary, transfer_bin_data, set_long_fld}
use dbsqlapi.Mysql.Api.Execute.{ph_execute}
use dbsqlapi.Mysql.Api.Atomic.{Counts, Atomic, AtomicPair, execute_sql-Atomic}
use dbsqlapi.Mysql.Api.AtomicParms.{ph_execute-Atomic, set_long_fld-Atomic}
use dbsqlapi.Mysql.Api.Requests.{
  Request, connects, begins_load, transfers, ends_load, gets_err, sets_int, run_requests,
}
use dbsqlapi.Mysql.Api.Session.{new_api-IsTidy, transfer_unopened}

abbrev answers : StmtOp → History → ℕ
answers op h = elim op [ op_param_count ↦ 1 | _ ↦ 0 ]

abbrev obliging : Client
obliging = record {
  new_stmt = λ h. 9;
  closes_badly = λ h. false;
  answer = answers;
  error_text = λ h. [];
  metadata = λ h. 5;
  num_fields = λ h. 1;
  num_rows = λ h. 1;
  fields = λ h. [];
  row = λ h. [];
}

abbrev insert : CStr
insert = codes "insert into t values(:x)"

abbrev up : Api
up = record (new_api false []) { conn = record { db_state = connected; transaction = false } }

abbrev load : List Request
load =
    connects true (codes "u") (codes "p") (codes "h")
    ∷ begins_load (some (codes "?")) long_binary
    ∷ transfers 40 3
    ∷ ends_load true
    ∷ sets_int 1 40
    ∷ gets_err 0
    ∷ []

abbrev after_load : Api
after_load = run_requests obliging load (new_api true [])

transfer_unopened_example :
    ¬ IsLegal (transfer_bin_data obliging 40 3 (new_api true [])).1.cursor.calls
transfer_unopened_example =
    transfer_unopened obliging (new_api true []) 40 3 (new_api-IsTidy obliging true [])

execute_sql-Atomic_example :
    Counts (execute_sql obliging insert true true) (AtomicPair obliging true) up
execute_sql-Atomic_example = execute_sql-Atomic obliging insert true true up

abbrev bound : FldVal
bound = record { data_type = sql_int; len = 0; data_len = 0; data_ptr = 40 }

abbrev ready : Api
ready = record up {
  prep = record { now_operation = system; sql = insert; fld_vals = bound ∷ no_val ∷ [] };
}

ph_execute-Atomic_example : Counts (ph_execute obliging (λ p. 0) true) (Atomic true) ready
ph_execute-Atomic_example = ph_execute-Atomic obliging true (λ p. 0) ready

set_long_fld-Atomic_example :
    Counts (set_long_fld obliging (some insert) 40 3 0 long_binary true) (Atomic true) up
set_long_fld-Atomic_example = set_long_fld-Atomic obliging true (some insert) 40 3 0 long_binary up
