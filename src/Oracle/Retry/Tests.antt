-- ===== src/Oracle/Retry/Tests.antt =====
-- Retries of src/oracleapi.cpp with a library that does not start.
use dbsqlapi.Prelude.{◌≡◌, ◌⊎◌, false, true, [], ◌∷◌, codes, negsuc, arith}
use dbsqlapi.Heap.{null}
use dbsqlapi.Oracle.Connection.{OciClient, new_connect, get_err}
use dbsqlapi.Oracle.Retry.{Session, check_con_status, is_lost}
use dbsqlapi.Oracle.Retry.Ends.{Ended, check_con_status-Ended}

abbrev absent : OciClient
absent = record {
  fails = λ x h. true;
  alloc_failing = λ k h. true;
  new_handle = λ k h. 7;
  error_code = λ h. 12541;
  error_text = λ h old. codes "no listener";
}

abbrev session : Session
session = record {
  conn = record (new_connect (λ k. null) false []) { is_connected = true };
  username = codes "scott";
  passwd = codes "tiger";
  hostname = codes "db";
  cursors = 4 ∷ 9 ∷ [];
  sleeps = 0;
}

check_con_status-Ended_example :
    let asked = record session { conn = (get_err absent session.conn).1 } in
    let r = check_con_status absent 3 session in
    ((asked.conn.is_connected ≡ true)
      × (is_lost (get_err absent session.conn).0 ≡ false)
      × (r ≡ (negsuc 0, asked)))
    ⊎ (((asked.conn.is_connected ≡ false) ⊎ (is_lost (get_err absent session.conn).0 ≡ true))
        × Ended absent 3 asked r)
check_con_status-Ended_example = check_con_status-Ended absent 3 session (omega arith)
