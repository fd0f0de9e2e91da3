-- ===== src/Oracle/Connection/Tests.antt =====
-- Connections of src/oracleapi.cpp with a library that always answers 0, and with one that does not start.
use dbsqlapi.Prelude.{◌≡◌, refl, true, false, none, List, [], ◌∷◌, codes, arith}
use dbsqlapi.Heap.{null}
use dbsqlapi.State.{pure, ◌>>=◌, when◌run◌otherwise◌}
use dbsqlapi.Oracle.Connection.{
  HandleKind, envhp, OciClient, DbConnect, new_connect, set_no_connct, connect, destroy, log_on,
  attempt, ask, alloc_handle, init_handle, on_handle, set_from, begin_session, attach_server,
  set_connected,
}
use dbsqlapi.Oracle.Connection.Handles.{held, IsLegal}
use dbsqlapi.Oracle.Connection.Session.{
  Request, connects, disconnects, begins, rolls_back, asks_err, run_requests, destroy-freed,
}
use dbsqlapi.Oracle.Connection.Lost.{connect_loses, connect_frees_stray}

abbrev obliging : OciClient
obliging = record {
  fails = λ x h. false;
  alloc_failing = λ k h. false;
  new_handle = λ k h. 7;
  error_code = λ h. 3113;
  error_text = λ h old. old;
}

abbrev day : List Request
day =
    connects (codes "scott") (codes "tiger") none
    ∷ begins
    ∷ asks_err
    ∷ rolls_back
    ∷ disconnects
    ∷ connects (codes "scott") (codes "tiger") none
    ∷ []

destroy-freed_example :
    let h =
      (destroy obliging (run_requests obliging day (new_connect (λ k. null) true []))).1.calls in
    IsLegal h × ((k : HandleKind) → held h k ≡ null)
destroy-freed_example = destroy-freed obliging true [] day

-- A connection as it is after a connect.
abbrev up : DbConnect
up = (connect obliging (codes "scott") (codes "tiger") none (new_connect (λ k. null) false [])).1

up_held : held up.calls envhp ≡ 7
unfolding connect log_on new_connect attempt ask alloc_handle init_handle on_handle set_from
    begin_session attach_server set_connected pure ◌>>=◌ when◌run◌otherwise◌
up_held = refl

connect_loses_example :
    ¬ IsLegal (connect obliging (codes "scott") (codes "tiger") none (set_no_connct up).1).1.calls
connect_loses_example =
    connect_loses obliging (codes "scott") (codes "tiger") none up (omega (arith, up_held)) refl
      refl

-- A library that does not start.
abbrev absent : OciClient
absent = record obliging { fails = λ x h. true }

connect_frees_stray_example :
    ¬ IsLegal (connect absent [] [] none (new_connect (λ k. 99) false [])).1.calls
connect_frees_stray_example =
    connect_frees_stray absent [] [] none (λ k. 99) false [] (omega arith) refl
