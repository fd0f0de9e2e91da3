-- ===== src/Oracle/Connection/Session.antt =====
-- A connection of src/oracleapi.cpp over its life.
use dbsqlapi.Prelude.{◌≡◌, refl, sym, ap, ◌∙◌, Bool, Option, List, [], ◌∷◌, CStr}
use dbsqlapi.Heap.{null}
use dbsqlapi.Oracle.Connection.{
  HandleKind, envhp, svchp, errhp, srvhp, authp, OciClient, DbConnect, new_connect, connect,
  disconnect, destroy, commit_trans, rollback_trans, begin_trans, get_err, get_err_info,
}
use dbsqlapi.Oracle.Connection.Handles.{held, IsLegal, every, Nulls, Left, pick}
use dbsqlapi.Oracle.Connection.Settled.{
  Settled, connect-Settled, disconnect-Settled, disconnect_leaves, commit_trans-Settled,
  rollback_trans-Settled, begin_trans-Settled, get_err-Settled, get_err_info-Settled,
}

-- The public methods but setNoConnct.
pub data Request : Type 0 where
  connects : CStr → CStr → Option CStr → Request
  disconnects begins commits rolls_back asks_err asks_err_info : Request

unfoldable pub run_request : OciClient → Request → DbConnect → DbConnect
run_request client (connects username password hoststring) c =
    (connect client username password hoststring c).1
run_request client disconnects c = (disconnect client c).1
run_request client begins c = (begin_trans client c).1
run_request client commits c = (commit_trans client c).1
run_request client rolls_back c = (rollback_trans client c).1
run_request client asks_err c = (get_err client c).1
run_request client asks_err_info c = (get_err_info client c).1

unfoldable pub run_requests : OciClient → List Request → DbConnect → DbConnect
run_requests client [] c = c
run_requests client (r ∷ rs) c = run_requests client rs (run_request client r c)

module _ (client : OciClient) where
  run_request-Settled : (r : Request) (c : DbConnect) → Settled c → Settled (run_request client r c)
  unfolding run_request
  run_request-Settled (connects username password hoststring) c s =
      (connect-Settled client username password hoststring).at c s
  run_request-Settled disconnects c s = (disconnect-Settled client).at c s
  run_request-Settled begins c s = (begin_trans-Settled client).at c s
  run_request-Settled commits c s = (commit_trans-Settled client).at c s
  run_request-Settled rolls_back c s = (rollback_trans-Settled client).at c s
  run_request-Settled asks_err c s = (get_err-Settled client).at c s
  run_request-Settled asks_err_info c s = (get_err_info-Settled client).at c s

  run_requests-Settled :
      (rs : List Request) (c : DbConnect) → Settled c → Settled (run_requests client rs c)
  unfolding run_requests
  run_requests-Settled [] c s = s
  run_requests-Settled (r ∷ rs) c s =
      run_requests-Settled rs (run_request client r c) (run_request-Settled r c s)

  destroy_leaves : (c : DbConnect) → Settled c → Left every (destroy client c).1
  unfolding destroy
  destroy_leaves c s =
      pick (Left every) c.is_connected (tt, (disconnect client c).1) (tt, c)
        (λ _. disconnect_leaves client c s) (λ e. (s.0, s.1 e))

  Nulls-all : (c : DbConnect) → Nulls every c → (k : HandleKind) → c.handles k ≡ null
  Nulls-all c n envhp = n.0
  Nulls-all c n authp = n.1.0
  Nulls-all c n errhp = n.1.1.0
  Nulls-all c n svchp = n.1.1.1.0
  Nulls-all c n srvhp = n.1.1.1.1.0

  -- Whatever the library answers to any sequence of connect, disconnect, beginTrans, commitTrans,
  -- rollbackTrans, getErr and getErrInfo on a connection whose handles are NULL at first, no handle is made
  -- while there is one of its kind, only handles that are held are freed, and when the object is destroyed,
  -- all are.
  pub destroy-freed :
      (transaction : Bool) (msgbuf : CStr) (rs : List Request)
      → let h =
          (destroy client
            (run_requests client rs (new_connect (λ k. null) transaction msgbuf))).1.calls in
        IsLegal h × ((k : HandleKind) → held h k ≡ null)
  unfolding new_connect
  destroy-freed transaction msgbuf rs =
      let c = run_requests client rs (new_connect (λ k. null) transaction msgbuf) in
      let s =
        run_requests-Settled rs (new_connect (λ k. null) transaction msgbuf)
          (record { same = refl; legal = tt }, λ _. (refl, (refl, (refl, (refl, (refl, tt)))))) in
      let l = destroy_leaves c s in
      let d = (destroy client c).1 in
      (l.0.legal, λ k. ap (λ f. f k) (sym l.0.same) ∙ Nulls-all d l.1 k)
