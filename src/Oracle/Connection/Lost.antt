-- ===== src/Oracle/Connection/Lost.antt =====
-- Handles of src/oracleapi.cpp that are lost, or freed although they were never made.
use dbsqlapi.Prelude.{
  ◌≡◌, ◌≢◌, refl, ◌∙◌, Bool, true, false, Option, [], ◌∷◌, CStr, negsuc, arith, ◌==◌,
}
use dbsqlapi.Heap.{null}
use dbsqlapi.State.{pure, ◌>>=◌, when◌run◌otherwise◌}
use dbsqlapi.Oracle.Connection.{
  HandleKind, envhp, svchp, errhp, srvhp, authp, Handles, oci_initialize, OciClient, DbConnect, Act,
  new_connect, set_no_connct, attempt, free_one, free_handle, ask, alloc_handle, init_handle,
  error_get_text, fail_free, log_on, connect,
}
use dbsqlapi.Oracle.Connection.Handles.{held, IsLegal, Leads, seq-Leads, bind-Leads, pure-Leads}
use dbsqlapi.Oracle.Connection.Broken.{Broken, Broken-Keeps}
use dbsqlapi.Oracle.Connection.Keeps.{later_handles, log_on-Gives}

attempt_goes :
    {A : Type 0} (Q : DbConnect → Type 0) (op : Act Bool) (failed next : Act A) (c : DbConnect)
    → (op c).0 ≡ false
    → Q (next (op c).1).1
    → Q (attempt op failed next c).1
unfolding attempt ◌>>=◌ when◌run◌otherwise◌
attempt_goes Q op failed next c e q = rw e q

module _ (client : OciClient) where
  alloc_doubles :
      (k : HandleKind) (c : DbConnect)
      → held c.calls k ≢ null
      → client.alloc_failing k c.calls ≡ false
      → ((alloc_handle client k c).0 ≡ false) × Broken (alloc_handle client k c).1
  unfolding alloc_handle
  alloc_doubles k c there e = (rw e refl, rw e (λ l. there l.0))

  -- The environment is there, and another one can be made.
  record Doubles (c : DbConnect) : Type 0 where
    there : held c.calls envhp ≢ null
    starts : client.fails oci_initialize c.calls ≡ false
    makes : client.alloc_failing envhp (oci_initialize ∷ c.calls) ≡ false

  init_handle-Broken : Leads Doubles Broken (init_handle client)
  unfolding init_handle ask
  init_handle-Broken = record {
    at = λ c d.
        let c1 = (ask client oci_initialize c).1 in
        let (made, broken) = alloc_doubles envhp c1 d.there d.makes in
        attempt_goes Broken (ask client oci_initialize) _ _ c d.starts (
          attempt_goes Broken (alloc_handle client envhp) _ _ c1 made (
            (later_handles client (Broken-Keeps client)).at (alloc_handle client envhp c1).1
              broken));
  }

  -- After setNoConnct on a connection whose environment is held, a connect for which the library starts and
  -- makes a new environment loses the old one, whatever else the library answers: setNoConnct frees nothing,
  -- and connect writes over the handles.
  pub connect_loses :
      (username password : CStr) (hoststring : Option CStr) (c : DbConnect)
      → held c.calls envhp ≢ null
      → client.fails oci_initialize c.calls ≡ false
      → client.alloc_failing envhp (oci_initialize ∷ c.calls) ≡ false
      → ¬ IsLegal (connect client username password hoststring (set_no_connct c).1).1.calls
  unfolding connect set_no_connct
  connect_loses username password hoststring c there starts makes =
      (log_on-Gives client (Broken-Keeps client) {Q = λ r d. Broken d} (λ d n. n) (λ d n. n)
          username password hoststring init_handle-Broken).at
        (record c { is_connected = false })
        (record { there = there; starts = starts; makes = makes })

  -- The object has a handle of the server that was never made.
  record Stray (c : DbConnect) : Type 0 where
    some_handle : c.handles srvhp ≢ null
    not_made : held c.calls srvhp ≡ null

  free_srvhp-Broken : Leads Stray Broken (free_one srvhp)
  unfolding free_one
  free_srvhp-Broken = record {
    at = λ c s.
        let e : (c.handles srvhp == null) ≡ false = ground (arith, s.some_handle) in
        rw e (λ l. s.some_handle (l.1 ∙ s.not_made));
  }

  fail_free-Stray : Leads Stray Broken (fail_free client)
  unfolding fail_free free_handle error_get_text
  fail_free-Stray =
      bind-Leads _ _
        (record { at = λ c s. record { some_handle = s.some_handle; not_made = s.not_made } })
        (λ _.
          seq-Leads _ _
            (seq-Leads _ _
              (seq-Leads _ _
                (seq-Leads _ _ (seq-Leads _ _ free_srvhp-Broken ((Broken-Keeps client).frees svchp))
                  ((Broken-Keeps client).frees errhp))
                ((Broken-Keeps client).frees authp))
              ((Broken-Keeps client).frees envhp))
            (pure-Leads (negsuc 0)))

  init_fails :
      (c : DbConnect)
      → client.fails oci_initialize c.calls ≡ true
      → init_handle client c ≡ (true, record c { calls = oci_initialize ∷ c.calls })
  unfolding init_handle attempt ask pure ◌>>=◌ when◌run◌otherwise◌
  init_fails c e = rw e refl

  -- The constructor leaves the handles as the memory was. Where that is not NULL for the server, and the
  -- library does not start, the first connect frees a handle that was never made.
  pub connect_frees_stray :
      (username password : CStr) (hoststring : Option CStr) (memory : Handles) (transaction : Bool)
      (msgbuf : CStr)
      → memory srvhp ≢ null
      → client.fails oci_initialize [] ≡ true
      → ¬ IsLegal
          (connect client username password hoststring
            (new_connect memory transaction msgbuf)).1.calls
  unfolding connect log_on new_connect attempt ◌>>=◌ when◌run◌otherwise◌
  connect_frees_stray username password hoststring memory transaction msgbuf some fails =
      let c = new_connect memory transaction msgbuf in
      rw (init_fails c fails) (
        fail_free-Stray.at (record c { calls = oci_initialize ∷ [] })
          (record { some_handle = some; not_made = refl }))
