-- ===== src/Oracle/Connection/Settled.antt =====
-- The handles of a connection of src/oracleapi.cpp over any sequence of its methods.
use dbsqlapi.Prelude.{
  negsuc, pos, ◌≡◌, refl, sym, Bool, true, false, Option, [], ◌∷◌, CStr, ◌==◌, if◌then◌else◌,
}
use mathlib.Core.Bool.{false≢true}
use dbsqlapi.State.{pure, ◌>>◌, when◌run◌otherwise◌}
use dbsqlapi.Oracle.Connection.{
  envhp, svchp, errhp, srvhp, authp, Call, server_attach, server_detach, attr_set, attr_server,
  attr_session, attr_username, attr_password, session_begin, session_end, error_get, trans_commit,
  trans_rollback, OciClient, DbConnect, Act, set_no_connct, free_handle, ask, on_handle, set_from,
  begin_session, end_session, attach_server, deatch_server, error_get_text, fail_free, fail_detach,
  fail_end, set_connected, log_on, connect, disconnect, commit_trans, rollback_trans, begin_trans,
  is_gone, get_err, get_err_info,
}
use dbsqlapi.Oracle.Connection.Handles.{
  every, free_handle-Leads, IsPlain, Leads, Left, Nulls, Nulls-same, Owns, attempt-Leads,
  bind-Leads, pick, pure-Leads, record-plain, seq-Leads,
}
use dbsqlapi.Oracle.Connection.Allocation.{on_handle-Leads, init_handle-Leads, error_get-Leads}

-- The object has the handles that are held, and none while it is not connected.
abbrev pub Settled : DbConnect → Type 0
Settled c = Owns c × (c.is_connected ≡ false → Nulls every c)

settle : {A : Type 0} (a : A) → Leads (Left every) Settled (pure a)
unfolding pure
settle a = record { at = λ c l. (l.0, λ _. l.1) }

no_connct-Leads : Leads (Left every) (Left every) set_no_connct
unfolding set_no_connct
no_connct-Leads = record {
  at = λ c l. (
    record { same = l.0.same; legal = l.0.legal },
    Nulls-same every c (record c { is_connected = false }) refl l.1,
  );
}

-- Neither the flag of the transaction nor the message matters.
retouch :
    (c : DbConnect) (t : Bool) (m : CStr)
    → Settled c
    → Settled (record c { transaction = t; msgbuf = m })
retouch c t m s = (record { same = s.0.same; legal = s.0.legal }, s.1)

choose-Leads :
    {A : Type 0} {P Q : DbConnect → Type 0} (b : Bool) (m k : Act A)
    → Leads P Q m
    → Leads P Q k
    → Leads P Q (when b run m otherwise k)
unfolding when◌run◌otherwise◌
choose-Leads true m k l n = record { at = l.at }
choose-Leads false m k l n = record { at = n.at }

module _ (client : OciClient) where
  detach-Leads : Leads (Left []) (Left []) (on_handle client srvhp server_detach)
  detach-Leads = on_handle-Leads client [] srvhp server_detach (λ p. tt)

  end_session-Leads : Leads (Left []) (Left []) (end_session client)
  unfolding end_session
  end_session-Leads = record {
    at = λ c l.
        (on_handle-Leads client [] svchp (λ p. session_end p (c.handles authp)) (λ p. tt)).at c l;
  }

  deatch-Leads : Leads (Left []) (Left []) (deatch_server client)
  unfolding deatch_server
  deatch-Leads =
      bind-Leads _ _ end_session-Leads (λ _. bind-Leads _ _ detach-Leads (λ _. pure-Leads tt))

  fail_free-Leads : Leads (Left []) Settled (fail_free client)
  unfolding fail_free
  fail_free-Leads =
      bind-Leads _ _ (error_get-Leads client [])
        (λ _. seq-Leads _ _ free_handle-Leads (settle (negsuc 0)))

  fail_detach-Leads : Leads (Left []) Settled (fail_detach client)
  unfolding fail_detach
  fail_detach-Leads =
      bind-Leads _ _ (error_get-Leads client []) (λ _.
        bind-Leads _ _ detach-Leads (λ _. seq-Leads _ _ free_handle-Leads (settle (negsuc 0))))

  fail_end-Leads : Leads (Left []) Settled (fail_end client)
  unfolding fail_end
  fail_end-Leads =
      bind-Leads _ _ (error_get-Leads client [])
        (λ _. seq-Leads _ _ deatch-Leads (seq-Leads _ _ free_handle-Leads (settle (negsuc 0))))

  set_connected-Leads : Leads (Left []) Settled (set_connected client)
  unfolding set_connected
  set_connected-Leads = record {
    at = λ c l. (record { same = l.0.same; legal = l.0.legal }, λ e. absurd (false≢true (sym e)));
  }

  attach-Leads :
      (hoststring : Option CStr) → Leads (Left []) (Left []) (attach_server client hoststring)
  unfolding attach_server set_from
  attach-Leads hoststring =
      attempt-Leads _ _ _
        (on_handle-Leads client [] srvhp (λ p. server_attach p hoststring) (λ p. tt))
        (pure-Leads true)
        (attempt-Leads _ _ _
          (record {
            at = λ c l.
                (on_handle-Leads client [] svchp (attr_set svchp (attr_server (c.handles srvhp)))
                    (λ p. tt)).at
                  c l;
          })
          (pure-Leads true) (pure-Leads false))

  log_on-Leads :
      (username password : CStr) (hoststring : Option CStr)
      → Leads
          (Left (envhp ∷ svchp ∷ errhp ∷ srvhp ∷ authp ∷ []))
          Settled
          (log_on client username password hoststring)
  unfolding log_on set_from begin_session
  log_on-Leads username password hoststring =
      attempt-Leads _ _ _ (init_handle-Leads client) fail_free-Leads (
        attempt-Leads _ _ _ (attach-Leads hoststring) fail_free-Leads (
          attempt-Leads _ _ _
            (on_handle-Leads client [] authp (attr_set authp (attr_username username)) (λ p. tt))
            fail_detach-Leads
            (attempt-Leads _ _ _
              (on_handle-Leads client [] authp (attr_set authp (attr_password password)) (λ p. tt))
              fail_detach-Leads
              (attempt-Leads _ _ _
                (record {
                  at = λ c l.
                      (on_handle-Leads client [] svchp (λ p. session_begin p (c.handles authp))
                          (λ p. tt)).at
                        c l;
                })
                fail_detach-Leads
                (attempt-Leads _ _ _
                  (record {
                    at = λ c l.
                        (on_handle-Leads client [] svchp
                            (attr_set svchp (attr_session (c.handles authp))) (λ p. tt)).at
                          c l;
                  })
                  fail_end-Leads set_connected-Leads)))))

  pub connect-Settled :
      (username password : CStr) (hoststring : Option CStr)
      → Leads Settled Settled (connect client username password hoststring)
  unfolding connect
  connect-Settled username password hoststring = record {
    at = λ c s.
        pick Settled c.is_connected (negsuc 0, c) (log_on client username password hoststring c)
          (λ _. s)
          (λ e.
            let (env, (auth, (err, (svc, (srv, _))))) = s.1 e in
            (log_on-Leads username password hoststring).at c
              (s.0, (env, (svc, (err, (srv, (auth, tt)))))));
  }

  -- Nothing is left after a disconnect, also where there was no connection.
  pub disconnect_leaves : (c : DbConnect) → Settled c → Left every (disconnect client c).1
  unfolding disconnect
  disconnect_leaves c s =
      pick (Left every) c.is_connected
        ((do deatch_server client; free_handle; set_no_connct; pure (pos 0)) c) (negsuc 0, c)
        (λ _.
          (seq-Leads _ _ deatch-Leads (
              seq-Leads _ _ free_handle-Leads
                (seq-Leads _ _ no_connct-Leads (pure-Leads (pos 0))))).at
            c (s.0, tt))
        (λ e. (s.0, s.1 e))

  pub disconnect-Settled : Leads Settled Settled (disconnect client)
  disconnect-Settled = record { at = λ c s. let l = disconnect_leaves c s in (l.0, λ _. l.1) }

  plain-Settled : (x : Call) → IsPlain x → Leads Settled Settled (ask client x)
  unfolding ask
  plain-Settled x n = record { at = λ c s. (record-plain x c n s.0, s.1) }

  error_get-Settled : Leads Settled Settled (error_get_text client)
  unfolding error_get_text ask
  error_get-Settled = record {
    at = λ c s. retouch _ _ _ ((plain-Settled (error_get (c.handles errhp)) tt).at c s);
  }

  pub commit_trans-Settled : Leads Settled Settled (commit_trans client)
  unfolding commit_trans on_handle
  commit_trans-Settled = record {
    at = λ c s. retouch _ _ _ ((plain-Settled (trans_commit (c.handles svchp)) tt).at c s);
  }

  pub rollback_trans-Settled : Leads Settled Settled (rollback_trans client)
  unfolding rollback_trans on_handle
  rollback_trans-Settled = record {
    at = λ c s. retouch _ _ _ ((plain-Settled (trans_rollback (c.handles svchp)) tt).at c s);
  }

  pub begin_trans-Settled : Leads Settled Settled (begin_trans client)
  unfolding begin_trans on_handle
  begin_trans-Settled = record { at = λ c s. retouch _ _ _ (both c s c.transaction) }
    where
      both :
          (c : DbConnect)
          → Settled c
          → (b : Bool)
          → Settled (if b then (ask client (trans_commit (c.handles svchp)) c).1 else c)
      both c s true = (plain-Settled (trans_commit (c.handles svchp)) tt).at c s
      both c s false = s

  pub get_err-Settled : Leads Settled Settled (get_err client)
  unfolding get_err
  get_err-Settled = bind-Leads _ _ error_get-Settled (λ n.
      choose-Leads (is_gone n) _ _ (pure-Leads (negsuc 99998)) (
        choose-Leads (n == 25402) _ _ (seq-Leads _ _ rollback_trans-Settled (pure-Leads (pos n)))
          (pure-Leads (pos n))))

  pub get_err_info-Settled : Leads Settled Settled (get_err_info client)
  unfolding get_err_info
  get_err_info-Settled = record {
    at = λ c s.
        let d = record c { msgbuf = [] } in
        let e = (error_get_text client d).1 in
        pick Settled c.is_connected (e.msgbuf, e) (c.msgbuf, c)
          (λ _. error_get-Settled.at d (retouch c c.transaction [] s)) (λ _. s);
  }
