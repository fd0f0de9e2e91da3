-- ===== src/Oracle/Connection/Keeps.antt =====
-- What holds of a connection of src/oracleapi.cpp through connect, if each call of the library keeps it.
use dbsqlapi.State.{pure, ◌>>=◌, ◌>>◌, when◌run◌otherwise◌}
use dbsqlapi.Prelude.{ℤ, pos, Bool, true, false, Option, CStr, negsuc, Bool-cases, inl, inr}
use dbsqlapi.Heap.{Ptr}
use dbsqlapi.Oracle.Connection.{
  HandleKind, envhp, svchp, errhp, srvhp, authp, Call, oci_initialize, server_attach, server_detach,
  attr_set, session_begin, session_end, attr_server, attr_session, attr_username, attr_password,
  Attr, OciClient, DbConnect, Act, attempt, free_one, free_handle, ask, alloc_handle, init_handle,
  on_handle, set_from, begin_session, end_session, attach_server, deatch_server, error_get_text,
  fail_free, fail_detach, fail_end, set_connected, log_on,
}
use dbsqlapi.Oracle.Connection.Handles.{Leads, seq-Leads, bind-Leads, attempt-Leads, pure-Leads}

-- The steps of the methods keep `P`.
pub record Keeps (client : OciClient) (P : DbConnect → Type 0) : Type 0 where
  pub asks : (x : Call) → Leads P P (ask client x)
  pub allocs : (k : HandleKind) → Leads P P (alloc_handle client k)
  pub frees : (k : HandleKind) → Leads P P (free_one k)
  pub errors : Leads P P (error_get_text client)

-- From `P`, with a result that satisfies `Q`.
pub record Gives (P : DbConnect → Type 0) (Q : ℤ → DbConnect → Type 0) (m : Act ℤ) : Type 0 where
  pub at : (c : DbConnect) → P c → Q (m c).0 (m c).1

attempt-Gives :
    {P R : DbConnect → Type 0} {Q : ℤ → DbConnect → Type 0} (op : Act Bool) (failed next : Act ℤ)
    → Leads P R op
    → Gives R Q failed
    → Gives R Q next
    → Gives P Q (attempt op failed next)
unfolding attempt ◌>>=◌ when◌run◌otherwise◌
attempt-Gives op failed next l f n = record {
  at = λ c p. elim (Bool-cases (op c).0) [
    | inl e ↦ rw e (f.at (op c).1 (l.at c p))
    | inr e ↦ rw e (n.at (op c).1 (l.at c p))
  ];
}

module _ (client : OciClient) {P : DbConnect → Type 0} (k : Keeps client P) where
  on_handle-Keeps : (j : HandleKind) (f : Ptr → Call) → Leads P P (on_handle client j f)
  unfolding on_handle
  on_handle-Keeps j f = record { at = λ c n. (k.asks (f (c.handles j))).at c n }

  free_handle-Keeps : Leads P P free_handle
  unfolding free_handle
  free_handle-Keeps =
      seq-Leads _ _
        (seq-Leads _ _
          (seq-Leads _ _ (seq-Leads _ _ (k.frees srvhp) (k.frees svchp)) (k.frees errhp))
          (k.frees authp))
        (k.frees envhp)

  end_session-Keeps : Leads P P (end_session client)
  unfolding end_session
  end_session-Keeps = record {
    at = λ c n. (on_handle-Keeps svchp (λ p. session_end p (c.handles authp))).at c n;
  }

  fail_free-Keeps : Leads P P (fail_free client)
  unfolding fail_free
  fail_free-Keeps =
      bind-Leads _ _ k.errors (λ _. seq-Leads _ _ free_handle-Keeps (pure-Leads (negsuc 0)))

  fail_detach-Keeps : Leads P P (fail_detach client)
  unfolding fail_detach
  fail_detach-Keeps = bind-Leads _ _ k.errors (λ _.
      bind-Leads _ _ (on_handle-Keeps srvhp server_detach)
        (λ _. seq-Leads _ _ free_handle-Keeps (pure-Leads (negsuc 0))))

  fail_end-Keeps : Leads P P (fail_end client)
  unfolding fail_end deatch_server
  fail_end-Keeps = bind-Leads _ _ k.errors (λ _.
      seq-Leads _ _
        (bind-Leads _ _ end_session-Keeps
          (λ _. bind-Leads _ _ (on_handle-Keeps srvhp server_detach) (λ _. pure-Leads tt)))
        (seq-Leads _ _ free_handle-Keeps (pure-Leads (negsuc 0))))

  set_from-Keeps : (j : HandleKind) (attr : Ptr → Attr) → Leads P P (set_from client j attr)
  unfolding set_from
  set_from-Keeps j attr = record {
    at = λ c n. (on_handle-Keeps svchp (attr_set svchp (attr (c.handles j)))).at c n;
  }

  begin_session-Keeps : Leads P P (begin_session client)
  unfolding begin_session
  begin_session-Keeps = record {
    at = λ c n. (on_handle-Keeps svchp (λ p. session_begin p (c.handles authp))).at c n;
  }

  attach-Keeps : (hoststring : Option CStr) → Leads P P (attach_server client hoststring)
  unfolding attach_server
  attach-Keeps hoststring =
      attempt-Leads _ _ _ (on_handle-Keeps srvhp (λ p. server_attach p hoststring))
        (pure-Leads true)
        (attempt-Leads _ _ _ (set_from-Keeps srvhp attr_server) (pure-Leads true)
          (pure-Leads false))

  -- The steps of initHandle after OCIEnvInit.
  pub later_handles : Leads P P (
      attempt (alloc_handle client svchp) (pure true) (
        attempt (alloc_handle client errhp) (pure true) (
          attempt
            (alloc_handle client srvhp)
            (pure true)
            (attempt (alloc_handle client authp) (pure true) (pure false)))))
  later_handles = attempt-Leads _ _ _ (k.allocs svchp) (pure-Leads true) (
      attempt-Leads _ _ _ (k.allocs errhp) (pure-Leads true) (
        attempt-Leads _ _ _ (k.allocs srvhp) (pure-Leads true)
          (attempt-Leads _ _ _ (k.allocs authp) (pure-Leads true) (pure-Leads false))))

  pub init_handle-Keeps : Leads P P (init_handle client)
  unfolding init_handle
  init_handle-Keeps =
      attempt-Leads _ _ _ (k.asks oci_initialize) (pure-Leads true)
        (attempt-Leads _ _ _ (k.allocs envhp) (pure-Leads true) later_handles)

  module _ {Q : ℤ → DbConnect → Type 0} (failed : (d : DbConnect) → P d → Q (negsuc 0) d)
      (done : (d : DbConnect)
        → P d
        → Q (pos 0) (record d { is_connected = true; transaction = false })) where
    fail_free-Gives : Gives P Q (fail_free client)
    unfolding fail_free pure ◌>>=◌ ◌>>◌
    fail_free-Gives = record { at = λ c p. failed (fail_free client c).1 (fail_free-Keeps.at c p) }

    fail_detach-Gives : Gives P Q (fail_detach client)
    unfolding fail_detach pure ◌>>=◌ ◌>>◌
    fail_detach-Gives = record {
      at = λ c p. failed (fail_detach client c).1 (fail_detach-Keeps.at c p);
    }

    fail_end-Gives : Gives P Q (fail_end client)
    unfolding fail_end pure ◌>>=◌ ◌>>◌
    fail_end-Gives = record { at = λ c p. failed (fail_end client c).1 (fail_end-Keeps.at c p) }

    set_connected-Gives : Gives P Q (set_connected client)
    unfolding set_connected
    set_connected-Gives = record { at = done }

    pub log_on-Gives :
        {R : DbConnect → Type 0} (username password : CStr) (hoststring : Option CStr)
        → Leads R P (init_handle client)
        → Gives R Q (log_on client username password hoststring)
    unfolding log_on
    log_on-Gives username password hoststring init = attempt-Gives _ _ _ init fail_free-Gives (
        attempt-Gives _ _ _ (attach-Keeps hoststring) fail_free-Gives (
          attempt-Gives _ _ _ (on_handle-Keeps authp (attr_set authp (attr_username username)))
            fail_detach-Gives
            (attempt-Gives _ _ _ (on_handle-Keeps authp (attr_set authp (attr_password password)))
              fail_detach-Gives
              (attempt-Gives _ _ _ begin_session-Keeps fail_detach-Gives (
                attempt-Gives _ _ _ (set_from-Keeps authp attr_session) fail_end-Gives
                  set_connected-Gives)))))
