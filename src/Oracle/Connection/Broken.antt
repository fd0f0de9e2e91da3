-- ===== src/Oracle/Connection/Broken.antt =====
-- That a rule that was broken by a connection of src/oracleapi.cpp stays broken.
use dbsqlapi.Prelude.{◌∷◌, ◌==◌, Bool-cases, inl, inr}
use dbsqlapi.Heap.{null}
use dbsqlapi.Oracle.Connection.{
  HandleKind, errhp, Call, oci_initialize, handle_alloc, alloc_fails, handle_free, server_attach,
  server_detach, attr_set, session_begin, session_end, error_get, trans_commit, trans_rollback,
  History, OciClient, DbConnect, free_one, ask, alloc_handle, error_get_text,
}
use dbsqlapi.Oracle.Connection.Handles.{IsLegal, Leads}
use dbsqlapi.Oracle.Connection.Keeps.{Keeps}

-- A rule was broken.
abbrev pub Broken : DbConnect → Type 0
Broken c = ¬ IsLegal c.calls

earlier : (x : Call) (h : History) → IsLegal (x ∷ h) → IsLegal h
earlier (handle_alloc k p) h l = l.1
earlier (handle_free k p) h l = l.2
earlier oci_initialize h l = l
earlier (alloc_fails k) h l = l
earlier (server_attach p t) h l = l
earlier (server_detach p) h l = l
earlier (attr_set k a p) h l = l
earlier (session_begin p q) h l = l
earlier (session_end p q) h l = l
earlier (error_get p) h l = l
earlier (trans_commit p) h l = l
earlier (trans_rollback p) h l = l

free_one-Broken : (k : HandleKind) → Leads Broken Broken (free_one k)
unfolding free_one
free_one-Broken k = record {
  at = λ c n. elim (Bool-cases (c.handles k == null)) [
    | inl e ↦ rw e n
    | inr e ↦ rw e (λ l. n (earlier (handle_free k (c.handles k)) c.calls l))
  ];
}

module _ (client : OciClient) where
  ask-Broken : (x : Call) → Leads Broken Broken (ask client x)
  unfolding ask
  ask-Broken x = record { at = λ c n l. n (earlier x c.calls l) }

  alloc-Broken : (k : HandleKind) → Leads Broken Broken (alloc_handle client k)
  unfolding alloc_handle
  alloc-Broken k = record {
    at = λ c n. elim (Bool-cases (client.alloc_failing k c.calls)) [
      | inl e ↦ rw e (λ l. n (earlier (alloc_fails k) c.calls l))
      | inr e ↦ rw e (λ l. n (earlier (handle_alloc k (client.new_handle k c.calls)) c.calls l))
    ];
  }

  error_get-Broken : Leads Broken Broken (error_get_text client)
  unfolding error_get_text
  error_get-Broken = record { at = λ c n l. n (earlier (error_get (c.handles errhp)) c.calls l) }

  pub Broken-Keeps : Keeps client Broken
  Broken-Keeps = record {
    asks = ask-Broken;
    allocs = alloc-Broken;
    frees = free_one-Broken;
    errors = error_get-Broken;
  }
