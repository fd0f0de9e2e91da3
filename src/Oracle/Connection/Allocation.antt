-- ===== src/Oracle/Connection/Allocation.antt =====
-- How the methods of db_connect (src/oracleapi.cpp) that make and free handles keep them.
use dbsqlapi.Prelude.{refl, sym, ap, ◌∙◌, true, false, List, [], ◌∷◌, Bool-cases, inl, inr}
use dbsqlapi.Heap.{Ptr}
use dbsqlapi.Oracle.Connection.{
  HandleKind, envhp, svchp, errhp, srvhp, authp, set_handle, Call, oci_initialize, handle_alloc,
  alloc_fails, error_get, OciClient, ask, alloc_handle, init_handle, on_handle, error_get_text,
}
use dbsqlapi.Oracle.Connection.Handles.{
  forget, Apart, IsPlain, Leads, Left, Nulls-Apart, Nulls-same, Owns, attempt-Leads, record-plain,
}

module _ (client : OciClient) where
  pub ask-Leads :
      (ks : List HandleKind) (x : Call) → IsPlain x → Leads (Left ks) (Left ks) (ask client x)
  unfolding ask
  ask-Leads ks x n = record {
    at = λ c l.
        (record-plain x c n l.0, Nulls-same ks c (record c { calls = x ∷ c.calls }) refl l.1);
  }

  pub on_handle-Leads :
      (ks : List HandleKind) (k : HandleKind) (f : Ptr → Call)
      → ((p : Ptr) → IsPlain (f p))
      → Leads (Left ks) (Left ks) (on_handle client k f)
  unfolding on_handle
  on_handle-Leads ks k f n = record { at = λ c l. (ask-Leads ks (f (c.handles k)) (n _)).at c l }

  pub alloc-Leads :
      (ks : List HandleKind) (k : HandleKind)
      → Apart k ks
      → Leads (Left (k ∷ ks)) (Left ks) (alloc_handle client k)
  unfolding alloc_handle
  alloc-Leads ks k a = record {
    at = λ c l. elim (Bool-cases (client.alloc_failing k c.calls)) [
      | inl e ↦
          let d = record c { calls = alloc_fails k ∷ c.calls } in
          rw e (record-plain (alloc_fails k) c tt l.0, Nulls-same ks c d refl l.1.1)
      | inr e ↦
          let p = client.new_handle k c.calls in
          let d = record c {
            handles = set_handle c.handles k p;
            calls = handle_alloc k p ∷ c.calls;
          } in
          let o : Owns d = record {
            same = ap (λ f. set_handle f k p) l.0.same;
            legal = (ap (λ f. f k) (sym l.0.same) ∙ l.1.0, l.0.legal);
          } in
          rw e (o, Nulls-Apart ks c d k p refl a l.1.1)
    ];
  }

  pub init_handle-Leads :
      Leads (Left (envhp ∷ svchp ∷ errhp ∷ srvhp ∷ authp ∷ [])) (Left []) (init_handle client)
  unfolding init_handle
  init_handle-Leads =
      let left1 = authp ∷ [] in
      let left2 = srvhp ∷ left1 in
      let left3 = errhp ∷ left2 in
      let left4 = svchp ∷ left3 in
      attempt-Leads _ _ _ (ask-Leads (envhp ∷ left4) oci_initialize tt)
        (forget (envhp ∷ left4) true)
        (attempt-Leads _ _ _ (alloc-Leads left4 envhp (refl, (refl, (refl, (refl, tt)))))
          (forget left4 true)
          (attempt-Leads _ _ _ (alloc-Leads left3 svchp (refl, (refl, (refl, tt))))
            (forget left3 true)
            (attempt-Leads _ _ _ (alloc-Leads left2 errhp (refl, (refl, tt))) (forget left2 true) (
              attempt-Leads _ _ _ (alloc-Leads left1 srvhp (refl, tt)) (forget left1 true) (
                attempt-Leads _ _ _ (alloc-Leads [] authp tt) (forget [] true)
                  (forget [] false))))))

  pub error_get-Leads : (ks : List HandleKind) → Leads (Left ks) (Left ks) (error_get_text client)
  unfolding error_get_text
  error_get-Leads ks = record {
    at = λ c l.
        let o = record-plain (error_get (c.handles errhp)) c tt l.0 in
        (record { same = o.same; legal = o.legal }, Nulls-same ks c _ refl l.1);
  }
