-- ===== src/Mysql/Api/Execute.antt =====
-- src/mysqlapi.cpp: mysqlapi::phExecute.
use dbsqlapi.Prelude.{
  ℕ, suc, Bool, true, false, none, some, List, [], ◌∷◌, ℤ, pos, negsuc, is_neg, ◌==◌, set,
}
use dbsqlapi.Heap.{Ptr, null}
use dbsqlapi.State.{pure, ◌>>=◌, ◌>>◌, when◌run◌otherwise◌, stage}
use dbsqlapi.Mysql.Connection.{is_connect}
use dbsqlapi.Mysql.Prepared.{
  statement, FldVal, Bind, bind_long, bind_longlong, bind_string, bind_blob, bind_of, phfree,
}
use dbsqlapi.Mysql.Client.{Client}
use dbsqlapi.Mysql.Cursor.{ParmBind}
use dbsqlapi.Mysql.Cursor.Parms.{allocate_parm_bind_struct, bind_pos, bind_parm}
use dbsqlapi.Mysql.Api.{Do, on_cursor, set_operation, set_prep, get_api}
use dbsqlapi.Mysql.Api.Statements.{close_fail, report_fail, in_exec}
use dbsqlapi.Mysql.Api.Load.{
  parm, mysql_type_long, mysql_type_longlong, mysql_type_string, mysql_type_blob, prepare_own,
  stage_zero,
}

-- sizeof(int) and sizeof(long long)
abbrev pub sizeof_int : ℕ
sizeof_int = 4

abbrev pub sizeof_longlong : ℕ
sizeof_longlong = 8

-- `strlen_at` is the length of the text at an address.
abbrev pub parm_of : (Ptr → ℕ) → Bind → ParmBind
parm_of strlen_at (bind_long p) = parm mysql_type_long p sizeof_int none
parm_of strlen_at (bind_longlong p) = parm mysql_type_longlong p sizeof_longlong none
parm_of strlen_at (bind_string p n) = parm mysql_type_string p n (some (strlen_at p))
parm_of strlen_at (bind_blob p n) = parm mysql_type_blob p n none

-- The element after its round: a text gets its length.
abbrev pub measured : (Ptr → ℕ) → Bind → FldVal → FldVal
measured strlen_at (bind_string p n) v = record v { data_len = strlen_at p }
measured strlen_at (bind_long p) v = v
measured strlen_at (bind_longlong p) v = v
measured strlen_at (bind_blob p n) v = v

-- The loop of phExecute from element `i` on: whether it knows every type that it meets.
unfoldable pub bind_fields : (Ptr → ℕ) → ℕ → List FldVal → Do Bool
bind_fields strlen_at i [] = pure true
bind_fields strlen_at i (v ∷ vs) =
    when v.data_ptr == null run pure true otherwise (elim (bind_of v) [
      | none ↦ pure false
      | some b ↦ do
        set_prep (λ p. record p { fld_vals = set p.fld_vals i (measured strlen_at b v) })
        _ ← on_cursor (bind_pos i (parm_of strlen_at b))
        bind_fields strlen_at (suc i) vs
    ])

module _ (client : Client) where
  -- `phfree(); return -1;` after the cursor is closed.
  abbrev pub then_phfree : Do ℤ → Do ℤ
  then_phfree m = do r ← m; set_prep phfree; pure r

  unfoldable pub ph_execute : (Ptr → ℕ) → Bool → Do ℤ
  ph_execute strlen_at is_commit = do
    a ← get_api
    when is_neg (is_connect a.conn) run pure (negsuc 0) otherwise (do
      set_operation statement
      stage (prepare_own client) (pure (negsuc 0)) (
          stage (on_cursor (allocate_parm_bind_struct client)) (then_phfree (report_fail client))
            (do
              b ← get_api
              known ← bind_fields strlen_at 0 b.prep.fld_vals
              when known
                  run stage_zero client (on_cursor (bind_parm client))
                      (then_phfree (report_fail client))
                      (stage (in_exec client is_commit) (pure (negsuc 0))
                        (then_phfree (pure (pos 0))))
                  otherwise then_phfree (close_fail client))))
