-- ===== src/Mysql/Api/TidyParms.antt =====
-- What the methods of mysqlapi (src/mysqlapi.cpp) with parameters leave open at the client library.
use dbsqlapi.Prelude.{
  ℕ, suc, ◌≡◌, refl, Bool, true, false, not, Option, none, some, List, [], ◌∷◌, CStr, ℤ, pos,
  negsuc, is_neg, arith, ◌==◌,
}
use dbsqlapi.Heap.{Ptr, null}
use dbsqlapi.State.{pure, ◌>>=◌, ◌>>◌, when◌run◌otherwise◌, stage}
use dbsqlapi.Mysql.Connection.{is_connect}
use dbsqlapi.Mysql.Prepared.{statement, FldVal, Prep, Bind, bind_of, phfree}
use dbsqlapi.Mysql.Client.{Client, op_bind_param, op_send_long_data}
use dbsqlapi.Mysql.Cursor.{ParmBind, emit}
use dbsqlapi.Mysql.Cursor.Parms.{allocate_parm_bind_struct, bind_pos, bind_large_parm, bind_parm}
use dbsqlapi.Mysql.Cursor.Tidy.{ask-Keeps}
use dbsqlapi.Mysql.Cursor.Kept.{allocate_parm_bind_struct-Keeps, bind_pos-Keeps}
use dbsqlapi.Mysql.Api.{Do, on_cursor, set_operation, set_prep, get_api}
use dbsqlapi.Mysql.Api.Statements.{close_fail, report_fail, in_exec}
use dbsqlapi.Mysql.Api.Load.{
  on_prep, LongType, long_binary, long_text, long_other, mysql_type_blob, mysql_type_string,
  set_sql, prepare_own, stage_zero, send_long, open_parms, set_long_fld, bind_stream,
  begin_load_binary_data, transfer_bin_data, end_load_binary_data,
}
use dbsqlapi.Mysql.Api.Execute.{bind_fields, then_phfree, ph_execute}
use dbsqlapi.Mysql.Api.Tidy.{
  Leads, Ends, Leads-Ends, pure-Ends, bind-Ends, seq-Ends, when-Ends, stage-Ends, pure-Leads,
  bind-Leads, seq-Leads, when-Leads, cursor-Leads, stage-Leads, step-Leads, set_operation-Leads,
  get_api-Leads, close_fail-Leads, report_fail-Leads, in_set_sql-Leads, in_exec-Leads,
}

pub set_prep-Leads : {b : Bool} (g : Prep → Prep) → Leads b (set_prep g) (λ _. b)
unfolding set_prep
set_prep-Leads g = record { at = λ a t. t }

pub set_sql-Leads : {b : Bool} (sql : Option CStr) → Leads b (set_sql sql) (λ _. b)
unfolding set_sql on_prep on_cursor emit
set_sql-Leads sql = record { at = λ a t. ground arith }

field-Leads :
    {b : Bool} {f : Bool → Bool} {m : Do Bool} {k : Bind → Do Bool} (o : Option Bind)
    → Leads b m f
    → ((x : Bind) → Leads b (k x) f)
    → Leads b (elim o [ none ↦ m | some x ↦ k x ]) f
field-Leads none hm hk = hm
field-Leads (some x) hm hk = hk x

module _ (client : Client) where
  prepare_own-Leads : {b : Bool} → Leads b (prepare_own client) (λ r. not (is_neg r))
  unfolding prepare_own
  prepare_own-Leads {b} =
      bind-Leads (λ _. b) get_api-Leads (λ a. in_set_sql-Leads client a.prep.sql)

  allocate-Leads : Leads true (on_cursor (allocate_parm_bind_struct client)) (λ _. true)
  allocate-Leads =
      cursor-Leads (allocate_parm_bind_struct client) (allocate_parm_bind_struct-Keeps client)

  bind_pos-Leads : {b : Bool} (i : ℕ) (p : ParmBind) → Leads b (on_cursor (bind_pos i p)) (λ _. b)
  bind_pos-Leads {b} i p = cursor-Leads (bind_pos i p) (bind_pos-Keeps client b i p)

  bind_parm-Leads : Leads true (on_cursor (bind_parm client)) (λ _. true)
  unfolding bind_parm
  bind_parm-Leads = cursor-Leads (bind_parm client) (ask-Keeps client op_bind_param)

  large-Leads :
      (p : Ptr) (n : ℕ) → Leads true (on_cursor (bind_large_parm client 0 p n)) (λ _. true)
  unfolding bind_large_parm
  large-Leads p n =
      cursor-Leads (bind_large_parm client 0 p n) (ask-Keeps client (op_send_long_data 0 p n))

  zero-Leads :
      {op : Do ℕ} {failed next : Do ℤ} {f : ℤ → Bool}
      → Leads true op (λ _. true)
      → Leads true failed f
      → Leads true next f
      → Leads true (stage_zero client op failed next) f
  zero-Leads hop hf hn = bind-Leads (λ _. true) hop (λ r. when-Leads (r == 0) hn hf)

  in_exec_end :
      (is_commit : Bool) (k : Do ℤ)
      → Leads false k (λ _. false)
      → Leads true (stage (in_exec client is_commit) (pure (negsuc 0)) k) (λ _. false)
  in_exec_end is_commit k h =
      stage-Leads (λ _. false) (in_exec-Leads client is_commit) (pure-Leads (negsuc 0) refl) h

  send_long-Leads :
      (p : Ptr) (buffer_type n : ℕ) (is_commit : Bool)
      → Leads true (send_long client p buffer_type n is_commit) (λ _. false)
  unfolding send_long
  send_long-Leads p buffer_type n is_commit =
      bind-Leads (λ _. true) (bind_pos-Leads 0 _)
        (λ _. zero-Leads bind_parm-Leads (report_fail-Leads client refl) (
          zero-Leads (large-Leads p n) (report_fail-Leads client refl)
            (in_exec_end is_commit _ (pure-Leads (pos 0) refl))))

  -- The part of the shared beginning after phSetSql; where it fails nothing is open, as `f` says of -1.
  prepared-Leads :
      {b : Bool} {next : Do ℤ} {f : ℤ → Bool}
      → f (negsuc 0) ≡ false
      → Leads true next f
      → Leads b
          (stage
            (prepare_own client)
            (pure (negsuc 0))
            (stage (on_cursor (allocate_parm_bind_struct client)) (report_fail client) next))
          f
  prepared-Leads e h =
      stage-Leads not prepare_own-Leads (pure-Leads (negsuc 0) e)
        (step-Leads allocate-Leads (report_fail-Leads client e) h)

  open_parms-Leads :
      (sql : Option CStr) {next : Do ℤ} {f : ℤ → Bool}
      → f (negsuc 0) ≡ false
      → Leads true next f
      → Leads false (open_parms client sql next) f
  unfolding open_parms
  open_parms-Leads sql e h =
      stage-Leads (λ _. false) (set_sql-Leads sql) (pure-Leads (negsuc 0) e) (prepared-Leads e h)

  open_parms-Ends :
      (sql : Option CStr) {next : Do ℤ} {f : ℤ → Bool}
      → f (negsuc 0) ≡ false
      → Leads true next f
      → Ends (open_parms client sql next)
  unfolding open_parms
  open_parms-Ends sql e h =
      stage-Ends (Leads-Ends (λ b. set_sql-Leads sql)) (pure-Ends (negsuc 0))
        (Leads-Ends (λ b. prepared-Leads e h))

  -- What setLongFld does for each type of data.
  long_part-Leads :
      (p : Ptr) (n m : ℕ) (long_type : LongType) (is_commit : Bool)
      → Leads true
          (elim long_type [
            | long_other ↦ close_fail client
            | long_binary ↦ send_long client p mysql_type_blob n is_commit
            | long_text ↦ send_long client p mysql_type_string m is_commit
          ])
          (λ _. false)
  long_part-Leads p n m long_binary is_commit = send_long-Leads p _ n is_commit
  long_part-Leads p n m long_text is_commit = send_long-Leads p _ m is_commit
  long_part-Leads p n m long_other is_commit = close_fail-Leads client refl

  pub set_long_fld-Ends :
      (sql : Option CStr) (p : Ptr) (n m : ℕ) (long_type : LongType) (is_commit : Bool)
      → Ends (set_long_fld client sql p n m long_type is_commit)
  unfolding set_long_fld
  set_long_fld-Ends sql p n m long_type is_commit =
      seq-Ends (Leads-Ends (λ b. set_operation-Leads statement)) (
        when-Ends (p == null) (pure-Ends (negsuc 0))
          (open_parms-Ends sql refl (long_part-Leads p n m long_type is_commit)))

  bind_stream-Leads :
      (buffer_type : ℕ) → Leads true (bind_stream client buffer_type) (λ r. not (is_neg r))
  unfolding bind_stream
  bind_stream-Leads buffer_type =
      bind-Leads (λ _. true) (bind_pos-Leads 0 _)
        (λ _. zero-Leads bind_parm-Leads (report_fail-Leads client refl) (pure-Leads (pos 0) refl))

  stream_part-Leads :
      (col_type : LongType)
      → Leads true
          (elim col_type [
            | long_other ↦ close_fail client
            | long_binary ↦ bind_stream client mysql_type_blob
            | long_text ↦ bind_stream client mysql_type_string
          ])
          (λ r. not (is_neg r))
  stream_part-Leads long_binary = bind_stream-Leads _
  stream_part-Leads long_text = bind_stream-Leads _
  stream_part-Leads long_other = close_fail-Leads client refl

  pub begin_load-Ends :
      (sql : Option CStr) (col_type : LongType) → Ends (begin_load_binary_data client sql col_type)
  unfolding begin_load_binary_data
  begin_load-Ends sql col_type =
      seq-Ends (Leads-Ends (λ b. set_operation-Leads statement))
        (open_parms-Ends sql refl (stream_part-Leads col_type))

  -- From a closed cursor, a statement is open exactly if beginLoadBinaryData returns 0.
  pub begin_load-Leads :
      (sql : Option CStr) (col_type : LongType)
      → Leads false (begin_load_binary_data client sql col_type) (λ r. not (is_neg r))
  unfolding begin_load_binary_data
  begin_load-Leads sql col_type =
      seq-Leads (set_operation-Leads statement)
        (open_parms-Leads sql refl (stream_part-Leads col_type))

  pub transfer-Leads :
      (p : Ptr) (n : ℕ) → Leads true (transfer_bin_data client p n) (λ r. not (is_neg r))
  unfolding transfer_bin_data
  transfer-Leads p n =
      seq-Leads (set_operation-Leads statement)
        (zero-Leads (large-Leads p n) (report_fail-Leads client refl) (pure-Leads (pos 0) refl))

  pub end_load-Leads :
      (is_commit : Bool) → Leads true (end_load_binary_data client is_commit) (λ _. false)
  unfolding end_load_binary_data
  end_load-Leads is_commit =
      seq-Leads (set_operation-Leads statement) (in_exec_end is_commit _ (pure-Leads (pos 0) refl))

  bind_fields-Leads :
      {b : Bool} (strlen_at : Ptr → ℕ) (i : ℕ) (vs : List FldVal)
      → Leads b (bind_fields strlen_at i vs) (λ _. b)
  unfolding bind_fields
  bind_fields-Leads strlen_at i [] = pure-Leads true refl
  bind_fields-Leads {b} strlen_at i (v ∷ vs) =
      when-Leads (v.data_ptr == null) (pure-Leads true refl) (
        field-Leads (bind_of v) (pure-Leads false refl) (λ x.
          seq-Leads (set_prep-Leads _) (
            bind-Leads (λ _. b) (bind_pos-Leads i _)
              (λ _. bind_fields-Leads strlen_at (suc i) vs))))

  then_phfree-Leads :
      {b : Bool} {m : Do ℤ} → Leads b m (λ _. false) → Leads b (then_phfree client m) (λ _. false)
  then_phfree-Leads h =
      bind-Leads (λ _. false) h (λ r. seq-Leads (set_prep-Leads phfree) (pure-Leads r refl))

  bound-Leads :
      (strlen_at : Ptr → ℕ) (is_commit : Bool) (vs : List FldVal)
      → Leads true
          (bind_fields strlen_at 0 vs >>= λ known.
            when known
            run stage_zero client
                (on_cursor (bind_parm client))
                (then_phfree client (report_fail client))
                (stage
                  (in_exec client is_commit)
                  (pure (negsuc 0))
                  (then_phfree client (pure (pos 0))))
            otherwise then_phfree client (close_fail client))
          (λ _. false)
  bound-Leads strlen_at is_commit vs =
      bind-Leads (λ _. true) (bind_fields-Leads strlen_at 0 vs)
        (λ known.
          when-Leads known
            (zero-Leads bind_parm-Leads (then_phfree-Leads (report_fail-Leads client refl))
              (in_exec_end is_commit _ (then_phfree-Leads (pure-Leads (pos 0) refl))))
            (then_phfree-Leads (close_fail-Leads client refl)))

  -- With a connection, whatever was open, phExecute leaves nothing open.
  connected-Leads :
      {b : Bool} (strlen_at : Ptr → ℕ) (is_commit : Bool)
      → Leads b
          (set_operation statement
            >> stage (prepare_own client) (pure (negsuc 0)) (
                stage
                  (on_cursor (allocate_parm_bind_struct client))
                  (then_phfree client (report_fail client))
                  (get_api >>= λ c. bind_fields strlen_at 0 c.prep.fld_vals >>= λ known.
                    when known
                    run stage_zero client
                        (on_cursor (bind_parm client))
                        (then_phfree client (report_fail client))
                        (stage
                          (in_exec client is_commit)
                          (pure (negsuc 0))
                          (then_phfree client (pure (pos 0))))
                    otherwise then_phfree client (close_fail client))))
          (λ _. false)
  connected-Leads strlen_at is_commit = seq-Leads (set_operation-Leads statement) (
      stage-Leads not prepare_own-Leads (pure-Leads (negsuc 0) refl) (
        step-Leads allocate-Leads (then_phfree-Leads (report_fail-Leads client refl)) (
          bind-Leads (λ _. true) get_api-Leads
            (λ c. bound-Leads strlen_at is_commit c.prep.fld_vals))))

  pub ph_execute-Ends :
      (strlen_at : Ptr → ℕ) (is_commit : Bool) → Ends (ph_execute client strlen_at is_commit)
  unfolding ph_execute
  ph_execute-Ends strlen_at is_commit = bind-Ends (Leads-Ends (λ b. get_api-Leads)) (λ a.
      when-Ends (is_neg (is_connect a.conn)) (pure-Ends (negsuc 0))
        (Leads-Ends (λ b. connected-Leads strlen_at is_commit)))
