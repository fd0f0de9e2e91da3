-- ===== src/Mysql/Api/Load.antt =====
-- src/mysqlapi.cpp: the methods of mysqlapi that run a statement with parameters on m_cursor.
use dbsqlapi.Prelude.{ℕ, Bool, true, Option, none, some, CStr, ℤ, pos, negsuc, ◌==◌}
use dbsqlapi.Heap.{Ptr, null}
use dbsqlapi.State.{pure, ◌>>=◌, ◌>>◌, when◌run◌otherwise◌, stage}
use dbsqlapi.Mysql.Prepared.{statement, Prep, scan, phfree, ph_set_sql}
use dbsqlapi.Mysql.Client.{Client, undefined}
use dbsqlapi.Mysql.Cursor.{ParmBind, emit}
use dbsqlapi.Mysql.Cursor.Parms.{allocate_parm_bind_struct, bind_pos, bind_large_parm, bind_parm}
use dbsqlapi.Mysql.Api.{Do, on_cursor, set_operation, get_api}
use dbsqlapi.Mysql.Api.Statements.{close_fail, report_fail, in_set_sql, in_exec}

-- MYSQL_TYPE_LONG, MYSQL_TYPE_LONGLONG, MYSQL_TYPE_STRING and MYSQL_TYPE_BLOB
abbrev pub mysql_type_long : ℕ
mysql_type_long = 3

abbrev pub mysql_type_longlong : ℕ
mysql_type_longlong = 8

abbrev pub mysql_type_string : ℕ
mysql_type_string = 254

abbrev pub mysql_type_blob : ℕ
mysql_type_blob = 252

-- The call of bindPos with the defaults of its last parameters.
abbrev pub parm : ℕ → Ptr → ℕ → Option ℕ → ParmBind
parm buffer_type buffer buffer_length len = record {
  buffer_type = buffer_type;
  buffer = buffer;
  buffer_length = buffer_length;
  length = len;
  is_unsigned = true;
}

-- The types of data that setLongFld and beginLoadBinaryData know: SQL_BINARY, SQL_TEXT, any other.
pub data LongType : Type 0 where
  long_binary long_text long_other : LongType

-- What a method that works on the members of `Prep` returns and leaves. A write outside its arrays, or a read
-- through NULL, is recorded as undefined, and the method goes on as `after` says.
unfoldable pub on_prep : (Prep → Option (ℤ × Prep)) → (Prep → Prep) → Do ℤ
on_prep f after a = elim (f a.prep) [
  | none ↦ (pos 0, (on_cursor (emit undefined) (record a { prep = after a.prep })).1)
  | some (r, p) ↦ (r, record a { prep = p })
]

-- phSetSql after the NUL that it writes one byte behind `temp_sql`.
abbrev pub overrun : Option CStr → Prep → Prep
overrun none st = st
overrun (some text) st = record (phfree st) { sql = scan true text }

unfoldable pub set_sql : Option CStr → Do ℤ
unfolding on_prep
set_sql sql = on_prep (λ st. ph_set_sql st sql) (overrun sql)

-- `m_sql` as the argument of inSetSql.
unfoldable pub prepare_own : Client → Do ℤ
prepare_own client = do a ← get_api; in_set_sql client a.prep.sql

module _ (client : Client) where
  -- A step that returns other than 0 where it fails.
  abbrev pub stage_zero : Do ℕ → Do ℤ → Do ℤ → Do ℤ
  stage_zero op failed next = do r ← op; when r == 0 run next otherwise failed

  -- The end of setLongFld, from the first bindPos on.
  unfoldable pub send_long : Ptr → ℕ → ℕ → Bool → Do ℤ
  send_long long_msg buffer_type buf_len is_commit = do
    _ ← on_cursor (bind_pos 0 (parm buffer_type long_msg buf_len (some 0)))
    stage_zero (on_cursor (bind_parm client)) (report_fail client) (
        stage_zero (on_cursor (bind_large_parm client 0 long_msg buf_len)) (report_fail client)
          (stage (in_exec client is_commit) (pure (negsuc 0)) (pure (pos 0))))

  -- The part that setLongFld and beginLoadBinaryData share: the statement is prepared, with room for its
  -- parameters.
  unfoldable pub open_parms : Option CStr → Do ℤ → Do ℤ
  open_parms sql next = stage (set_sql sql) (pure (negsuc 0)) (
      stage (prepare_own client) (pure (negsuc 0))
        (stage (on_cursor (allocate_parm_bind_struct client)) (report_fail client) next))

  -- `text_len` is strlen(longMsg), which is read for SQL_TEXT only.
  unfoldable pub set_long_fld : Option CStr → Ptr → ℕ → ℕ → LongType → Bool → Do ℤ
  set_long_fld sql long_msg len text_len long_type is_commit = do
    set_operation statement
    when long_msg == null
        run pure (negsuc 0)
        otherwise open_parms sql (elim long_type [
          | long_other ↦ close_fail client
          | long_binary ↦ send_long long_msg mysql_type_blob len is_commit
          | long_text ↦ send_long long_msg mysql_type_string text_len is_commit
        ])

  -- The end of beginLoadBinaryData, from bindPos on.
  unfoldable pub bind_stream : ℕ → Do ℤ
  bind_stream buffer_type = do
    _ ← on_cursor (bind_pos 0 (parm buffer_type null 0 (some 0)))
    stage_zero (on_cursor (bind_parm client)) (report_fail client) (pure (pos 0))

  unfoldable pub begin_load_binary_data : Option CStr → LongType → Do ℤ
  begin_load_binary_data sql col_type = do
    set_operation statement
    open_parms sql (elim col_type [
      | long_other ↦ close_fail client
      | long_binary ↦ bind_stream mysql_type_blob
      | long_text ↦ bind_stream mysql_type_string
    ])

  unfoldable pub transfer_bin_data : Ptr → ℕ → Do ℤ
  transfer_bin_data pdata data_len = do
    set_operation statement
    stage_zero (on_cursor (bind_large_parm client 0 pdata data_len)) (report_fail client)
        (pure (pos 0))

  unfoldable pub end_load_binary_data : Bool → Do ℤ
  end_load_binary_data is_commit = do
    set_operation statement
    stage (in_exec client is_commit) (pure (negsuc 0)) (pure (pos 0))
