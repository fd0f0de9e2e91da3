-- ===== src/Mysql/Cursor/Define.antt =====
-- src/mysqlapi.cpp: the methods of mysql_cursor that prepare the columns of a result.
use dbsqlapi.Prelude.{
  ℕ, ◌+◌, Bool, true, false, none, some, List, [], ◌∷◌, ℤ, pos, negsuc, ◌==◌, leb, ltb,
  if◌then◌else◌, length, replicate,
}
use dbsqlapi.Heap.{Ptr, null}
use dbsqlapi.State.{pure, ◌>>=◌, ◌>>◌, when◌run◌otherwise◌, stage}
use dbsqlapi.Mysql.Client.{
  Client, FieldInfo, on_result, result_metadata, undefined, op_bind_result, op_num_fields,
  op_fetch_fields,
}
use dbsqlapi.Mysql.Cursor.{
  Column, Act, emit, change, get_cur, blank_column, string_size, mysql_type_datetime,
  sizeof_mysql_time, is_opened,
}
use dbsqlapi.Mysql.Cursor.Statement.{ask, fail_or, free_meta, close_cur}

-- The round of _getDefineMetaInfo for one column.
abbrev pub fill_column : FieldInfo → Column → Column
fill_column f c = record c {
  col_name = f.name;
  field_type = f.field_type;
  length = f.length;
  is_unsigned = f.is_unsigned;
}

-- The rounds, and whether each writes inside the arrays: there is an element, and the name and its NUL
-- have room in col_name.
unfoldable pub fill_columns : List FieldInfo → List Column → List Column × Bool
fill_columns [] cs = (cs, true)
fill_columns (f ∷ fs) [] = ([], false)
fill_columns (f ∷ fs) (c ∷ cs) =
    let rest = fill_columns fs cs in
    (fill_column f c ∷ rest.0, if ltb (length f.name) string_size then rest.1 else false)

-- The round of define() for one column.
abbrev pub buffer_size : Column → ℕ
buffer_size c = if c.field_type == mysql_type_datetime then sizeof_mysql_time else c.length

abbrev pub bind_column : Column → Column
bind_column c = record c {
  buf = some (replicate (buffer_size c + 1) 0);
  buffer_length = buffer_size c;
}

-- The memset of define() clears `length + 1` bytes of a buffer of `buffer_size + 1`.
abbrev pub column_fits : Column → Bool
column_fits c = leb c.length (buffer_size c)

unfoldable pub bind_columns : List Column → List Column × Bool
bind_columns [] = ([], true)
bind_columns (c ∷ cs) =
    let rest = bind_columns cs in (bind_column c ∷ rest.0, if column_fits c then rest.1 else false)

-- The number of columns is checked before the arrays are deleted.
unfoldable pub release_define_struct : Act (Unit {0})
unfolding change
release_define_struct =
    change (λ d. record d { columns = if d.item_num == 0 then d.columns else []; item_num = 0 })

module _ (client : Client) where
  unfoldable pub get_metadata : Act Ptr
  get_metadata s = (
    client.metadata s.calls,
    record s { calls = result_metadata s.cur.stmtp (client.metadata s.calls) ∷ s.calls },
  )

  unfoldable pub get_num_fields : Act ℕ
  get_num_fields s =
      (client.num_fields s.calls, record s { calls = on_result op_num_fields s.cur.meta ∷ s.calls })

  unfoldable pub get_fields : Act (List FieldInfo)
  get_fields s =
      (client.fields s.calls, record s { calls = on_result op_fetch_fields s.cur.meta ∷ s.calls })

  unfoldable pub get_define_col_count : Act ℤ
  unfolding free_meta get_metadata get_num_fields change
  get_define_col_count = do
    free_meta client
    r ← get_metadata
    change (λ d. record d { meta = r })
    when r == null run pure (negsuc 0) otherwise (do
      n ← get_num_fields
      change (λ d. record d { item_num = n })
      pure (if n == 0 then negsuc 0 else pos 0))

  unfoldable pub get_define_meta_info : Act ℤ
  unfolding get_fields change get_cur emit fill_columns
  get_define_meta_info = do
    c ← get_cur
    when c.meta == null run pure (negsuc 0) otherwise (do
      fs ← get_fields
      change (λ d. record d { columns = (fill_columns fs c.columns).0 })
      when (fill_columns fs c.columns).1
          run pure (pos 0)
          otherwise (do emit undefined; pure (pos 0)))

  unfoldable pub allocate_define_struct : Act ℤ
  unfolding stage release_define_struct get_define_col_count get_define_meta_info change
  allocate_define_struct = do
    release_define_struct
    stage get_define_col_count (pure (negsuc 0)) (do
      change (λ d. record d { columns = replicate d.item_num blank_column })
      get_define_meta_info)

  -- The loop of define().
  unfoldable pub bind_all : Act (Unit {0})
  unfolding change get_cur emit bind_columns
  bind_all = do
    c ← get_cur
    change (λ d. record d { columns = (bind_columns c.columns).0 })
    when (bind_columns c.columns).1 run pure tt otherwise emit undefined

  unfoldable pub define : Act ℤ
  unfolding stage allocate_define_struct bind_all ask
  define =
      stage allocate_define_struct (pure (negsuc 0))
        (do bind_all; fail_or client op_bind_result (pure (pos 0)))

  -- ~mysql_cursor
  unfoldable pub destroy_cursor : Act (Unit {0})
  unfolding close_cur release_define_struct change get_cur
  destroy_cursor = do
    c ← get_cur
    when is_opened c.state run (do _ ← close_cur client; pure tt) otherwise pure tt
    change (λ d. record d { parm_bind = none })
    release_define_struct
