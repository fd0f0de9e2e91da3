-- ===== src/Mysql/Cursor/Kept.antt =====
-- The methods of mysql_cursor (src/mysqlapi.cpp) that leave the statement open or closed as it is.
use dbsqlapi.Prelude.{ℕ, Bool, true, false, CStr, arith, replicate}
use dbsqlapi.State.{pure, ◌>>=◌, ◌>>◌, when◌run◌otherwise◌, stage}
use dbsqlapi.Mysql.Client.{Client, op_bind_result}
use dbsqlapi.Mysql.Client.Protocol.{IsDefined}
use dbsqlapi.Mysql.Cursor.Statement.{
  close_stmt, close_cur, ask, free_meta, prepare, execute, affect_rec, fetch,
}
use dbsqlapi.Mysql.Cursor.{Traced, ParmBind, emit, change, get_cur, blank_column}
use dbsqlapi.Mysql.Cursor.Define.{
  release_define_struct, get_metadata, get_num_fields, get_fields, get_define_col_count,
  get_define_meta_info, allocate_define_struct, bind_all, define, destroy_cursor,
}
use dbsqlapi.Mysql.Cursor.Parms.{
  release_parm_bind_struct, bind_pos, get_param_count, allocate_parm_bind_struct,
}
use dbsqlapi.Mysql.Cursor.Message.{
  is_stmt_result_no_data, get_stmt_err_no, stmt_error, copy_error, get_stmt_err_info,
}
use dbsqlapi.Mysql.Cursor.Tidy.{IsTidy, Takes, Keeps, ask-Keeps, close_cur-Takes}

module _ (client : Client) where
  pub prepare-Keeps : (sql : CStr) → Keeps true (prepare client sql)
  unfolding prepare ask pure ◌>>=◌ ◌>>◌ when◌run◌otherwise◌
  prepare-Keeps sql s t = ground arith

  pub execute-Keeps : (select : Bool) → Keeps true (execute client select)
  unfolding execute ask pure ◌>>=◌ ◌>>◌ when◌run◌otherwise◌
  execute-Keeps select s t = ground arith

  pub affect_rec-Keeps : Keeps true (affect_rec client)
  unfolding affect_rec ask pure ◌>>=◌ ◌>>◌ when◌run◌otherwise◌
  affect_rec-Keeps s t = ground arith

  pub fetch-Keeps : Keeps true (fetch client)
  unfolding fetch ask change get_cur emit pure ◌>>=◌ ◌>>◌ when◌run◌otherwise◌
  fetch-Keeps s t = ground arith

  get_define_col_count-Keeps : Keeps true (get_define_col_count client)
  unfolding get_define_col_count free_meta get_metadata get_num_fields change get_cur emit pure
      ◌>>=◌ ◌>>◌ when◌run◌otherwise◌
  get_define_col_count-Keeps s t = ground arith

  get_define_meta_info-Keeps : Keeps true (get_define_meta_info client)
  unfolding get_define_meta_info get_fields change get_cur emit pure ◌>>=◌ ◌>>◌ when◌run◌otherwise◌
  get_define_meta_info-Keeps s t = ground arith

  allocate_define_struct-Keeps : Keeps true (allocate_define_struct client)
  unfolding stage allocate_define_struct release_define_struct change pure ◌>>=◌ ◌>>◌
      when◌run◌otherwise◌
  allocate_define_struct-Keeps s t =
      let s1 = (release_define_struct s).1 in
      let counted = get_define_col_count-Keeps s1 (ground arith) in
      let s2 = (get_define_col_count client s1).1 in
      let filled =
        get_define_meta_info-Keeps
          (record s2 { cur = record s2.cur { columns = replicate s2.cur.item_num blank_column } })
          (ground (arith, counted)) in
      ground (arith, counted, filled)

  bind_all-Keeps : Keeps true (bind_all client)
  unfolding bind_all change get_cur emit pure ◌>>=◌ ◌>>◌ when◌run◌otherwise◌
  bind_all-Keeps s t = ground arith

  pub define-Keeps : Keeps true (define client)
  unfolding stage define pure ◌>>=◌ ◌>>◌ when◌run◌otherwise◌
  define-Keeps s t =
      let s1 = (allocate_define_struct client s).1 in
      let s2 = (bind_all client s1).1 in
      let bound =
        ask-Keeps client op_bind_result s2 (bind_all-Keeps s1 (allocate_define_struct-Keeps s t)) in
      ground (arith, allocate_define_struct-Keeps s t, bound)

  pub release_parm_bind_struct-Keeps : (b : Bool) → Keeps b release_parm_bind_struct
  unfolding release_parm_bind_struct change pure ◌>>=◌ ◌>>◌ when◌run◌otherwise◌
  release_parm_bind_struct-Keeps b s t = ground arith

  pub bind_pos-Keeps : (b : Bool) (position : ℕ) (p : ParmBind) → Keeps b (bind_pos position p)
  unfolding bind_pos change get_cur emit pure ◌>>=◌ ◌>>◌ when◌run◌otherwise◌
  bind_pos-Keeps b position p s t = ground arith

  pub allocate_parm_bind_struct-Keeps : Keeps true (allocate_parm_bind_struct client)
  unfolding allocate_parm_bind_struct get_param_count release_parm_bind_struct change get_cur ask
      pure ◌>>=◌ ◌>>◌ when◌run◌otherwise◌
  allocate_parm_bind_struct-Keeps s t = ground arith

  pub get_stmt_err_no-Keeps : (b : Bool) → Keeps b (get_stmt_err_no client)
  unfolding get_stmt_err_no change get_cur ask pure ◌>>=◌ ◌>>◌ when◌run◌otherwise◌
  get_stmt_err_no-Keeps true s t = ground arith
  get_stmt_err_no-Keeps false s t = ground arith

  copy_error-Keeps : Keeps true (copy_error client)
  unfolding copy_error stmt_error change get_cur emit pure ◌>>=◌ ◌>>◌ when◌run◌otherwise◌
  copy_error-Keeps s t = ground arith

  pub get_stmt_err_info-Keeps : (b : Bool) → Keeps b (get_stmt_err_info client)
  unfolding get_stmt_err_info get_cur pure ◌>>=◌ ◌>>◌ when◌run◌otherwise◌
  get_stmt_err_info-Keeps true s t =
      ground (arith, get_stmt_err_no-Keeps true s t, copy_error-Keeps (get_stmt_err_no client s).1)
  get_stmt_err_info-Keeps false s t = ground (arith, t.has_stmt)

  pub is_stmt_result_no_data-Keeps : (b : Bool) (r : ℕ) → Keeps b (is_stmt_result_no_data r)
  unfolding is_stmt_result_no_data change pure ◌>>=◌ ◌>>◌ when◌run◌otherwise◌
  is_stmt_result_no_data-Keeps b r s t = ground arith

  -- The destructor closes the statement.
  pub destroy_cursor-Takes : (b : Bool) → Takes b (destroy_cursor client) (λ _. false)
  unfolding destroy_cursor release_define_struct change get_cur pure ◌>>=◌ ◌>>◌ when◌run◌otherwise◌
  destroy_cursor-Takes true s t = ground (arith, close_cur-Takes client true s t)
  destroy_cursor-Takes false s t = ground arith

  -- Nor does it write outside an array.
  pub destroy_cursor-IsDefined :
      (b : Bool) (s : Traced)
      → IsTidy b s
      → IsDefined s.calls
      → IsDefined (destroy_cursor client s).1.calls
  unfolding destroy_cursor release_parm_bind_struct release_define_struct close_cur close_stmt
      free_meta get_cur change emit pure ◌>>=◌ ◌>>◌ when◌run◌otherwise◌
  destroy_cursor-IsDefined true s t d = ground (arith, t.has_stmt)
  destroy_cursor-IsDefined false s t d = ground (arith, t.open_is)
