-- ===== src/Mysql/Cursor/Parms.antt =====
-- src/mysqlapi.cpp: the methods of mysql_cursor that bind the parameters of a statement.
use dbsqlapi.Prelude.{ℕ, none, some, ℤ, pos, negsuc, ◌==◌, ltb, length, set, replicate}
use dbsqlapi.Heap.{Ptr, null}
use dbsqlapi.State.{pure, ◌>>=◌, ◌>>◌, when◌run◌otherwise◌}
use dbsqlapi.Mysql.Client.{Client, undefined, op_param_count, op_bind_param, op_send_long_data}
use dbsqlapi.Mysql.Cursor.{ParmBind, Act, emit, change, get_cur, to_int, is_positive, blank_parm}
use dbsqlapi.Mysql.Cursor.Statement.{ask}

unfoldable pub release_parm_bind_struct : Act (Unit {0})
unfolding change
release_parm_bind_struct = change (λ d. record d { parm_bind = none })

-- The number of elements of `new MYSQL_BIND[parm_count]`.
abbrev pub count_of : ℤ → ℕ
count_of (pos n) = n
count_of (negsuc n) = 0

-- `position` is not negative in any call of the driver.
unfoldable pub bind_pos : ℕ → ParmBind → Act ℤ
unfolding change get_cur emit
bind_pos position b = do
  c ← get_cur
  elim c.parm_bind [
    | none ↦ pure (pos 0)
    | some bs ↦
        when ltb position (length bs)
        run (do change (λ d. record d { parm_bind = some (set bs position b) }); pure (pos 0))
        otherwise (do emit undefined; pure (pos 0))
  ]

module _ (client : Client) where
  unfoldable pub get_param_count : Act ℤ
  unfolding ask get_cur
  get_param_count = do
    c ← get_cur
    when c.stmtp == null
        run pure (negsuc 0)
        otherwise (do n ← ask client op_param_count; pure (to_int n))

  unfoldable pub allocate_parm_bind_struct : Act ℤ
  unfolding get_param_count release_parm_bind_struct change
  allocate_parm_bind_struct = do
    n ← get_param_count
    when is_positive n
        run (do
          release_parm_bind_struct
          change (λ d. record d { parm_bind = some (replicate (count_of n) blank_parm) })
          pure (pos 0))
        otherwise pure (negsuc 0)

  unfoldable pub bind_large_parm : ℕ → Ptr → ℕ → Act ℕ
  unfolding ask
  bind_large_parm position text len = ask client (op_send_long_data position text len)

  unfoldable pub bind_parm : Act ℕ
  unfolding ask
  bind_parm = ask client op_bind_param
