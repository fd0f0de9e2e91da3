-- ===== src/Mysql/Queries.antt =====
-- src/mysqlapi.cpp: mysqlapi::query, fetch, getCurRec and closeQuery over the list of cursors. The methods of
-- mysql_cursor are a parameter: what each returns and what it makes of the cursor. The message that
-- reportErrorInfo copies is left out, and so is now_operation, which tells getErrInfo which message to take.
pub mod Cells
pub mod Close
pub mod Laws
pub mod Cursors
mod Tests
use dbsqlapi.Prelude.{
  ℕ, zero, suc, ◌+◌, Bool, true, false, Option, none, some, CStr, ℤ, pos, negsuc, is_neg, ◌==◌,
  if◌then◌else◌,
}
use dbsqlapi.Heap.{Ptr, null, Heap, Cmd, pure, ◌>>=◌, ◌>>◌, when◌run◌otherwise◌, load, modify}
use dbsqlapi.Mysql.CursorList.{ListNode, CursorList, add, find, del}

-- mysql_cursor: its constructor and its methods.
pub record CursorApi (D : Type 0) : Type 0 where
  pub fresh : D
  pub open_cur : D → ℤ × D
  pub prepare : CStr → D → ℤ × D
  pub define : D → ℤ × D
  pub execute : D → ℤ × D
  pub close_cur : D → D
  pub affect_rec : D → ℤ
  pub fetch : D → ℕ × D
  pub no_data : ℕ → D → Bool × D

-- What a call leaves: its code, the handle that it has written, and the list.
pub record Reply : Type 0 where
  pub code : ℤ
  pub handle : Option ℕ
  pub list : CursorList

module _ {D : Type 0} where
  -- `ptr->op()`
  pub method : (D → ℤ × D) → Ptr → Cmd (ListNode D) ℤ
  method op ptr = do
    n ← load ptr
    modify ptr (λ m. record m { data_of = (op n.data_of).1 })
    pure (op n.data_of).0

  -- `ptr->closeCur()`
  pub close : CursorApi D → Ptr → Cmd (ListNode D) (Unit {0})
  close api ptr = modify ptr (λ m. record m { data_of = api.close_cur m.data_of })

  -- The end of a query that fails.
  pub give_up : ℕ → CursorList → ℕ → Cmd (ListNode D) Reply
  give_up k l hd = do
    (_, l') ← del k l hd
    pure (record { code = negsuc 0; handle = none; list = l' })

  -- The same, for a cursor that is open.
  pub unwind : ℕ → CursorApi D → CursorList → ℕ → Ptr → Cmd (ListNode D) Reply
  unfolding close give_up
  unwind k api l hd ptr = do close api ptr; give_up k l hd

  -- `if(ptr->op()<0) { failed } next`
  pub stage :
      (D → ℤ × D) → Ptr → Cmd (ListNode D) Reply → Cmd (ListNode D) Reply → Cmd (ListNode D) Reply
  unfolding method
  stage op ptr failed next = do r ← method op ptr; when is_neg r run failed otherwise next

  pub query : ℕ → CursorApi D → CursorList → Option CStr → Cmd (ListNode D) Reply
  unfolding stage give_up unwind
  query k api l none = pure (record { code = negsuc 0; handle = none; list = l })
  query k api l (some sql) = do
    (hd, l1) ← add api.fresh l
    ptr ← find k l1 hd
    when ptr == null
        run pure (record { code = negsuc 0; handle = none; list = l1 })
        otherwise stage api.open_cur ptr (give_up k l1 hd) (
            stage (api.prepare sql) ptr (unwind k api l1 hd ptr) (
              stage api.define ptr (unwind k api l1 hd ptr) (
                stage api.execute ptr (unwind k api l1 hd ptr)
                  (pure (record { code = pos 0; handle = some hd; list = l1 })))))

  -- What `fetch` leaves: its code, and the cursor that output() reads, for a row that is there.
  pub fetch : ℕ → CursorApi D → CursorList → ℕ → Cmd (ListNode D) (ℤ × Option D)
  fetch k api l handle = do
    ptr ← find k l handle
    when ptr == null run pure (negsuc 0, none) otherwise (do
      n ← load ptr
      let (result, d) = api.fetch n.data_of
      modify ptr (λ m. record m { data_of = d })
      when result == 0 run pure (pos 0, some d) otherwise (do
        let (nothing, e) = api.no_data result d
        modify ptr (λ m. record m { data_of = e })
        pure (if nothing then negsuc 2 else negsuc 0, none)))

  -- The row goes to a list that is local.
  pub no_value_fetch : ℕ → CursorApi D → CursorList → ℕ → Cmd (ListNode D) (ℤ × Option D)
  no_value_fetch k api l handle = fetch k api l handle

  -- The second component is what is written through `rowCount`.
  pub get_cur_rec : ℕ → CursorApi D → CursorList → ℕ → Cmd (ListNode D) (ℤ × Option ℤ)
  get_cur_rec k api l handle = do
    ptr ← find k l handle
    when ptr == null
        run pure (negsuc 0, none)
        otherwise (do n ← load ptr; pure (pos 0, some (api.affect_rec n.data_of)))

  pub close_query : ℕ → CursorApi D → CursorList → ℕ → Cmd (ListNode D) (ℤ × CursorList)
  unfolding close
  close_query k api l handle = do
    ptr ← find k l handle
    when ptr == null
        run pure (negsuc 0, l)
        otherwise (do close api ptr; (_, l') ← del k l handle; pure (pos 0, l'))
