-- ===== src/Mysql/CursorList.antt =====
-- src/mysqlapi.h: the template mysql_cursorList, a doubly linked list of cursors by handle. The list
-- object is a record, its nodes are in the heap, and loops run on fuel. `D` is the type of the cursors.
pub mod Links
pub mod Rewire
pub mod Unlink
pub mod Place
pub mod Holds
pub mod Taken
pub mod Del
pub mod Snoc
pub mod Add
pub mod Free
mod Tests
use dbsqlapi.Prelude.{ℕ, zero, suc, ◌+◌, Bool, true, false, ℤ, pos, negsuc, ◌==◌, ltb}
use dbsqlapi.Heap.{
  Ptr, null, Heap, Cmd, ok, fault, out_of_fuel, pure, ◌>>=◌, ◌>>◌, when◌run◌otherwise◌, load,
  modify, delete, alloc,
}

pub record ListNode (D : Type 0) : Type 0 where
  pub data_of : D
  pub handle : ℕ
  pub prev : Ptr
  pub next : Ptr

pub record CursorList : Type 0 where
  pub head : Ptr
  pub tail : Ptr
  pub index : ℕ

-- INT_MAX, for 32-bit int
abbrev pub int_max : ℕ
int_max = 2147483647

-- mysql_cursorList::mysql_cursorList()
abbrev pub new_list : CursorList
new_list = record { head = null; tail = null; index = 0 }

module _ {D : Type 0} where
  -- The loop of `_find`.
  pub find_loop : ℕ → ℕ → Ptr → Cmd (ListNode D) Ptr
  find_loop zero s_handle ptr = λ _. out_of_fuel
  find_loop (suc k) s_handle ptr = when ptr == null run pure null otherwise do
    n ← load ptr
    when n.handle == s_handle run pure ptr otherwise find_loop k s_handle n.next

  -- `_find`, and `find`, whose result points to the cursor in the same node.
  pub find : ℕ → CursorList → ℕ → Cmd (ListNode D) Ptr
  unfolding find_loop
  find k l s_handle = find_loop k s_handle l.head

  -- `d` is the cursor that its constructor makes. `++index` beyond INT_MAX is undefined.
  pub add : D → CursorList → Cmd (ListNode D) (ℕ × CursorList)
  add d l = do
    ptr ← alloc (record { data_of = d; handle = 0; prev = null; next = null })
    l' ←
        when l.head == null
        run (do modify ptr (λ n. record n { prev = null }); pure (record l { head = ptr }))
        otherwise (do
          modify l.tail (λ n. record n { next = ptr })
          modify ptr (λ n. record n { prev = l.tail })
          pure l)
    modify ptr (λ n. record n { next = null })
    when ltb l.index int_max
        run (do
          modify ptr (λ n. record n { handle = l.index + 1 })
          pure (l.index + 1, record l' { tail = ptr; index = l.index + 1 }))
        otherwise (λ _. fault)

  -- The two tests of `del`.
  pub unlink_head : Ptr → CursorList → Cmd (ListNode D) CursorList
  unlink_head ptr l =
      when ptr == l.head
      run (do n ← load l.head; pure (record l { head = n.next }))
      otherwise (do n ← load ptr; modify n.prev (λ b. record b { next = n.next }); pure l)

  pub unlink_tail : Ptr → CursorList → Cmd (ListNode D) CursorList
  unlink_tail ptr l =
      when ptr == l.tail
      run (do n ← load l.tail; pure (record l { tail = n.prev }))
      otherwise (do n ← load ptr; modify n.next (λ b. record b { prev = n.prev }); pure l)

  -- The body of `del` once `_find` has found the node.
  pub take_out : Ptr → CursorList → Cmd (ListNode D) CursorList
  unfolding unlink_head unlink_tail
  take_out ptr l = do l1 ← unlink_head ptr l; l2 ← unlink_tail ptr l1; delete ptr; pure l2

  pub del : ℕ → CursorList → ℕ → Cmd (ListNode D) (ℤ × CursorList)
  unfolding take_out find
  del k l d_handle = do
    ptr ← find k l d_handle
    when ptr == null run pure (pos 1, l) otherwise (do l' ← take_out ptr l; pure (pos 0, l'))

  -- The loop of `free`.
  pub free_loop : ℕ → ℕ → CursorList → Ptr → Cmd (ListNode D) CursorList
  unfolding del
  free_loop m zero l curptr = λ _. out_of_fuel
  free_loop m (suc k) l curptr =
      when curptr == null
      run pure l
      otherwise do n ← load curptr; (_, l') ← del m l n.handle; free_loop m k l' n.next

  pub free : ℕ → CursorList → Cmd (ListNode D) CursorList
  unfolding free_loop
  free k l = do l' ← free_loop k k l l.head; pure (record l' { head = null; tail = null })
