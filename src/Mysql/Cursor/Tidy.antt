-- ===== src/Mysql/Cursor/Tidy.antt =====
-- A mysql_cursor of src/mysqlapi.cpp and what the client library has been asked: the pointers that it
-- keeps are the statement and the result that are open.
use dbsqlapi.Prelude.{
  ◌+◌, ◌≡◌, refl, inl, inr, Bool, true, false, ◌||◌, not, Option, none, some, ℤ, negsuc, is_neg,
  arith, ◌==◌, if◌then◌else◌, Bool-cases,
}
use dbsqlapi.Heap.{null}
use dbsqlapi.State.{pure, ◌>>=◌, ◌>>◌, when◌run◌otherwise◌, stage}
use dbsqlapi.Mysql.Connection.{MysqlConnect}
use dbsqlapi.Mysql.Client.{Client, StmtOp}
use dbsqlapi.Mysql.Client.Protocol.{held_stmt, held_result, IsLegal, made, ended}
use dbsqlapi.Mysql.Cursor.{Traced, Act, is_opened, emit, change, get_cur}
use dbsqlapi.Mysql.Cursor.Statement.{ask, init_stmt, open_cur, free_meta, close_stmt, close_cur}

-- `b` says whether the cursor is open.
pub record IsTidy (b : Bool) (s : Traced) : Type 0 where
  pub open_is : is_opened s.cur.state ≡ b
  pub stmt : s.cur.stmtp ≡ held_stmt s.calls
  pub meta : s.cur.meta ≡ held_result s.calls
  pub has_stmt : (s.cur.stmtp == null) ≡ not b
  pub no_meta : (b || (s.cur.meta == null)) ≡ true
  pub legal : IsLegal s.calls
  pub balance : made s.calls ≡ ended s.calls + (if b then 1 else 0)

-- A method called on a cursor that is open or not, as `b` says, leaves one that is open or not, as `f` says
-- of the value that it returns.
abbrev pub Takes : {A : Type 0} → Bool → Act A → (A → Bool) → Type 0
Takes b m f = (s : Traced) → IsTidy b s → IsTidy (f (m s).0) (m s).1

abbrev pub Keeps : {A : Type 0} → Bool → Act A → Type 0
Keeps b m = Takes b m (λ _. b)

module _ {A : Type 0} where
  pub pure-Takes : (b : Bool) (a : A) → Keeps b (pure a)
  unfolding pure
  pure-Takes b a s t = t

  pub bind-Takes :
      {B : Type 0} (b : Bool) (m : Act A) (k : A → Act B) (f : A → Bool) (g : B → Bool)
      → Takes b m f
      → ((a : A) → Takes (f a) (k a) g)
      → Takes b (m >>= k) g
  unfolding ◌>>=◌
  bind-Takes b m k f g hm hk s t = hk (m s).0 (m s).1 (hm s t)

  pub when-Takes :
      (b c : Bool) (m k : Act A) (f : A → Bool)
      → Takes b m f
      → Takes b k f
      → Takes b (when c run m otherwise k) f
  unfolding when◌run◌otherwise◌
  when-Takes b true m k f hm hk = hm
  when-Takes b false m k f hm hk = hk

  pub stage-Takes :
      (b : Bool) (op : Act ℤ) (failed next : Act A) (h : Bool → Bool) (f : A → Bool)
      → Takes b op (λ r. h (is_neg r))
      → Takes (h true) failed f
      → Takes (h false) next f
      → Takes b (stage op failed next) f
  unfolding stage pure ◌>>=◌ ◌>>◌ when◌run◌otherwise◌
  stage-Takes b op failed next h f hop hf hn s t = elim (Bool-cases (is_neg (op s).0)) [
    | inl neg ↦ rw neg (hf (op s).1 (rw neg at (hop s t)))
    | inr fine ↦ rw fine (hn (op s).1 (rw fine at (hop s t)))
  ]

module _ (client : Client) where
  pub ask-Keeps : (op : StmtOp) → Keeps true (ask client op)
  unfolding ask pure ◌>>=◌ ◌>>◌ when◌run◌otherwise◌
  ask-Keeps op s t = ground arith

  pub open_cur-Takes :
      (conn : Option MysqlConnect) → Takes false (open_cur client conn) (λ r. not (is_neg r))
  unfolding open_cur init_stmt get_cur change pure ◌>>=◌ ◌>>◌ when◌run◌otherwise◌
  open_cur-Takes none s t = t
  open_cur-Takes (some conn) s t = ground arith

  -- A cursor that is open is not opened again.
  pub open_cur_again :
      (conn : Option MysqlConnect) (s : Traced)
      → IsTidy true s
      → open_cur client conn s ≡ (negsuc 0, s)
  unfolding open_cur get_cur pure ◌>>=◌ ◌>>◌ when◌run◌otherwise◌
  open_cur_again none s t = refl
  open_cur_again (some conn) s t = rw t.open_is

  pub close_cur-Takes : (b : Bool) → Takes b (close_cur client) (λ _. false)
  unfolding close_cur close_stmt free_meta get_cur change emit pure ◌>>=◌ ◌>>◌ when◌run◌otherwise◌
  close_cur-Takes true s t = ground arith
  close_cur-Takes false s t = ground arith
