-- ===== src/Mysql/Queries/Tests.antt =====
-- A query of src/mysqlapi.cpp on a list with two cursors.
use dbsqlapi.Prelude.{
  false, ◌+◌, ℕ, refl, some, none, [], ◌∷◌, pos, negsuc, arith, ◌==◌, if◌then◌else◌,
}
use dbsqlapi.Heap.{Heap}
use dbsqlapi.Mysql.CursorList.{ListNode, CursorList}
use dbsqlapi.Mysql.CursorList.Links.{Cells, node}
use dbsqlapi.Mysql.CursorList.Holds.{Holds}
use dbsqlapi.Mysql.Connection.{MysqlConnect, connected}
use dbsqlapi.Mysql.Client.{Client}
use dbsqlapi.Mysql.Queries.{CursorApi}
use dbsqlapi.Mysql.Queries.Cursors.{Outcome, outcome, cursor_api}
use dbsqlapi.Mysql.Cursor.Statement.{open_cur, close_cur, prepare, execute}
use dbsqlapi.Mysql.Cursor.Define.{define}
use dbsqlapi.Mysql.Queries.Close.{Closed, close_query-Closed}
use dbsqlapi.Mysql.Queries.Laws.{Answers, query-Answers}

abbrev two : Cells ℕ
two = (1, 4, 90) ∷ (2, 7, 80) ∷ []

abbrev heap : Heap (ListNode ℕ)
heap = record {
  cell =
      λ p. if p == 1 then some (node 4 90 0 2) else if p == 2 then some (node 7 80 1 0) else none;
  next = 3;
}

abbrev list : CursorList
list = record { head = 1; tail = 2; index = 7 }

list-Holds : Holds heap list two
list-Holds = record {
  head = refl;
  tail = refl;
  chain = (omega arith, refl, refl, (omega arith, refl, refl, tt));
  below = (omega arith, (omega arith, tt));
  some_next = omega arith;
  numbered = (omega arith, refl, (omega arith, refl, tt));
}

-- A cursor that prepares an empty statement only, and tells how far it has come.
abbrev cursor : CursorApi ℕ
cursor = record {
  fresh = 0;
  open_cur = λ d. (pos 0, 1);
  prepare = λ sql d. elim sql [ [] ↦ (pos 0, 2) | c ∷ cs ↦ (negsuc 0, 2) ];
  define = λ d. (pos 0, 3);
  execute = λ d. (pos 0, 4);
  close_cur = λ d. 0;
  affect_rec = λ d. pos 1;
  fetch = λ d. (if d == 4 then 0 else 100, d + 1);
  no_data = λ r d. (r == 100, d);
}

query-Answers_example : Answers heap 4 cursor list two [] (some 4)
query-Answers_example = query-Answers list-Holds 4 (omega arith) (omega arith) cursor []

query-refused : Answers heap 4 cursor list two (3 ∷ []) none
query-refused = query-Answers list-Holds 4 (omega arith) (omega arith) cursor (3 ∷ [])

close_query-Closed_example : Closed heap 3 cursor list two 4
close_query-Closed_example = close_query-Closed list-Holds 3 (omega arith) cursor 4

abbrev obliging : Client
obliging = record {
  new_stmt = λ h. 9;
  closes_badly = λ h. false;
  answer = λ op h. 0;
  error_text = λ h. [];
  metadata = λ h. 5;
  num_fields = λ h. 1;
  num_rows = λ h. 1;
  fields = λ h. record { name = 105 ∷ []; field_type = 3; length = 11; is_unsigned = false } ∷ [];
  row = λ h. [];
}

abbrev up : MysqlConnect
up = record { db_state = connected; transaction = false }

abbrev held : Outcome
held = outcome (cursor_api obliging up) (105 ∷ [])
