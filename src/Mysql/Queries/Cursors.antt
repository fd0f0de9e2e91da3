-- ===== src/Mysql/Queries/Cursors.antt =====
-- The cursors of mysqlapi::query are objects of class mysql_cursor (src/mysqlapi.cpp).
use dbsqlapi.Prelude.{◌≡◌, true, false, Option, none, some, [], CStr, ℤ, is_neg, if◌then◌else◌}
use dbsqlapi.Mysql.Connection.{MysqlConnect}
use dbsqlapi.Mysql.Client.{Client}
use dbsqlapi.Mysql.Client.Protocol.{IsLegal, IsDefined, made, ended}
use dbsqlapi.Mysql.Cursor.{Traced, fresh_cursor}
use dbsqlapi.Mysql.Cursor.Statement.{open_cur, close_cur, prepare, execute, affect_rec, fetch}
use dbsqlapi.Mysql.Cursor.Define.{define, destroy_cursor}
use dbsqlapi.Mysql.Cursor.Message.{is_stmt_result_no_data}
use dbsqlapi.Mysql.Cursor.Tidy.{IsTidy}
use dbsqlapi.Mysql.Queries.{CursorApi}

-- Each cursor comes with the calls that were made for it.
abbrev pub new_cursor : Traced
new_cursor = record { cur = fresh_cursor; calls = [] }

abbrev pub cursor_api : Client → MysqlConnect → CursorApi Traced
cursor_api client conn = record {
  fresh = new_cursor;
  open_cur = open_cur client (some conn);
  prepare = prepare client;
  define = define client;
  execute = execute client true;
  close_cur = λ d. (close_cur client d).1;
  affect_rec = λ d. (affect_rec client d).0;
  fetch = fetch client;
  no_data = is_stmt_result_no_data;
}

-- How the cursor of a query ends: handed out, or given up to be deleted.
pub data Outcome : Type 0 where
  handed_out given_up : Traced → Outcome

abbrev pub cursor_of : Outcome → Traced
cursor_of (handed_out d) = d
cursor_of (given_up d) = d

abbrev pub kept : Outcome → Option Traced
kept (handed_out d) = some d
kept (given_up d) = none

-- `if(ptr->op()<0) { undo; give the cursor up } next`, for the cursor alone: `stage` of Queries with its
-- `give_up` or `unwind`.
abbrev pub try_stage :
    (Traced → ℤ × Traced) → (Traced → Traced) → (Traced → Outcome) → Traced → Outcome
try_stage op undo next d = if is_neg (op d).0 then given_up (undo (op d).1) else next (op d).1

abbrev pub outcome : CursorApi Traced → CStr → Outcome
outcome api sql =
    try_stage api.open_cur (λ d. d)
      (try_stage (api.prepare sql) api.close_cur
        (try_stage api.define api.close_cur (try_stage api.execute api.close_cur handed_out)))
      api.fresh

abbrev pub IsLeft : Outcome → Type 0
IsLeft (handed_out d) = IsTidy true d
IsLeft (given_up d) = IsTidy false d

module _ (client : Client) where
  -- What holds of the cursor: it is open, or it is not and its destructor leaves nothing behind.
  abbrev pub Settles : Outcome → Type 0
  Settles (handed_out d) = IsTidy true d
  Settles (given_up d) =
      let h = (destroy_cursor client d).1.calls in
      IsTidy false d × IsLegal h × IsDefined h × (made h ≡ ended h)
