-- ===== src/Mysql/Api.antt =====
-- src/mysqlapi.cpp: class mysqlapi, its state and the methods that connect and commit. `cursor` is
-- m_cursor with the calls at the client library so far, `prep` has the members of the prepared
-- statement and now_operation. The list of cursors of `query` is in Queries.
pub mod Statements
pub mod Load
pub mod Execute
pub mod Errors
pub mod Tidy
pub mod TidyParms
pub mod Requests
pub mod RequestsTidy
pub mod Session
pub mod Quiet
pub mod Atomic
pub mod AtomicParms
mod Tests
use dbsqlapi.Prelude.{
  ℕ, suc, ◌+◌, ◌-◌, Bool, true, false, ◌||◌, not, Option, none, some, List, [], ◌∷◌, CStr, ℤ, pos,
  negsuc, ltb, if◌then◌else◌, length,
}
use dbsqlapi.State.{St, pure, ◌>>=◌, ◌>>◌, when◌run◌otherwise◌}
use dbsqlapi.Mysql.Connection.{
  MysqlConnect, not_connected, commit_trans, rollback_trans, begin_trans,
}
use dbsqlapi.Mysql.Connection
use dbsqlapi.Mysql.Prepared.{Operation, system, statement, dynamic_statement, Prep, phfree}
use dbsqlapi.Mysql.Client.{Client, Call, commit, rollback}
use dbsqlapi.Mysql.Cursor.{Traced, Act, fresh_cursor}
use dbsqlapi.Mysql.Cursor.Statement.{close_cur}

-- enum DateFormat
pub data DateFormat : Type 0 where
  default_date chinese_date chinese_datetime : DateFormat
  other_date : ℕ → DateFormat

pub record Api : Type 0 where
  pub conn : MysqlConnect
  pub cursor : Traced
  pub username : CStr
  pub passwd : CStr
  pub hostname : CStr
  pub prep : Prep
  pub conn_msgbuf : List ℕ
  pub d_stat_msgbuf : List ℕ
  pub d_stmt_err_no : ℕ
  pub date_format : DateFormat

abbrev pub Do : Type 0 → Type 0
Do A = St Api A

unfoldable pub on_cursor : {A : Type 0} → Act A → Do A
on_cursor m a = let r = m a.cursor in (r.0, record a { cursor = r.1 })

unfoldable pub set_operation : Operation → Do (Unit {0})
set_operation op a = (tt, record a { prep = record a.prep { now_operation = op } })

unfoldable pub set_prep : (Prep → Prep) → Do (Unit {0})
set_prep f a = (tt, record a { prep = f a.prep })

unfoldable pub get_api : Do Api
get_api a = (a, a)

-- mysqlapi::mysqlapi(). The member `transaction` of mysql_connect and the bytes of the messages behind
-- the first have no value yet: they are arguments.
unfoldable pub new_api : Bool → List ℕ → Api
new_api transaction rest = record {
  conn = record { db_state = not_connected; transaction = transaction };
  cursor = record { cur = fresh_cursor; calls = [] };
  username = [];
  passwd = [];
  hostname = [];
  prep = phfree (record { now_operation = system; sql = []; fld_vals = [] });
  conn_msgbuf = 0 ∷ rest;
  d_stat_msgbuf = 0 ∷ rest;
  d_stmt_err_no = 0;
  date_format = default_date;
}

-- A call on the connection.
abbrev pub called : Call → Api → Api
called c a = record a { cursor = record a.cursor { calls = c ∷ a.cursor.calls } }

-- m_connect.commitTrans() and m_connect.rollbackTrans()
unfoldable pub commit_conn : Do (Unit {0})
commit_conn a = (tt, record (called commit a) { conn = (commit_trans a.conn).0 })

unfoldable pub rollback_conn : Do (Unit {0})
rollback_conn a = (tt, record (called rollback a) { conn = (rollback_trans a.conn).0 })

-- m_connect.beginTrans(), which commits a transaction that is open.
unfoldable pub begin_conn : Do (Unit {0})
begin_conn a = (
  tt,
  record (if a.conn.transaction then called commit a else a) { conn = (begin_trans a.conn).0 },
)

-- The arguments of connect fit into m_username, m_passwd and m_hostname.
abbrev pub too_long : CStr → CStr → CStr → Bool
too_long user password hoststring =
    ltb 63 (length user) || (ltb 127 (length password) || ltb 63 (length hoststring))

-- `answer` is whether mysql_real_connect gives a connection.
unfoldable pub connect : Bool → CStr → CStr → CStr → Do ℤ
connect answer user password hoststring = do
  set_operation system
  when too_long user password hoststring
      run (λ a. (negsuc 0, record a { username = [] }))
      otherwise (λ a. (
        (Connection.connect answer a.conn).0,
        record a {
          username = user;
          passwd = password;
          hostname = hoststring;
          conn = (Connection.connect answer a.conn).1;
        },
      ))

unfoldable pub disconnect : Client → Do ℤ
disconnect client = do
  set_operation system
  (λ a. (tt, record a { username = [] }))
  _ ← on_cursor (close_cur client)
  λ a. ((Connection.disconnect a.conn).0, record a { conn = (Connection.disconnect a.conn).1 })

unfoldable pub set_date_format : DateFormat → Do ℤ
set_date_format d = do set_operation system; λ a. (pos 0, record a { date_format = d })
