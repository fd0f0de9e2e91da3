-- ===== src/Mysql/Connection.antt =====
-- src/mysqlapi.cpp: class mysql_connect, and mysqlapi::checkConStatus. What the client library answers
-- is a parameter: whether mysql_real_connect gives a connection, and the number of the last error.
pub mod Balance
pub mod Retry
mod Tests
use dbsqlapi.Prelude.{
  ℕ, zero, suc, ◌+◌, ◌-◌, ◌^◌, Bool, true, false, ◌&&◌, ◌||◌, not, List, [], ◌∷◌, ◌++◌, ℤ, pos,
  negsuc, is_ok, ◌==◌, if◌then◌else◌,
}

-- enum my_sql_conn_state
pub data ConnState : Type 0 where
  not_connected connected : ConnState

pub record MysqlConnect : Type 0 where
  pub db_state : ConnState
  pub transaction : Bool

-- What the client library is asked to do, in order.
pub data Event : Type 0 where
  opened closed committed rolled_back : Event

abbrev pub is_connected : ConnState → Bool
is_connected connected = true
is_connected not_connected = false

-- `answer` is what mysql_real_connect gives, false for NULL.
unfoldable pub connect : Bool → MysqlConnect → ℤ × MysqlConnect × List Event
connect answer c =
    let refused : ℤ × MysqlConnect × List Event = (negsuc 0, c, []) in
    let done : ℤ × MysqlConnect × List Event =
      (pos 0, record { db_state = connected; transaction = false }, opened ∷ []) in
    if is_connected c.db_state then refused else if answer then done else refused

unfoldable pub disconnect : MysqlConnect → ℤ × MysqlConnect × List Event
disconnect c =
    let refused : ℤ × MysqlConnect × List Event = (negsuc 0, c, []) in
    let done : ℤ × MysqlConnect × List Event =
      (pos 0, record c { db_state = not_connected }, closed ∷ []) in
    if is_connected c.db_state then done else refused

-- ~mysql_connect
unfoldable pub destroy : MysqlConnect → List Event
unfolding disconnect
destroy c = if is_connected c.db_state then (disconnect c).2 else []

unfoldable pub set_no_connct : MysqlConnect → MysqlConnect
set_no_connct c = record c { db_state = not_connected }

unfoldable pub is_connect : MysqlConnect → ℤ
is_connect c = if is_connected c.db_state then pos 0 else negsuc 0

unfoldable pub begin_trans : MysqlConnect → MysqlConnect × List Event
begin_trans c = (record c { transaction = true }, if c.transaction then committed ∷ [] else [])

unfoldable pub commit_trans : MysqlConnect → MysqlConnect × List Event
commit_trans c = (record c { transaction = false }, committed ∷ [])

unfoldable pub rollback_trans : MysqlConnect → MysqlConnect × List Event
rollback_trans c = (record c { transaction = false }, rolled_back ∷ [])

-- The unsigned int that -99999 becomes.
abbrev pub lost : ℕ
lost = 2 ^ 32 - 99999

-- The errors after which the server is gone: CR_SERVER_GONE_ERROR, CR_SERVER_LOST, CR_CONN_HOST_ERROR,
-- CR_CONNECTION_ERROR, CR_SERVER_LOST_EXTENDED, ER_SERVER_SHUTDOWN.
unfoldable pub is_gone : ℕ → Bool
is_gone err_no =
    (err_no == 2006)
    || ((err_no == 2013)
        || ((err_no == 2003) || ((err_no == 2002) || ((err_no == 2055) || (err_no == 1053)))))

unfoldable pub get_err : ℕ → ℕ
unfolding is_gone
get_err err_no = if is_gone err_no then lost else err_no

-- The part of mysqlapi that checkConStatus uses: the connection, the handles of the open queries, and
-- how often it has slept.
pub record Session : Type 0 where
  pub conn : MysqlConnect
  pub handles : List ℕ
  pub sleeps : ℕ

-- The loop: `left` rounds from number `try_time` on, of which the k-th gets the answer `answers k`.
unfoldable pub retry : ℕ → ℕ → (ℕ → Bool) → Session → ℤ × Session
unfolding connect set_no_connct
retry zero try_time answers s = (negsuc 99998, s)
retry (suc left) try_time answers s =
    let tried = connect (answers try_time) (set_no_connct s.conn) in
    let failed : Session = record { conn = tried.1; handles = []; sleeps = s.sleeps + 1 } in
    let rest = retry left (suc try_time) answers failed in
    if is_ok tried.0 then (pos try_time, record s { conn = tried.1 }) else rest

unfoldable pub check_con_status : ℕ → ℕ → (ℕ → Bool) → Session → ℤ × Session
unfolding retry is_connect get_err
check_con_status err_no max_retry_times answers s =
    let rest = retry max_retry_times 0 answers s in
    if is_ok (is_connect s.conn) && not (get_err err_no == lost) then (negsuc 0, s) else rest
