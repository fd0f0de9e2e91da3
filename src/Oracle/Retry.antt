-- ===== src/Oracle/Retry.antt =====
-- src/oracleapi.cpp: oracleapi::connect and checkConStatus. The open queries are their handles, and a sleep
-- is counted.
pub mod Ends
mod Tests
use dbsqlapi.Prelude.{
  ℕ, zero, suc, Bool, true, false, ◌&&◌, ◌||◌, not, some, List, [], CStr, ℤ, pos, negsuc, ltb,
  is_neg, length, if◌then◌else◌,
}
use dbsqlapi.Oracle.Connection.{OciClient, DbConnect, connect, set_no_connct, get_err}

-- The members of oracleapi that the methods use.
pub record Session : Type 0 where
  pub conn : DbConnect
  pub username : CStr
  pub passwd : CStr
  pub hostname : CStr
  pub cursors : List ℕ
  pub sleeps : ℕ

-- The result of getErr and isConnect for a connection that is lost.
abbrev pub is_lost : ℤ → Bool
is_lost (pos n) = false
is_lost (negsuc n) = if ltb n 99998 || ltb 99998 n then false else true

module _ (client : OciClient) where
  -- `setNoConnct` and `connect` of one round.
  unfoldable pub again : Session → ℤ × DbConnect
  again s = connect client s.username s.passwd (some s.hostname) (set_no_connct s.conn).1

  unfoldable pub retry : ℕ → Session → ℤ × Session
  unfolding again
  retry zero s = (negsuc 99998, s)
  retry (suc more) s =
      let r = again s in
      let rest = retry more (record s { conn = r.1; cursors = []; sleeps = suc s.sleeps }) in
      if is_neg r.0 then rest else (pos 1, record s { conn = r.1 })

  unfoldable pub check_con_status : ℕ → Session → ℤ × Session
  unfolding retry
  check_con_status max_retry_times s =
      let r = get_err client s.conn in
      let asked = record s { conn = r.1 } in
      if r.1.is_connected && not (is_lost r.0)
      then (negsuc 0, asked)
      else retry max_retry_times asked

  -- oracleapi::connect, which keeps what it was given for checkConStatus.
  unfoldable pub connect_session : CStr → CStr → CStr → Session → ℤ × Session
  connect_session user password hoststring s =
      if ltb 63 (length user) || (ltb 127 (length password) || ltb 63 (length hoststring))
      then (negsuc 0, record s { username = [] })
      else (let r = connect client user password (some hoststring) s.conn in
          (r.0, record s { conn = r.1; username = user; passwd = password; hostname = hoststring }))
