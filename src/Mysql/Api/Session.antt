-- ===== src/Mysql/Api/Session.antt =====
-- Any sequence of calls on one mysqlapi (src/mysqlapi.cpp), and its end.
use dbsqlapi.Prelude.{ℕ, refl, Bool, false, List, arith}
use dbsqlapi.Heap.{Ptr}
use dbsqlapi.State.{pure, ◌>>=◌, ◌>>◌, when◌run◌otherwise◌}
use dbsqlapi.Mysql.Client.{Client}
use dbsqlapi.Mysql.Client.Protocol.{IsLegal}
use dbsqlapi.Mysql.Cursor.{fresh_cursor, get_cur}
use dbsqlapi.Mysql.Cursor.Statement.{ask, close_cur}
use dbsqlapi.Mysql.Cursor.Parms.{bind_large_parm}
use dbsqlapi.Mysql.Cursor.Message.{get_stmt_err_info}
use dbsqlapi.Mysql.Cursor.Define.{destroy_cursor}
use dbsqlapi.Mysql.Cursor.Tidy.{IsTidy}
use dbsqlapi.Mysql.Api.{Api, new_api, on_cursor, set_operation}
use dbsqlapi.Mysql.Api.Statements.{close_fail, report_fail}
use dbsqlapi.Mysql.Api.Load.{transfer_bin_data}

module _ (client : Client) where
  -- The destructor of the member m_cursor, which runs when the mysqlapi ends.
  pub drop_cursor : Api → Api
  drop_cursor a = (on_cursor (destroy_cursor client) a).1

  pub new_api-IsTidy :
      (transaction : Bool) (rest : List ℕ) → IsTidy false (new_api transaction rest).cursor
  unfolding new_api fresh_cursor
  new_api-IsTidy transaction rest = record {
    open_is = refl;
    stmt = refl;
    meta = refl;
    has_stmt = refl;
    no_meta = refl;
    legal = tt;
    balance = omega arith;
  }

  -- On an object whose statement is not open, transferBinData breaks the rules of the library: it sends the
  -- data on the statement NULL.
  pub transfer_unopened :
      (a : Api) (p : Ptr) (n : ℕ)
      → IsTidy false a.cursor
      → ¬ IsLegal (transfer_bin_data client p n a).1.cursor.calls
  unfolding transfer_bin_data set_operation on_cursor bind_large_parm ask report_fail close_fail
      get_stmt_err_info close_cur get_cur pure ◌>>=◌ ◌>>◌ when◌run◌otherwise◌
  transfer_unopened a p n t l = ground arith
