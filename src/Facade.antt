-- ===== src/Facade.antt =====
-- src/dbsql.cpp and src/dbsql.h, class dbsql; src/dbapi.cpp, its base class for the databases. Which
-- object a `dbsql` drives, and what its methods pass on. What a driver's own methods do is a
-- parameter here.
pub mod Laws
mod Tests
use dbsqlapi.Prelude.{
  ℕ, Bool, true, false, Option, none, some, List, [], ◌∷◌, CStr, codes, ℤ, str_eq, if◌then◌else◌,
}
use dbsqlapi.Errors.{string_is_null, unknown_db_name, Thrown, returns, throws}

-- enum DB_Client
pub data DbClient : Type 0 where
  unknown oracle_client mysql_client redis_client memcached_client : DbClient

-- The subclasses of dbapi.
pub data Backend : Type 0 where
  oracle_api mysql_api : Backend

-- `none` is the NULL pointer.
pub record Db : Type 0 where
  pub used_db : DbClient
  pub pdb : Option Backend

-- dbsql::dbsql()
abbrev pub new_db : Db
new_db = record { used_db = unknown; pdb = none }

-- The `switch` of initDB.
abbrev pub backend_for : DbClient → Option Backend
backend_for oracle_client = some oracle_api
backend_for mysql_client = some mysql_api
backend_for unknown = none
backend_for redis_client = none
backend_for memcached_client = none

-- The number of the exception that `new` of each subclass throws, since it loads the client library; `none` where it makes the object. A
-- call that waits for ever, for a lock that an exception has left, does not end, and is none of these.
abbrev pub Loads : Type 0
Loads = Backend → Option ℕ

-- The pointer after the switch, and the exception that leaves it.
abbrev pub make_pdb : Loads → Option Backend → Option ℕ × Option Backend
make_pdb ld none = (none, none)
make_pdb ld (some b) = elim (ld b) [ none ↦ (none, some b) | some e ↦ (some e, none) ]

abbrev pub init_pdb : Loads → DbClient → Option Backend → Option ℕ × Option Backend
init_pdb ld edb none = make_pdb ld (backend_for edb)
init_pdb ld edb (some b) = (none, some b)

-- `used_db` is set before the driver is made.
pub init_db : Loads → DbClient → Db → Option ℕ × Db
init_db ld edb d =
    let made = init_pdb ld edb d.pdb in (made.0, record { used_db = edb; pdb = made.1 })

-- A constructor gives an object unless initDB throws.
abbrev pub constructed : Option ℕ × Db → Thrown Db
constructed (none, d) = returns d
constructed (some e, d) = throws e

-- dbsql::dbsql(DB_Client)
pub from_client : Loads → DbClient → Thrown Db
unfolding init_db
from_client ld edb = constructed (init_db ld edb new_db)

-- dbsql::dbsql(const char*); `none` is NULL.
pub from_name : Loads → Option CStr → Thrown Db
unfolding init_db
from_name ld none = throws string_is_null
from_name ld (some db_name) =
    if str_eq db_name (codes "oracle")
    then constructed (init_db ld oracle_client new_db)
    else if str_eq db_name (codes "mysql")
    then constructed (init_db ld mysql_client new_db)
    else throws unknown_db_name

-- The methods of dbsql that use `pdb`.
pub data Method : Type 0 where
  get_err get_err_info connect check_con_status disconnect : Method
  begin_trans commit_trans rollback_trans get_rec phfree : Method
  ph_set_sql ph_set_int ph_set_longlong ph_set_string ph_set_longbyte ph_execute : Method
  set_long_fld query fetch no_value_fetch get_cur_rec close_query : Method
  execute_sql_count execute_sql is_table get_sys_date check_sql set_date_format change_db : Method

-- What the caller sees: nothing from a void method, or a value.
pub data Reply : Type 0 where
  nothing : Reply
  value : ℤ → Reply

-- The `return` in the bodies of dbsql. getErr and getRec have none: their value is whatever is `left` where
-- the caller looks for it.
abbrev pub reply_of : ℤ → Method → Reply → Reply
reply_of left get_err r = value left
reply_of left get_rec r = value left
reply_of left get_err_info r = r
reply_of left check_con_status r = r
reply_of left fetch r = r
reply_of left is_table r = r
reply_of left check_sql r = r
reply_of left _ r = nothing

-- The methods of dbapi that a subclass overrides, by parameter types and all.
abbrev pub overrides : Backend → Method → Bool
overrides mysql_api set_long_fld = false
overrides _ _ = true

-- A driver object in state `S`: what each of its own methods returns and leaves.
pub record Driver (S : Type 0) : Type 0 where
  pub perform : Backend → Method → S → ℤ × S

-- A virtual call. The bodies of dbapi itself are empty, without a `return`.
abbrev pub dispatch : {S : Type 0} → Driver S → ℤ → Backend → Method → S → Reply × S
dispatch dr left b m s =
    let own = dr.perform b m s in if overrides b m then (value own.0, own.1) else (value left, s)

-- A method call through `pdb`. `none` as the result is a call through the NULL pointer.
abbrev pub call_through :
    {S : Type 0} → Driver S → ℤ → Option Backend → Method → S → Option (Reply × S)
call_through dr left none m s = none
call_through dr left (some b) m s =
    let r = dispatch dr left b m s in some (reply_of left m r.0, r.1)

pub call : {S : Type 0} → Driver S → ℤ → Db → Method → S → Option (Reply × S)
call dr left d m s = call_through dr left d.pdb m s
