-- ===== src/Facade/Tests.antt =====
-- The laws of src/dbsql.cpp's class dbsql at concrete clients, loads and drivers.
use dbsqlapi.Prelude.{◌≡◌, ◌↔◌, Bool, true, false, none, some, [], ◌∷◌, pos}
use dbsqlapi.Facade.{
  oracle_client, mysql_client, redis_client, oracle_api, mysql_api, Loads, new_db, connect, Driver,
  call,
}
use dbsqlapi.Facade.Laws.{Inits, AllFail, init_all, init_all-first_backend, call-crashes}

-- The client library of MySQL is there, that of Oracle is not.
abbrev no_oracle : Loads
no_oracle oracle_api = some 6
no_oracle mysql_api = none

abbrev good : Driver Bool
good = record { perform = λ b m s. (pos 0, true) }

abbrev oracle_then_mysql : Inits
oracle_then_mysql =
    (oracle_client, no_oracle) ∷ (mysql_client, no_oracle) ∷ (oracle_client, no_oracle) ∷ []

abbrev none_made : Inits
none_made = (redis_client, no_oracle) ∷ (oracle_client, no_oracle) ∷ []

init_all-first_backend_example :
    ((init_all oracle_then_mysql new_db).pdb ≡ some mysql_api)
    × ((init_all oracle_then_mysql new_db).used_db ≡ oracle_client)
init_all-first_backend_example = init_all-first_backend oracle_then_mysql

call-crashes_example :
    (call good (pos 0) (init_all none_made new_db) connect false ≡ none) ↔ AllFail none_made
call-crashes_example = call-crashes good (pos 0) none_made connect false
