-- ===== src/Errors/Tests.antt =====
-- The laws of the exceptions of src/dbsql.cpp at concrete messages.
use dbsqlapi.Prelude.{codes}
use dbsqlapi.Errors.{Exception, sql_library_error, sql_dbms_api_error}

abbrev thrown : Exception
thrown = record {
  sql_error_type = sql_library_error;
  sql_err_no = 5;
  native_err_no = 0;
  sql_err_info = codes "redis";
}

abbrev agreeing : Exception
agreeing = record {
  sql_error_type = sql_dbms_api_error;
  sql_err_no = 1045;
  native_err_no = 1045;
  sql_err_info = codes "denied";
}
