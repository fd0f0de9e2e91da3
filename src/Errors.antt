-- ===== src/Errors.antt =====
-- src/dbsqlapierror.h, and class TException of src/dbsql.h and src/dbsql.cpp.
pub mod Laws
mod Tests
use dbsqlapi.Prelude.{ℕ, Option, none, some, [], CStr, ltb, if◌then◌else◌, length}

-- The error numbers of the library.
abbrev pub invalid_field_num : ℕ
invalid_field_num = 1

abbrev pub invalid_field_name : ℕ
invalid_field_name = 2

abbrev pub max_field_num : ℕ
max_field_num = 3

abbrev pub string_is_null : ℕ
string_is_null = 4

abbrev pub unknown_db_name : ℕ
unknown_db_name = 5

abbrev pub dlopen_error : ℕ
dlopen_error = 6

abbrev pub dlsym_error : ℕ
dlsym_error = 7

-- A call that returns, or the number of the TException that it throws.
pub data Thrown (A : Type 0) : Type 0 where
  returns : A → Thrown A
  throws : ℕ → Thrown A

-- MAX_ERR_MSG
abbrev pub max_err_msg : ℕ
max_err_msg = 1024

-- enum ErrorType
pub data ErrorType : Type 0 where
  sql_no_error sql_library_error sql_dbms_api_error : ErrorType

pub record Exception : Type 0 where
  pub sql_error_type : ErrorType
  pub sql_err_no : ℕ
  pub native_err_no : ℕ
  pub sql_err_info : CStr

abbrev pub no_error : Exception
no_error = record {
  sql_error_type = sql_no_error;
  sql_err_no = 0;
  native_err_no = 0;
  sql_err_info = [];
}

-- The copy constructor.
pub copy_exception : Exception → Exception
copy_exception other = record {
  sql_error_type = other.sql_error_type;
  sql_err_no = other.native_err_no;
  native_err_no = other.native_err_no;
  sql_err_info = other.sql_err_info;
}

-- The two constructors with a message; `info` is what vsprintf makes of it. `none` where the text
-- and its NUL run over the end of the array.
pub library_error : ℕ → CStr → Option Exception
library_error err_no info =
    if ltb (length info) max_err_msg
    then some (record {
      sql_error_type = sql_library_error;
      sql_err_no = err_no;
      native_err_no = 0;
      sql_err_info = info;
    })
    else none

pub dbms_error : ℕ → ℕ → CStr → Option Exception
dbms_error native_no err_no info =
    if ltb (length info) max_err_msg
    then some (record {
      sql_error_type = sql_dbms_api_error;
      sql_err_no = err_no;
      native_err_no = native_no;
      sql_err_info = info;
    })
    else none

pub get_err_no : Exception → ℕ
get_err_no e = e.sql_err_no

pub get_native_err_no : Exception → ℕ
get_native_err_no e = e.native_err_no

pub get_err_info : Exception → CStr
get_err_info e = e.sql_err_info
