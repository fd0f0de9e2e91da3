-- ===== src/Mysql/Output/Tests.antt =====
-- A row of src/mysqlapi.cpp with two columns, and a date.
use dbsqlapi.Prelude.{
  ℕ, List, ℤ, negsuc, Option, replicate, ◌++◌, false, ◌+◌, ◌*◌, ◌-◌, ◌^◌, ◌≡◌, ◌≢◌, refl, true,
  none, some, [], ◌∷◌, CStr, codes, pos, arith,
}
use dbsqlapi.Heap.{Heap, Run, ok, fault, out_of_fuel}
use dbsqlapi.Errors.{returns}
use dbsqlapi.Value.{sql_int, sql_null}
use dbsqlapi.Value.Arrays.{Chars, new_chars, memcpy}
use dbsqlapi.Fields.{
  FieldList, fresh_field, set_field_name, set_source_type, at_num, new_fld_list, free_fld_list,
  destroy_all,
}
use dbsqlapi.Mysql.Api.{
  default_date, chinese_datetime, Api, new_api, set_operation, on_cursor, get_api,
}
use dbsqlapi.State.{pure, ◌>>=◌, ◌>>◌, when◌run◌otherwise◌, stage}
use dbsqlapi.Mysql.Client.{Client}
use dbsqlapi.Mysql.Connection.{connected}
use dbsqlapi.Mysql.Api.Statements.{open_api, get_rec}
use dbsqlapi.Mysql.Cursor.{Column, blank_column, fresh_cursor, emit, change, get_cur, to_int}
use dbsqlapi.Mysql.Cursor.Statement.{
  ask, init_stmt, open_cur, free_meta, close_stmt, close_cur, prepare, execute, fetch,
}
use dbsqlapi.Mysql.Cursor.Define.{
  define, get_define_col_count, get_metadata, get_num_fields, get_fields, get_define_meta_info,
  allocate_define_struct, bind_all, bind_columns, fill_columns, release_define_struct,
}
use dbsqlapi.Mysql.Output.SysDate.{
  get_sys_date, sys_date_of, from_fields, date_of, read_text, get_sys_date_declines,
}
use dbsqlapi.Value.{set_date, buffer_read, is_null, free_buffer, destroy}
use dbsqlapi.Mysql.Output.{
  MysqlTime, date_format, kind_of, put_column, output, put_fields, put_kind, from_buffer, date_text,
  print_d, padded, digits, label,
}
use dbsqlapi.Mysql.Output.Dates.{reads, date_format-reads}
use dbsqlapi.Mysql.Output.Rows.{Shows, output-Shows, short_loses_sign}

abbrev empty : Heap Chars
empty = record { cell = λ p. none; next = 1 }

abbrev age : Column
age = record blank_column {
  col_name = codes "age";
  buf = some (3 ∷ 1 ∷ 0 ∷ 0 ∷ 0 ∷ []);
  field_type = 3;
}

abbrev gone : Column
gone = record blank_column { col_name = codes "gone"; field_type = 253; is_null = true }

abbrev shown : FieldList
shown =
    record {
      field_name = codes "age";
      value = record { data_type = sql_int; word = 259; value_len = 0 };
      op = 0;
      source_type = 3;
    }
    ∷ record {
      field_name = codes "gone";
      value = record { data_type = sql_null; word = 0; value_len = 0 };
      op = 0;
      source_type = 253;
    }
    ∷ []

row-Shows : Shows (age ∷ gone ∷ []) shown
unfolding kind_of
row-Shows = (_, refl, refl, (_, refl, refl, refl))

output-Shows_example :
    output default_date 2 (age ∷ gone ∷ []) [] empty ≡ ok (returns (pos 0, shown)) empty
output-Shows_example =
    output-Shows default_date empty (age ∷ gone ∷ []) shown (omega arith) (omega arith) row-Shows

-- The two bytes of -2.
abbrev small : Column
small = record blank_column { field_type = 2; buf = some (254 ∷ 255 ∷ 0 ∷ 0 ∷ []) }

short_loses_sign_example :
    (put_column default_date small fresh_field.value empty
      ≡ ok (record { data_type = sql_int; word = 254 + 256 * 255; value_len = 0 }) empty)
    × (254 + 256 * 255 ≢ 2 ^ 32 + (254 + 256 * 255) - 2 ^ 16)
short_loses_sign_example =
    short_loses_sign default_date empty small 254 255 [] refl refl refl refl (omega arith)
      (omega arith) (omega arith)

abbrev noon : MysqlTime
noon = record { year = 2009; month = 3; day = 14; hour = 12; minute = 0; second = 7 }

date_format-reads_example :
    ((text : CStr) × (date_format 64 default_date (some noon) ≡ (pos 0, some text))
      × (reads text 4 6 8 10 12 ≡ noon))
    × ((text : CStr) × (date_format 64 chinese_datetime (some noon) ≡ (pos 0, some text))
        × (reads text 5 8 11 14 17 ≡ noon))
date_format-reads_example = date_format-reads noon (omega arith)

-- The bytes of the MYSQL_TIME `noon`.
abbrev moment : List ℕ
moment = 217 ∷ 7 ∷ 0 ∷ 0 ∷ 3 ∷ 0 ∷ 0 ∷ 0 ∷ 14 ∷ 0 ∷ 0 ∷ 0 ∷ 12 ∷ replicate 7 0 ++ 7 ∷ replicate 19 0

-- A library with one row: the date as MYSQL_TIME.
abbrev clock : Client
clock = record {
  new_stmt = λ h. 9;
  closes_badly = λ h. false;
  answer = λ op h. 0;
  error_text = λ h. [];
  metadata = λ h. 5;
  num_fields = λ h. 1;
  num_rows = λ h. 1;
  fields =
      λ h. record { name = codes "now()"; field_type = 12; length = 19; is_unsigned = false } ∷ [];
  row = λ h. record { is_null = false; length = 40; bytes = moment } ∷ [];
}

abbrev session : Api
session = record (new_api false []) { conn = record { db_state = connected; transaction = false } }

-- The heap that getSysDate leaves with that library.
abbrev heap_of : {A : Type 0} → Run Chars A → Heap Chars
heap_of (ok a g) = g
heap_of fault = empty
heap_of out_of_fuel = empty

abbrev ticked : Heap Chars
ticked = heap_of (get_sys_date clock true session empty).0

ticking : (get_sys_date clock true session empty).0 ≡ ok (returns (negsuc 0, none)) ticked
unfolding get_sys_date new_api fresh_cursor set_operation get_rec sys_date_of from_fields date_of
    read_text on_cursor open_api open_cur init_stmt free_meta close_stmt close_cur prepare execute
    get_api to_int stage pure ◌>>=◌ ◌>>◌ when◌run◌otherwise◌ define get_define_col_count
    get_metadata get_num_fields get_fields get_define_meta_info allocate_define_struct bind_all
    bind_columns fill_columns release_define_struct fetch ask emit change get_cur output
    new_fld_list free_fld_list destroy_all put_fields put_column put_kind kind_of from_buffer
    set_date buffer_read date_text print_d padded digits label set_field_name set_source_type at_num
    is_null free_buffer new_chars memcpy destroy
ticking = refl

get_sys_date_declines_example : ◌≡◌ {A = ℤ × Option CStr} (negsuc 0, none) (negsuc 0, none)
get_sys_date_declines_example =
    get_sys_date_declines clock true session empty (negsuc 0, none) ticked ticking
