-- ===== src/Mysql/Output.antt =====
-- src/mysqlapi.cpp: date_format, and mysql_cursor::output and outputStru, which turn a row into fields. The
-- bytes that the library has stored for a column are read as the type that its number stands for; a read
-- beyond them is a fault. snprintf's %d and %s are written out.
pub mod Dates
pub mod Plain
pub mod Rows
pub mod SysDate
mod Tests
use dbsqlapi.Prelude.{
  ℕ, zero, suc, ◌+◌, ◌-◌, ◌*◌, ◌/◌, ◌%◌, ◌^◌, Bool, true, false, ◌||◌, Option, none, some, List, [],
  ◌∷◌, ◌++◌, CStr, codes, ℤ, pos, negsuc, ◌==◌, leb, ltb, if◌then◌else◌, length, take, drop,
  replicate,
}
use dbsqlapi.Heap.{Ptr, null, Cmd, ok, fault, pure, ◌>>=◌, ◌>>◌, when◌run◌otherwise◌, alloc, delete}
use dbsqlapi.Errors.{Thrown, returns, throws}
use dbsqlapi.Errors.{invalid_field_num}
use dbsqlapi.Value.{
  Value, set_null, set_int, set_uint, set_float, set_llong, set_ulong, set_string, set_date,
  set_binary, set_value,
}
use dbsqlapi.Value.Arrays.{Chars}
use dbsqlapi.Fields.{Field, FieldList, set_field_name, set_source_type, new_fld_list}
use dbsqlapi.Mysql.Api.{DateFormat, default_date, chinese_date, chinese_datetime, other_date}
use dbsqlapi.Mysql.Cursor.{Column, string_size}

-- The digits of a number below 10 ^ n.
unfoldable pub digits : ℕ → ℕ → CStr
digits zero x = []
digits (suc n) x = if ltb x 10 then (48 + x) ∷ [] else digits n (x / 10) ++ (48 + x % 10) ∷ []

-- `%0wd` of an unsigned int, which is read as an int.
unfoldable pub padded : ℕ → CStr → CStr
padded w text = replicate (w - length text) 48 ++ text

unfoldable pub print_d : ℕ → ℕ → CStr
print_d w x =
    if ltb x 2147483648
    then padded w (digits 10 x)
    else b'-' ∷ padded (w - 1) (digits 10 (4294967296 - x))

-- The members of MYSQL_TIME that the driver reads.
pub record MysqlTime : Type 0 where
  pub year : ℕ
  pub month : ℕ
  pub day : ℕ
  pub hour : ℕ
  pub minute : ℕ
  pub second : ℕ

-- The text of each case of the switch.
unfoldable pub date_text : DateFormat → MysqlTime → CStr
date_text default_date t =
    print_d 4 t.year
    ++ (print_d 2 t.month
        ++ (print_d 2 t.day ++ (print_d 2 t.hour ++ (print_d 2 t.minute ++ print_d 2 t.second))))
date_text chinese_date t =
    print_d 4 t.year ++ (b'-' ∷ (print_d 2 t.month ++ (b'-' ∷ print_d 2 t.day)))
date_text chinese_datetime t =
    print_d 4 t.year
    ++ (b'-'
        ∷ (print_d 2 t.month
            ++ (b'-'
                ∷ (print_d 2 t.day
                    ++ (b' '
                        ∷ (print_d 2 t.hour
                            ++ (b':' ∷ (print_d 2 t.minute ++ (b':' ∷ print_d 2 t.second)))))))))
date_text (other_date n) t =
    print_d 2 t.day ++ (b'-' ∷ (print_d 2 t.month ++ (b'-' ∷ print_d 4 t.year)))

-- `none` for a NULL; else the code and what snprintf writes to `buf`, up to the NUL.
unfoldable pub date_format : ℕ → DateFormat → Option MysqlTime → ℤ × Option CStr
date_format buf_len df none = (negsuc 0, none)
date_format buf_len df (some t) = (pos 0, some (take (buf_len - 1) (date_text df t)))

-- The little-endian number of the first `n` bytes.
abbrev pub little_endian : ℕ → List ℕ → ℕ
little_endian zero bs = 0
little_endian (suc n) [] = 0
little_endian (suc n) (b ∷ bs) = b + 256 * little_endian n bs

abbrev pub member : List ℕ → ℕ → ℕ
member bs offset = little_endian 4 (drop offset bs)

abbrev pub time_of : List ℕ → MysqlTime
time_of bs = record {
  year = member bs 0;
  month = member bs 4;
  day = member bs 8;
  hour = member bs 12;
  minute = member bs 16;
  second = member bs 20;
}

-- The cases of the switch in output().
pub data Kind : Type 0 where
  long_kind float_kind longlong_kind string_kind date_kind blob_kind default_kind : Kind

unfoldable pub kind_of : ℕ → Kind
kind_of t =
    if (t == 2) || (t == 3)
    then long_kind
    else if t == 4
    then float_kind
    else if t == 8
    then longlong_kind
    else if (t == 253) || (t == 254)
    then string_kind
    else if t == 12
    then date_kind
    else if (t == 249) || ((t == 250) || (t == 252))
    then blob_kind
    else default_kind

-- `*(T*)buf` for a type of `n` bytes.
unfoldable pub read_bytes : ℕ → List ℕ → (ℕ → Value) → Cmd Chars Value
read_bytes n bs f = when leb n (length bs) run pure (f (little_endian n bs)) otherwise (λ _. fault)

-- A setter that copies from a buffer of the driver. The buffer is an array of its own, and is as it was
-- afterwards.
unfoldable pub from_buffer : List ℕ → (Ptr → Cmd Chars Value) → Cmd Chars Value
unfolding alloc delete
from_buffer bs f = do p ← alloc bs; v ← f p; delete p; pure v

unfoldable pub put_kind : DateFormat → Kind → Bool → ℕ → List ℕ → Value → Cmd Chars Value
unfolding read_bytes from_buffer set_int set_uint set_float set_llong set_ulong set_string set_date
    set_binary set_value date_format
put_kind df long_kind is_unsigned len bs v =
    read_bytes 4 bs (if is_unsigned then set_uint v else set_int v)
put_kind df float_kind is_unsigned len bs v = read_bytes 4 bs (set_float v)
put_kind df longlong_kind is_unsigned len bs v =
    read_bytes 8 bs (if is_unsigned then set_ulong v else set_llong v)
put_kind df string_kind is_unsigned len bs v = from_buffer bs (set_string v)
put_kind df date_kind is_unsigned len bs v =
    when leb 24 (length bs)
    run from_buffer (take (string_size - 1) (date_text df (time_of bs)) ++ 0 ∷ []) (set_date v)
    otherwise (λ _. fault)
put_kind df blob_kind is_unsigned len bs v = from_buffer bs (λ p. set_binary v p len)
put_kind df default_kind is_unsigned len bs v = from_buffer bs (λ p. set_value v p len)

-- The value of a field; a column without a buffer is read through NULL.
unfoldable pub put_column : DateFormat → Column → Value → Cmd Chars Value
unfolding put_kind kind_of set_null
put_column df c v = when c.is_null run pure (set_null v) otherwise (elim c.buf [
  | none ↦ λ _. fault
  | some bs ↦ put_kind df (kind_of c.field_type) c.is_unsigned c.length bs v
])

-- setFieldName and setSourceType.
unfoldable pub label : Column → Field → Field
unfolding set_field_name set_source_type
label c f = elim (set_field_name f (some c.col_name)) [
  | returns g ↦ set_source_type g c.field_type
  | throws e ↦ f
]

-- The loop of output(), with the fields that newFldList has made.
unfoldable pub put_fields : DateFormat → List Column → FieldList → Cmd Chars (Thrown FieldList)
unfolding put_column label
put_fields df [] fs = pure (returns fs)
put_fields df (c ∷ cs) [] = pure (throws invalid_field_num)
put_fields df (c ∷ cs) (f ∷ fs) = do
  v ← put_column df c f.value
  rest ← put_fields df cs fs
  pure (elim rest [
    | throws e ↦ throws e
    | returns gs ↦ returns (record (label c f) { value = v } ∷ gs)
  ])

-- A method that makes the list first, and then fills it.
abbrev pub filling :
    ℕ → FieldList → (FieldList → Cmd Chars (Thrown FieldList)) → Cmd Chars (Thrown (ℤ × FieldList))
filling item_num fs fill = when item_num == 0 run pure (returns (pos 1, fs)) otherwise (do
  made ← new_fld_list fs item_num
  elim made [
    | throws e ↦ pure (throws e)
    | returns gs ↦ do
      r ← fill gs
      pure (elim r [ throws e ↦ throws e | returns hs ↦ returns (pos 0, hs) ])
  ])

unfoldable pub output :
    DateFormat → ℕ → List Column → FieldList → Cmd Chars (Thrown (ℤ × FieldList))
unfolding put_fields new_fld_list
output df item_num cs fs = filling item_num fs (put_fields df cs)

unfoldable pub label_all : List Column → FieldList → Thrown FieldList
unfolding label
label_all [] fs = returns fs
label_all (c ∷ cs) [] = throws invalid_field_num
label_all (c ∷ cs) (f ∷ fs) = elim (label_all cs fs) [
  | throws e ↦ throws e
  | returns gs ↦ returns (label c f ∷ gs)
]

unfoldable pub output_stru : ℕ → List Column → FieldList → Cmd Chars (Thrown (ℤ × FieldList))
unfolding label_all new_fld_list
output_stru item_num cs fs = filling item_num fs (λ gs. pure (label_all cs gs))
