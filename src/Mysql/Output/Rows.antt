-- ===== src/Mysql/Output/Rows.antt =====
-- What output (src/mysqlapi.cpp) makes of a row of numbers and NULLs.
use dbsqlapi.Prelude.{
  ℕ, ◌+◌, ◌-◌, ◌*◌, ◌%◌, ◌^◌, ◌≤◌, ◌<◌, ◌≡◌, ◌≢◌, Bool, true, false, ◌||◌, Option, none, some, List,
  [], ◌∷◌, pos, arith, ◌==◌, leb, ltb, if◌then◌else◌, Bool-cases, inl, inr, length, take, replicate,
}
use dbsqlapi.Heap.{Heap, ok, fault, pure, when◌run◌otherwise◌}
use dbsqlapi.Errors.{returns}
use dbsqlapi.Value.{
  Value, DataType, sql_null, sql_int, sql_uint, sql_long, sql_ulong, sql_float, set_null, set_int,
  set_uint, set_float, set_llong, set_ulong,
}
use dbsqlapi.Value.Arrays.{Chars}
use dbsqlapi.Fields.{
  Field, FieldList, fresh_field, set_field_name, set_source_type, new_fld_list, free_fld_list,
  destroy_all,
}
use dbsqlapi.Mysql.Api.{DateFormat}
use dbsqlapi.Mysql.Cursor.{Column}
use dbsqlapi.Mysql.Output.{
  Kind, long_kind, float_kind, longlong_kind, string_kind, date_kind, blob_kind, default_kind,
  kind_of, little_endian, read_bytes, put_kind, put_column, label, put_fields, output,
}

-- The value that stands for a number of `n` bytes.
abbrev number_value : ℕ → DataType → List ℕ → Option Value
number_value n type bs =
    if leb n (length bs)
    then some (record { data_type = type; word = little_endian n bs % 256 ^ n; value_len = 0 })
    else none

abbrev kind_value : Kind → Bool → List ℕ → Option Value
kind_value long_kind is_unsigned bs = number_value 4 (if is_unsigned then sql_uint else sql_int) bs
kind_value float_kind is_unsigned bs = number_value 4 sql_float bs
kind_value longlong_kind is_unsigned bs =
    number_value 8 (if is_unsigned then sql_ulong else sql_long) bs
kind_value string_kind is_unsigned bs = none
kind_value date_kind is_unsigned bs = none
kind_value blob_kind is_unsigned bs = none
kind_value default_kind is_unsigned bs = none

-- The numbers that enum_field_types gives to MYSQL_TYPE_SHORT, LONG, FLOAT and LONGLONG.
abbrev pub type_short : ℕ
type_short = 2

abbrev pub type_long : ℕ
type_long = 3

abbrev pub type_float : ℕ
type_float = 4

abbrev pub type_longlong : ℕ
type_longlong = 8

-- The value of a column of one of these types, as its bytes stand for it.
abbrev pub typed_value : ℕ → Bool → List ℕ → Option Value
typed_value t is_unsigned bs =
    if (t == type_short) || (t == type_long)
    then number_value 4 (if is_unsigned then sql_uint else sql_int) bs
    else if t == type_longlong
    then number_value 8 (if is_unsigned then sql_ulong else sql_long) bs
    else if t == type_float
    then number_value 4 sql_float bs
    else none

kind_value-typed_value :
    (t : ℕ) (is_unsigned : Bool) (bs : List ℕ) (v : Value)
    → typed_value t is_unsigned bs ≡ some v
    → kind_value (kind_of t) is_unsigned bs ≡ some v
unfolding kind_of
kind_value-typed_value t is_unsigned bs v e = elim (Bool-cases ((t == 2) || (t == 3))) [
  | inl a ↦ rw a (rw a at e)
  | inr a ↦ elim (Bool-cases (t == 8)) [
    | inl b ↦ let c : (t == 4) ≡ false = ground arith in rw (a, c, b) (rw (a, b) at e)
    | inr b ↦ elim (Bool-cases (t == 4)) [
      | inl c ↦ rw (a, c) (rw (a, b, c) at e)
      | inr c ↦ let n : ◌≡◌ {A = Option Value} none (some v) = rw (a, b, c) at e in cc
    ]
  ]
]

-- The value of a column that is NULL or such a number, whose bytes are there.
abbrev pub plain_value : Column → Option Value
plain_value c =
    if c.is_null
    then some (record { data_type = sql_null; word = 0; value_len = 0 })
    else elim c.buf [ none ↦ none | some bs ↦ typed_value c.field_type c.is_unsigned bs ]

abbrev pub plain_field : Column → Value → Field
plain_field c v = record {
  field_name = take 31 c.col_name;
  value = v;
  op = 0;
  source_type = c.field_type;
}

-- The columns are all of that kind, and these are their fields.
abbrev pub Shows : List Column → FieldList → Type 0
Shows [] gs = gs ≡ []
Shows (c ∷ cs) [] = ⊥
Shows (c ∷ cs) (g ∷ gs) =
    (v : Value) × (plain_value c ≡ some v) × (g ≡ plain_field c v) × Shows cs gs

module _ (df : DateFormat) (h : Heap Chars) where
  put_kind-plain :
      (kind : Kind) (is_unsigned : Bool) (len : ℕ) (bs : List ℕ) (v : Value)
      → kind_value kind is_unsigned bs ≡ some v
      → put_kind df kind is_unsigned len bs fresh_field.value h ≡ ok v h
  unfolding put_kind read_bytes set_int set_uint set_float set_llong set_ulong
  put_kind-plain long_kind is_unsigned len bs v e = ground arith
  put_kind-plain float_kind is_unsigned len bs v e = ground arith
  put_kind-plain longlong_kind is_unsigned len bs v e = ground arith
  put_kind-plain string_kind is_unsigned len bs v e = cc
  put_kind-plain date_kind is_unsigned len bs v e = cc
  put_kind-plain blob_kind is_unsigned len bs v e = cc
  put_kind-plain default_kind is_unsigned len bs v e = cc

  chosen :
      (is_null : Bool) (buf : Option (List ℕ)) (t : ℕ) (is_unsigned : Bool) (len : ℕ) (v : Value)
      → (if is_null
          then some (record { data_type = sql_null; word = 0; value_len = 0 })
          else elim buf [ none ↦ none | some bs ↦ typed_value t is_unsigned bs ])
        ≡ some v
      → (when is_null run pure (set_null fresh_field.value) otherwise (elim buf [
        | none ↦ λ _. fault
        | some bs ↦ put_kind df (kind_of t) is_unsigned len bs fresh_field.value
      ]))
          h
        ≡ ok v h
  unfolding set_null
  chosen true buf t is_unsigned len v e = ground arith
  chosen false none t is_unsigned len v e = cc
  chosen false (some bs) t is_unsigned len v e =
      put_kind-plain (kind_of t) is_unsigned len bs v (kind_value-typed_value t is_unsigned bs v e)

  put_column-plain :
      (c : Column) (v : Value)
      → plain_value c ≡ some v
      → put_column df c fresh_field.value h ≡ ok v h
  unfolding put_column
  put_column-plain c v e = chosen c.is_null c.buf c.field_type c.is_unsigned c.length v e

  put_fields-Shows :
      (cs : List Column) (gs : FieldList)
      → Shows cs gs
      → put_fields df cs (replicate (length cs) fresh_field) h ≡ ok (returns gs) h
  unfolding put_fields label set_field_name set_source_type
  put_fields-Shows [] gs s = rw s
  put_fields-Shows (c ∷ cs) [] s = absurd s
  put_fields-Shows (c ∷ cs) (g ∷ gs) s =
      rw (put_column-plain c s.0 s.1) (rw (put_fields-Shows cs gs s.3, s.2))

  -- For a row of 1 to 150 columns that are each NULL, or SHORT, LONG, FLOAT or LONGLONG with a buffer of
  -- the 4, 4, 4 or 8 bytes that output reads for it, and an empty list, output returns 0, touches no array,
  -- and makes one field for each column, in order: its name is the first 31 bytes of the column's, its source
  -- type the number of the column's type, and its value NULL or the little-endian number of these bytes, as
  -- an int, an int, a float or a long long, unsigned where the column is. For a SHORT these are two bytes
  -- more than its own.
  pub output-Shows :
      (cs : List Column) (gs : FieldList)
      → 0 < length cs
      → length cs ≤ 150
      → Shows cs gs
      → output df (length cs) cs [] h ≡ ok (returns (pos 0, gs)) h
  unfolding output new_fld_list free_fld_list destroy_all
  output-Shows cs gs some_column few s =
      let not_none : (length cs == 0) ≡ false = ground arith in
      let fits : (ltb 150 (length cs) || ltb (length cs) 1) ≡ false = ground arith in
      rw (not_none, fits) (rw (put_fields-Shows cs gs s))

-- A signed SMALLINT is read as the 4 bytes of a LONG. The library stores two of them, and the other two are
-- still 0: a negative number comes out as the positive one with the same two bytes, and not as itself.
pub short_loses_sign :
    (df : DateFormat) (h : Heap Chars) (c : Column) (low high : ℕ) (rest : List ℕ)
    → c.is_null ≡ false
    → c.field_type ≡ 2
    → c.is_unsigned ≡ false
    → c.buf ≡ some (low ∷ high ∷ 0 ∷ 0 ∷ rest)
    → low < 256
    → 128 ≤ high
    → high < 256
    → (put_column df c fresh_field.value h
        ≡ ok (record { data_type = sql_int; word = low + 256 * high; value_len = 0 }) h)
      × (low + 256 * high ≢ 2 ^ 32 + (low + 256 * high) - 2 ^ 16)
unfolding kind_of
short_loses_sign df h c low high rest n t u b low_byte negative high_byte =
    let shown : plain_value c
        ≡ some (record { data_type = sql_int; word = low + 256 * high; value_len = 0 }) =
      ground arith in
    (put_column-plain df h c _ shown, omega arith)
