-- ===== src/Value.antt =====
-- src/dbsql.h and src/dbsql.cpp: class TValue. The union is one 64-bit word, whose low half an int
-- or a float uses; a pointer is the address of a character array in the heap. Floats are their bit
-- patterns.
pub mod Arrays
pub mod Numbers
pub mod Owned
pub mod Text
pub mod Copying
pub mod Length
mod Tests
use dbsqlapi.Prelude.{
  ℕ, zero, suc, ◌+◌, ◌*◌, ◌/◌, ◌%◌, ◌^◌, Bool, true, false, ◌||◌, ◌==◌, if◌then◌else◌, CStr, codes,
  [],
}
use dbsqlapi.Heap.{Ptr, null, Heap, Cmd, ok, pure, ◌>>=◌, ◌>>◌, when◌run◌otherwise◌, delete}
use Arrays.{Chars, strlen, new_chars, strcpy, memcpy}

-- enum DataType
pub data DataType : Type 0 where
  sql_unknown sql_null sql_int sql_uint sql_long sql_ulong sql_float sql_double : DataType
  sql_date sql_string sql_binary sql_text : DataType

pub record Value : Type 0 where
  pub data_type : DataType
  pub word : ℕ
  pub value_len : ℕ

-- TValue::TValue()
abbrev pub fresh : Value
fresh = record { data_type = sql_unknown; word = null; value_len = 0 }

-- The members of the union.
abbrev pub low_half : ℕ → ℕ
low_half w = w % 2 ^ 32

abbrev pub set_low_half : ℕ → ℕ → ℕ
set_low_half w x = w / 2 ^ 32 * 2 ^ 32 + x % 2 ^ 32

pub as_int : Value → ℕ
as_int v = low_half v.word

pub as_uint : Value → ℕ
as_uint v = low_half v.word

pub as_llong : Value → ℕ
as_llong v = v.word

pub as_ulong : Value → ℕ
as_ulong v = v.word

pub as_double : Value → ℕ
as_double v = v.word

pub as_float : Value → ℕ
as_float v = low_half v.word

-- asString, asDate and asBinary return the same pointer.
unfoldable pub as_string : Value → Ptr
as_string v = v.word

pub get_length : Value → ℕ
get_length v = v.value_len

pub get_type : Value → DataType
get_type v = v.data_type

abbrev pub is_null_type : DataType → Bool
is_null_type sql_null = true
is_null_type _ = false

unfoldable pub is_null : Value → Bool
is_null v = is_null_type v.data_type

unfoldable pub set_int : Value → ℕ → Value
set_int v x = record v { word = set_low_half v.word x; data_type = sql_int }

unfoldable pub set_uint : Value → ℕ → Value
set_uint v x = record v { word = set_low_half v.word x; data_type = sql_uint }

unfoldable pub set_float : Value → ℕ → Value
set_float v x = record v { word = set_low_half v.word x; data_type = sql_float }

unfoldable pub set_double : Value → ℕ → Value
set_double v x = record v { word = x % 2 ^ 64; data_type = sql_double }

unfoldable pub set_llong : Value → ℕ → Value
set_llong v x = record v { word = x % 2 ^ 64; data_type = sql_long }

unfoldable pub set_ulong : Value → ℕ → Value
set_ulong v x = record v { word = x % 2 ^ 64; data_type = sql_ulong }

unfoldable pub set_null : Value → Value
set_null v = record v { data_type = sql_null }

-- The types for which `freeBuffer` takes the word for a pointer. SQL_TEXT is not among them.
abbrev pub is_buffered : DataType → Bool
is_buffered sql_binary = true
is_buffered sql_date = true
is_buffered sql_string = true
is_buffered sql_unknown = true
is_buffered _ = false

-- `eDataType == SQL_UNKNOWN;` at the end of the source's body is a comparison, and has no effect.
unfoldable pub free_buffer : Value → Cmd Chars Value
free_buffer v =
    when is_buffered v.data_type
    run (when v.word == null
        run pure v
        otherwise (do delete v.word; pure (record v { word = null })))
    otherwise pure v

-- The two ways to fill the new array.
unfoldable pub fill : Bool → Ptr → Ptr → ℕ → Cmd Chars (Unit {0})
fill true p data_ptr len = strcpy p data_ptr
fill false p data_ptr len = memcpy p data_ptr len

unfoldable pub buffer_read : Value → Ptr → ℕ → Bool → Cmd Chars Value
unfolding fill
buffer_read v data_ptr len is_string = when data_ptr == null run pure v otherwise (do
  v' ← free_buffer v
  p ← new_chars len
  fill is_string p data_ptr len
  pure (record v' { word = p }))

unfoldable pub set_date : Value → Ptr → Cmd Chars Value
unfolding buffer_read
set_date v date = do
  n ← strlen date
  v' ← buffer_read v date n false
  pure (record v' { data_type = sql_date })

unfoldable pub set_string : Value → Ptr → Cmd Chars Value
unfolding buffer_read
set_string v str = do
  n ← strlen str
  v' ← buffer_read v str (n + 1) true
  pure (record v' { data_type = sql_string })

unfoldable pub set_binary : Value → Ptr → ℕ → Cmd Chars Value
unfolding buffer_read
set_binary v data_ptr len = do
  v' ← buffer_read v data_ptr len false
  pure (record v' { data_type = sql_binary })

unfoldable pub set_value : Value → Ptr → ℕ → Cmd Chars Value
unfolding buffer_read
set_value v data_ptr len = do
  v' ← buffer_read v data_ptr len false
  pure (record v' { data_type = sql_unknown })

-- The cases of the switch in `operator =` that copy an array.
abbrev pub copies_buffer : DataType → Bool
copies_buffer sql_unknown = true
copies_buffer sql_string = true
copies_buffer sql_date = true
copies_buffer sql_binary = true
copies_buffer sql_text = true
copies_buffer _ = false

-- `operator =` between two objects; the type and the length are set before the array is read.
pub assign : Value → Value → Cmd Chars Value
unfolding buffer_read
assign v other =
    let v' = record v { data_type = other.data_type; value_len = other.value_len } in
    when copies_buffer other.data_type
    run buffer_read v' other.word other.value_len false
    otherwise pure (record v' { word = other.word })

-- ~TValue
unfoldable pub destroy : Value → Cmd Chars (Unit {0})
unfolding free_buffer
destroy v = do _ ← free_buffer v; pure tt

-- What `toString` returns: a literal, what sprintf has printed into the caller's array, or a
-- pointer.
pub data Conversion : Type 0 where
  as_d as_u as_lld as_llu as_f_float as_f_double : Conversion

pub data Shown : Type 0 where
  literal : CStr → Shown
  printed : Conversion → ℕ → Shown
  pointer : Ptr → Shown

abbrev pub print_to : Bool → Conversion → ℕ → Shown
print_to true c x = printed c x
print_to false c x = pointer null

-- `buf` says whether the caller's `sBuf` is not NULL.
pub to_string : Value → Bool → Shown
to_string v buf = elim v.data_type [
  | sql_null ↦ literal (codes "NULL")
  | sql_int ↦ print_to buf as_d (low_half v.word)
  | sql_uint ↦ print_to buf as_u (low_half v.word)
  | sql_long ↦ print_to buf as_lld v.word
  | sql_ulong ↦ print_to buf as_llu v.word
  | sql_float ↦ print_to buf as_f_float (low_half v.word)
  | sql_double ↦ print_to buf as_f_double v.word
  | sql_date ↦ pointer v.word
  | sql_string ↦ pointer v.word
  | sql_text ↦ pointer v.word
  | sql_binary ↦ pointer v.word
  | sql_unknown ↦ literal []
]
