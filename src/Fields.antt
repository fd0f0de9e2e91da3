-- ===== src/Fields.antt =====
-- src/dbsql.h and src/dbsql.cpp: classes TField and TFieldList. The values of the fields own
-- character arrays, so what deletes fields is a command over the heap.
pub mod Lookup
pub mod Lifetime
mod Tests
use dbsqlapi.Prelude.{
  ℕ, zero, suc, ◌-◌, Bool, true, false, ◌||◌, Option, none, some, List, [], ◌∷◌, CStr, ◌==◌, leb,
  ltb, str_eq, if◌then◌else◌, length, get_elem?, take, replicate,
}
use dbsqlapi.Heap.{Heap, Run, Cmd, ok, fault, pure, ◌>>=◌, ◌>>◌, when◌run◌otherwise◌}
use dbsqlapi.Errors.{
  invalid_field_num, invalid_field_name, max_field_num, string_is_null, Thrown, returns, throws,
}
use dbsqlapi.Value.{Value, fresh, destroy}
use dbsqlapi.Value.Arrays.{Chars}

-- MAXITEMS of src/dbpub.h and MAX_FIELD_NAME_LEN of src/dbsql.h
abbrev pub maxitems : ℕ
maxitems = 150

abbrev pub max_field_name_len : ℕ
max_field_name_len = 32

pub record Field : Type 0 where
  pub field_name : CStr
  pub value : Value
  pub op : ℕ
  pub source_type : ℕ

-- TField::TField()
abbrev pub fresh_field : Field
fresh_field = record { field_name = []; value = fresh; op = 0; source_type = 0 }

-- `strncpy` of 31 bytes, and a NUL.
unfoldable pub set_field_name : Field → Option CStr → Thrown Field
set_field_name f none = throws string_is_null
set_field_name f (some name) =
    returns (record f { field_name = take (max_field_name_len - 1) name })

-- The body assigns the parameter to itself.
unfoldable pub set_field_value : Field → Value → Field
set_field_value f value = f

unfoldable pub set_source_type : Field → ℕ → Field
set_source_type f t = record f { source_type = t }

unfoldable pub set_op : Field → ℕ → Field
set_op f op = record f { op = op }

pub get_field_name : Field → CStr
get_field_name f = f.field_name

-- `num` is the length of `fld_list`, and the pointer is NULL exactly if `num` is 0.
abbrev pub FieldList : Type 0
FieldList = List Field

-- The destructors that `delete [] fld_list` runs.
unfoldable pub destroy_all : FieldList → Cmd Chars (Unit {0})
destroy_all [] = pure tt
destroy_all (f ∷ fs) = do destroy_all fs; destroy f.value

unfoldable pub free_fld_list : FieldList → Cmd Chars FieldList
unfolding destroy_all
free_fld_list fs = do destroy_all fs; pure []

-- `n` is the argument as it is if it is positive, and `0` for any below 1.
unfoldable pub new_fld_list : FieldList → ℕ → Cmd Chars (Thrown FieldList)
unfolding free_fld_list
new_fld_list fs n =
    when ltb maxitems n || ltb n 1
    run pure (throws max_field_num)
    otherwise (do _ ← free_fld_list fs; pure (returns (replicate n fresh_field)))

-- `operator[]` by number.
unfoldable pub at_num : FieldList → ℕ → Thrown Field
at_num fs n = elim (get_elem? fs n) [ none ↦ throws invalid_field_num | some f ↦ returns f ]

-- The search loop of `operator[]` by name. Its `iFieldPos` is declared in the loop's head, and is
-- not the one that the code below the loop reads.
pub loop_pos : FieldList → CStr → ℕ
loop_pos [] name = 0
loop_pos (f ∷ fs) name = if str_eq f.field_name name then 0 else suc (loop_pos fs name)

-- `operator[]` by name. The outer `iFieldPos` keeps the value 0.
pub at_name : FieldList → CStr → Thrown Field
unfolding loop_pos
at_name fs name =
    let field_pos : ℕ = 0 in
    let inner = loop_pos fs name in
    if field_pos == length fs
    then throws invalid_field_name
    else elim (get_elem? fs field_pos) [ none ↦ throws invalid_field_name | some f ↦ returns f ]
