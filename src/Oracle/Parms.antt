-- ===== src/Oracle/Parms.antt =====
-- src/oracleapi.cpp: phSetSql, the methods that keep the parameters of a statement, and phfree of class
-- oracleapi. `none` as a whole result is a write outside an array.
pub mod Slots
mod Tests
use dbsqlapi.Prelude.{
  ℕ, ◌-◌, Bool, true, false, ◌||◌, Option, none, some, List, ℤ, pos, negsuc, CStr, [], map, ◌==◌,
  ltb, leb, if◌then◌else◌, length, get_elem?, set,
}
use dbsqlapi.Heap.{Ptr, null}
use dbsqlapi.Value.{DataType, sql_int, sql_long, sql_string, sql_binary}

-- MAX_DATA_BUF_LENGTH
abbrev pub max_data_buf_length : ℕ
max_data_buf_length = 2048

-- _fld_val_t
pub record FldVal : Type 0 where
  pub data_type : DataType
  pub len : ℕ
  pub data_ptr : Ptr

-- m_sql and m_bin_fld_val_list, which has 32 elements.
pub record Parms : Type 0 where
  pub sql : CStr
  pub fld_vals : List FldVal

abbrev cleared : FldVal → FldVal
cleared v = record v { data_ptr = null }

-- Only the pointers are set.
unfoldable pub phfree : Parms → Parms
phfree st = record { sql = []; fld_vals = map cleared st.fld_vals }

-- strncpy of 2048 bytes, into an array of as many.
unfoldable pub ph_set_sql : Parms → Option CStr → ℤ × Parms
unfolding phfree
ph_set_sql st none = (negsuc 0, st)
ph_set_sql st (some sql) =
    if leb max_data_buf_length (length sql)
    then (negsuc 0, st)
    else (pos 0, record (phfree st) { sql = sql })

-- The guards of the four methods, and what they do with the element.
unfoldable pub set_slot : Parms → ℕ → Ptr → (FldVal → FldVal) → Option (ℤ × Parms)
set_slot st n value f =
    if value == null
    then some (negsuc 0, st)
    else if (n == 0) || ltb 32 n
    then some (negsuc 0, st)
    else elim (get_elem? st.fld_vals (n - 1)) [
      | none ↦ none
      | some v ↦ some (pos 0, record st { fld_vals = set st.fld_vals (n - 1) (f v) })
    ]

unfoldable pub ph_set_int : Parms → ℕ → Ptr → Option (ℤ × Parms)
unfolding set_slot
ph_set_int st n value =
    set_slot st n value (λ v. record v { data_type = sql_int; data_ptr = value })

unfoldable pub ph_set_longlong : Parms → ℕ → Ptr → Option (ℤ × Parms)
unfolding set_slot
ph_set_longlong st n value =
    set_slot st n value (λ v. record v { data_type = sql_long; data_ptr = value })

-- `len` is not read.
unfoldable pub ph_set_string : Parms → ℕ → Ptr → ℕ → Option (ℤ × Parms)
unfolding set_slot
ph_set_string st n value len =
    set_slot st n value (λ v. record v { data_type = sql_string; data_ptr = value })

unfoldable pub ph_set_longbyte : Parms → ℕ → Ptr → ℕ → Option (ℤ × Parms)
unfolding set_slot
ph_set_longbyte st n value len =
    set_slot st n value (λ v. record v { data_type = sql_binary; len = len; data_ptr = value })
