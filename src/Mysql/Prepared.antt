-- ===== src/Mysql/Prepared.antt =====
-- src/mysqlapi.cpp: the methods of mysqlapi that prepare a statement with parameters, and `phfree`. A
-- byte string is what stands before its NUL. `none` as a whole
-- result is a write outside an array or a read through NULL.
pub mod Scan
pub mod Params
mod Tests
use dbsqlapi.Prelude.{
  ℕ, zero, suc, ◌+◌, ◌-◌, Bool, true, false, ◌&&◌, ◌||◌, not, Option, none, some, List, [], ◌∷◌,
  ◌++◌, ℤ, pos, negsuc, CStr, ◌==◌, ltb, leb, if◌then◌else◌, length, get_elem?, set, replicate,
}
use dbsqlapi.Heap.{Ptr, null}
use dbsqlapi.Value.{DataType, sql_unknown, sql_int, sql_long, sql_string, sql_binary}

-- MAX_DATA_BUF_LENGTH
abbrev pub max_data_buf_length : ℕ
max_data_buf_length = 2048

-- The bytes that end the name of a parameter.
unfoldable pub ends_name : ℕ → Bool
ends_name c = (c == b',') || ((c == b' ') || ((c == b')') || (c == b';')))

-- One round of the loop of phSetSql: the new `cp_flag`, and the bytes that go to `temp_sql`.
unfoldable pub scan_step : Bool → ℕ → Bool × CStr
unfolding ends_name
scan_step cp_flag c =
    let marked : Bool × CStr = if c == b':' then (false, b'?' ∷ []) else (cp_flag, []) in
    let cp_flag' = if ends_name c && not marked.0 then true else marked.0 in
    (cp_flag', if cp_flag' then marked.1 ++ c ∷ [] else marked.1)

-- The loop, as the bytes that it writes; their number is the last `offset`.
unfoldable pub scan : Bool → CStr → CStr
scan cp_flag [] = []
scan cp_flag (c ∷ cs) = (scan_step cp_flag c).1 ++ scan (scan_step cp_flag c).0 cs

-- enum operation
pub data Operation : Type 0 where
  system statement dynamic_statement : Operation

-- mysql_fld_val_t
pub record FldVal : Type 0 where
  pub data_type : DataType
  pub len : ℕ
  pub data_len : ℕ
  pub data_ptr : Ptr

abbrev pub no_val : FldVal
no_val = record { data_type = sql_unknown; len = 0; data_len = 0; data_ptr = null }

-- The members of mysqlapi that the methods use; `fld_vals` has 32 elements.
pub record Prep : Type 0 where
  pub now_operation : Operation
  pub sql : CStr
  pub fld_vals : List FldVal

unfoldable pub phfree : Prep → Prep
phfree st = record { now_operation = system; sql = []; fld_vals = replicate 32 no_val }

-- The last round writes a NUL at `offset + 1`.
unfoldable pub ph_set_sql : Prep → Option CStr → Option (ℤ × Prep)
unfolding scan
ph_set_sql st none = some (negsuc 0, st)
ph_set_sql st (some text) =
    let temp_sql = scan true text in
    let overruns = leb max_data_buf_length (length temp_sql + 1) && not (length text == 0) in
    let too_long : ℤ × Prep = (negsuc 0, record st { now_operation = statement }) in
    let accepted : ℤ × Prep = (pos 0, record (phfree st) { sql = temp_sql }) in
    if leb max_data_buf_length (length text)
    then some (negsuc 0, st)
    else if overruns
    then none
    else if leb max_data_buf_length (length temp_sql)
    then some too_long
    else some accepted

-- The element after the assignments of phSetParm.
abbrev pub filled : FldVal → DataType → Ptr → ℕ → FldVal
filled v d_type p len = record v {
  data_type = d_type;
  data_ptr = p;
  len = if len == 0 then v.len else len;
}

-- `n` is unsigned, and the guard lets 32 through.
unfoldable pub ph_set_parm : Prep → ℕ → DataType → Ptr → ℕ → Option (ℤ × Prep)
ph_set_parm st n d_type p len =
    let st' = record st { now_operation = statement } in
    if p == null
    then some (negsuc 0, st')
    else if ltb 32 n
    then some (negsuc 0, st')
    else elim (get_elem? st.fld_vals n) [
      | none ↦ none
      | some v ↦ some (pos 0, record st' { fld_vals = set st.fld_vals n (filled v d_type p len) })
    ]

-- `n - 1` of an unsigned int.
abbrev pub pred_uint : ℕ → ℕ
pred_uint zero = 4294967295
pred_uint (suc n) = n

unfoldable pub ph_set_int : Prep → ℕ → Ptr → Option (ℤ × Prep)
unfolding ph_set_parm
ph_set_int st n p = ph_set_parm st (pred_uint n) sql_int p 0

unfoldable pub ph_set_longlong : Prep → ℕ → Ptr → Option (ℤ × Prep)
unfolding ph_set_parm
ph_set_longlong st n p = ph_set_parm st (pred_uint n) sql_long p 0

-- `strlen` of the text at `p` is `text_len`; it is read only for a `len` of 0, NULL or not.
unfoldable pub ph_set_string : Prep → ℕ → Ptr → ℕ → ℕ → Option (ℤ × Prep)
unfolding ph_set_parm
ph_set_string st n p text_len len =
    let set_parm = ph_set_parm st (pred_uint n) sql_string p (if len == 0 then text_len else len) in
    if (len == 0) && (p == null) then none else set_parm

unfoldable pub ph_set_longbyte : Prep → ℕ → Ptr → ℕ → Option (ℤ × Prep)
unfolding ph_set_parm
ph_set_longbyte st n p len = ph_set_parm st (pred_uint n) sql_binary p len

-- What the loop of phExecute binds at a position.
pub data Bind : Type 0 where
  bind_long bind_longlong : Ptr → Bind
  bind_string : Ptr → ℕ → Bind
  bind_blob : Ptr → ℕ → Bind

abbrev pub bind_of : FldVal → Option Bind
bind_of v = elim v.data_type [
  | sql_int ↦ some (bind_long v.data_ptr)
  | sql_long ↦ some (bind_longlong v.data_ptr)
  | sql_string ↦ some (bind_string v.data_ptr v.len)
  | sql_binary ↦ some (bind_blob v.data_ptr v.len)
  | _ ↦ none
]

-- The loop of phExecute from an element on: the bindings that it makes, in order, or `none` where it
-- meets a type that it does not know. It stops at the first element without data.
unfoldable pub bind_loop : List FldVal → Option (List Bind)
bind_loop [] = some []
bind_loop (v ∷ vs) =
    let rest = bind_loop vs in
    let here : Option (List Bind) = elim (bind_of v) [
      | none ↦ none
      | some b ↦ elim rest [ none ↦ none | some bs ↦ some (b ∷ bs) ]
    ] in
    if v.data_ptr == null then some [] else here
