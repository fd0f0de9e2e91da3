-- ===== src/Oracle/Parms/Slots.antt =====
-- Which elements the methods for parameters of src/oracleapi.cpp change.
use dbsqlapi.Prelude.{
  ℕ, zero, suc, [], ◌∷◌, ◌-◌, ◌≤◌, ◌<◌, ◌≡◌, ◌≢◌, ◌⊎◌, refl, inl, inr, false, ◌||◌, Option, some,
  List, ℤ, pos, negsuc, arith, ◌==◌, ltb, length, get_elem?, set, length-set, get_elem?-set_self,
  get_elem?-set_ne, Bool-cases,
}
use dbsqlapi.Heap.{Ptr, null}
use dbsqlapi.Value.{sql_int, sql_long, sql_string, sql_binary}
use dbsqlapi.Oracle.Parms.{
  FldVal, Parms, set_slot, ph_set_int, ph_set_longlong, ph_set_string, ph_set_longbyte,
}

-- The methods, with their arguments but the position and the pointer.
pub data Setter : Type 0 where
  sets_int sets_longlong : Setter
  sets_string sets_longbyte : ℕ → Setter

pub run_setter : Setter → Parms → ℕ → Ptr → Option (ℤ × Parms)
run_setter sets_int st n value = ph_set_int st n value
run_setter sets_longlong st n value = ph_set_longlong st n value
run_setter (sets_string len) st n value = ph_set_string st n value len
run_setter (sets_longbyte len) st n value = ph_set_longbyte st n value len

-- What an element holds for a method.
abbrev pub Holds : Setter → Ptr → FldVal → Type 0
Holds sets_int value v = (v.data_type ≡ sql_int) × (v.data_ptr ≡ value)
Holds sets_longlong value v = (v.data_type ≡ sql_long) × (v.data_ptr ≡ value)
Holds (sets_string len) value v = (v.data_type ≡ sql_string) × (v.data_ptr ≡ value)
Holds (sets_longbyte len) value v =
    (v.data_type ≡ sql_binary) × (v.data_ptr ≡ value) × (v.len ≡ len)

-- The element `i` of `st'` is such, and the other ones are as in `st`.
pub record Changed (P : FldVal → Type 0) (i : ℕ) (st st' : Parms) : Type 0 where
  pub new : (v : FldVal) × (get_elem? st'.fld_vals i ≡ some v) × P v
  pub others : (j : ℕ) → i ≢ j → get_elem? st'.fld_vals j ≡ get_elem? st.fld_vals j
  pub as_many : length st'.fld_vals ≡ length st.fld_vals
  pub same_sql : st'.sql ≡ st.sql

slot_there : (vs : List FldVal) (i : ℕ) → i < length vs → (v : FldVal) × (get_elem? vs i ≡ some v)
slot_there [] i lt = absurd (omega arith)
slot_there (v ∷ vs) zero lt = (v, refl)
slot_there (v ∷ vs) (suc i) lt = slot_there vs i (omega arith)

-- A NULL, a position 0 and one above 32.
abbrev pub IsRefused : ℕ → Ptr → Type 0
IsRefused n value = (value ≡ null) ⊎ ((n ≡ 0) ⊎ (32 < n))

set_slot-refused :
    (st : Parms) (n : ℕ) (value : Ptr) (f : FldVal → FldVal)
    → IsRefused n value
    → set_slot st n value f ≡ some (negsuc 0, st)
unfolding set_slot
set_slot-refused st n value f bad = ground (arith, bad)

set_slot-Changed :
    (P : FldVal → Type 0) (st : Parms) (n : ℕ) (value : Ptr) (f : FldVal → FldVal)
    → ((v : FldVal) → P (f v))
    → length st.fld_vals ≡ 32
    → value ≢ null
    → 0 < n
    → n ≤ 32
    → (st' : Parms) × (set_slot st n value f ≡ some (pos 0, st')) × Changed P (n - 1) st st'
unfolding set_slot
set_slot-Changed P st n value f holds size some_value low high =
    let (v, at) = slot_there st.fld_vals (n - 1) (omega arith) in
    let not_null : (value == null) ≡ false = ground (arith, some_value) in
    let inside : ((n == 0) || ltb 32 n) ≡ false = ground arith in
    (
      record st { fld_vals = set st.fld_vals (n - 1) (f v) },
      rw (not_null, inside, at) refl,
      record {
        new = (f v, get_elem?-set_self st.fld_vals (n - 1) (f v) (omega arith), holds v);
        others = λ j other. get_elem?-set_ne st.fld_vals (f v) other;
        as_many = length-set st.fld_vals (n - 1) (f v);
        same_sql = refl;
      },
    )

-- What a call does to an array of 32 elements.
abbrev pub Answers : (FldVal → Type 0) → ℕ → Ptr → Parms → Option (ℤ × Parms) → Type 0
Answers P n value st r =
    (IsRefused n value × (r ≡ some (negsuc 0, st)))
    ⊎ ((value ≢ null)
        × (0 < n)
        × (n ≤ 32)
        × ((st' : Parms) × (r ≡ some (pos 0, st')) × Changed P (n - 1) st st'))

set_slot-Answers :
    (P : FldVal → Type 0) (st : Parms) (n : ℕ) (value : Ptr) (f : FldVal → FldVal)
    → ((v : FldVal) → P (f v))
    → length st.fld_vals ≡ 32
    → Answers P n value st (set_slot st n value f)
set_slot-Answers P st n value f holds size = elim (Bool-cases (value == null)) [
  | inl e ↦
      let bad : IsRefused n value = inl (ground (arith, e)) in
      inl (bad, set_slot-refused st n value f bad)
  | inr e ↦ elim (Bool-cases (n == 0)) [
    | inl z ↦
        let bad : IsRefused n value = inr (inl (ground (arith, z))) in
        inl (bad, set_slot-refused st n value f bad)
    | inr z ↦ elim (Bool-cases (ltb 32 n)) [
      | inl big ↦
          let bad : IsRefused n value = inr (inr (ground (arith, big))) in
          inl (bad, set_slot-refused st n value f bad)
      | inr fits ↦
          let ne : value ≢ null = ground (arith, e) in
          let low : 0 < n = ground (arith, z) in
          let high : n ≤ 32 = ground (arith, fits) in
          inr (ne, low, high, set_slot-Changed P st n value f holds size ne low high)
    ]
  ]
]

-- With 32 elements, phSetInt, phSetLonglong, phSetString and phSetLongbyte never write outside the array:
-- a NULL, a position 0 and one above 32 are refused with -1 and change nothing, and each position from 1 to
-- 32 succeeds and changes the element before it alone, to hold the pointer and what the method sets.
pub run_setter-Answers :
    (s : Setter) (st : Parms) (n : ℕ) (value : Ptr)
    → length st.fld_vals ≡ 32
    → Answers (Holds s value) n value st (run_setter s st n value)
unfolding run_setter ph_set_int ph_set_longlong ph_set_string ph_set_longbyte
run_setter-Answers sets_int st n value size =
    set_slot-Answers (Holds sets_int value) st n value _ (λ v. (refl, refl)) size
run_setter-Answers sets_longlong st n value size =
    set_slot-Answers (Holds sets_longlong value) st n value _ (λ v. (refl, refl)) size
run_setter-Answers (sets_string len) st n value size =
    set_slot-Answers (Holds (sets_string len) value) st n value _ (λ v. (refl, refl)) size
run_setter-Answers (sets_longbyte len) st n value size =
    set_slot-Answers (Holds (sets_longbyte len) value) st n value _ (λ v. (refl, refl, refl)) size
