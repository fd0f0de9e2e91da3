-- ===== src/Fields/Lookup.antt =====
-- Fields by number and by name (src/dbsql.cpp).
use native.Mathlib.Decide.{dec_lt}
use dbsqlapi.Prelude.{
  ℕ, zero, suc, ◌<◌, ◌≤◌, ◌≡◌, ◌≢◌, refl, ap, ◌⊎◌, inl, inr, none, some, true, false, [], ◌∷◌,
  arith, CStr, str_eq, length, get_elem?, take, length-take, str_eq_refl,
}
use dbsqlapi.Errors.{returns, throws, invalid_field_num, invalid_field_name, string_is_null}
use dbsqlapi.Fields.{
  Field, FieldList, at_num, at_name, set_field_name, get_field_name, max_field_name_len,
}

get_elem?-lt : (fs : FieldList) (n : ℕ) → n < length fs → (f : Field) × (get_elem? fs n ≡ some f)
get_elem?-lt [] n h = absurd (omega arith)
get_elem?-lt (f ∷ fs) zero h = (f, refl)
get_elem?-lt (f ∷ fs) (suc n) h = get_elem?-lt fs n (omega arith)

get_elem?-ge : (fs : FieldList) (n : ℕ) → length fs ≤ n → get_elem? fs n ≡ none
get_elem?-ge [] n h = refl
get_elem?-ge (f ∷ fs) zero h = absurd (omega arith)
get_elem?-ge (f ∷ fs) (suc n) h = get_elem?-ge fs n (omega arith)

-- By number a field of the list is returned if the number is below `num`, and else exception 1 is
-- thrown.
pub at_num-get_elem? :
    (fs : FieldList) (n : ℕ)
    → ((n < length fs) × ((f : Field) × (get_elem? fs n ≡ some f) × (at_num fs n ≡ returns f)))
      ⊎ ((length fs ≤ n) × (at_num fs n ≡ throws invalid_field_num))
unfolding at_num
at_num-get_elem? fs n = elim (dec_lt n (length fs)) [
  | yes h ↦ let (f, e) = get_elem?-lt fs n h in inl (h, (f, e, rw (e, at_num)))
  | no h ↦ inr (omega arith, rw (get_elem?-ge fs n (omega arith), at_num))
]

-- By name the first field of the list is returned, whatever its name and whatever name is asked
-- for; only for an empty list exception 2 is thrown.
pub at_name_first :
    (f : Field) (fs : FieldList) (name : CStr)
    → (at_name (f ∷ fs) name ≡ returns f) × (at_name [] name ≡ throws invalid_field_name)
unfolding at_name
at_name_first f fs name = (ground arith, refl)

-- A field whose name differs from that of the first field of the list is not found by its name:
-- the call does not return it.
pub at_name_misses :
    (f g : Field) (fs : FieldList)
    → str_eq f.field_name g.field_name ≡ false
    → at_name (f ∷ fs) g.field_name ≢ returns g
at_name_misses f g fs differ found =
    let first : at_name (f ∷ fs) g.field_name ≡ returns f = (at_name_first f fs g.field_name).0 in
    let same : f ≡ g = cc in
    let hit : str_eq f.field_name g.field_name ≡ true =
      rw (ap (λ (k : Field). k.field_name) same) (str_eq_refl g.field_name) in
    cc

-- `setFieldName` keeps the first 31 bytes of the name, so a name of at most 31 bytes whole; a NULL
-- is answered by exception 4.
pub set_field_name-take :
    (f : Field) (name : CStr)
    → ((f' : Field) × (set_field_name f (some name) ≡ returns f')
        × (get_field_name f' ≡ take 31 name)
        × (length (get_field_name f') < max_field_name_len)
        × (f'.value ≡ f.value))
      × (set_field_name f none ≡ throws string_is_null)
unfolding set_field_name get_field_name
set_field_name-take f name = (
  (record f { field_name = take 31 name }, refl, refl, omega (arith, length-take 31 name), refl),
  refl,
)
