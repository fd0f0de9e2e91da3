-- ===== src/Mysql/Output/Plain.antt =====
-- Which values the columns of src/mysqlapi.cpp get in fields that are new.
use dbsqlapi.Prelude.{
  ℕ, suc, ◌≡◌, refl, inl, inr, Bool, true, false, ◌⊎◌, Option, none, some, List, [], ◌∷◌, ℤ, pos,
  zero, ◌+◌, replicate, ◌-◌, ◌++◌, ltb, ◌||◌, ◌==◌, leb, length, take, Bool-cases,
}
use dbsqlapi.Heap.{
  Ptr, null, Heap, Run, Cmd, ok, fault, out_of_fuel, and_then, pure, ◌>>◌, when◌run◌otherwise◌,
  delete, alloc,
}
use dbsqlapi.Errors.{Thrown, returns, throws}
use dbsqlapi.Value.{
  Value, is_null, buffer_read, set_null, set_int, set_uint, set_float, set_llong, set_ulong,
  set_string, set_date, set_binary, set_value,
}
use dbsqlapi.Value.Arrays.{Chars, strlen}
use dbsqlapi.Fields.{Field, FieldList, fresh_field, destroy_all, free_fld_list, new_fld_list}
use dbsqlapi.Mysql.Cursor.{Column, string_size}
use dbsqlapi.Mysql.Api.{DateFormat}
use dbsqlapi.Mysql.Output.{
  Kind, long_kind, float_kind, longlong_kind, string_kind, date_kind, blob_kind, default_kind,
  kind_of, read_bytes, from_buffer, date_text, time_of, little_endian, little_endian, put_kind,
  put_column, put_fields, label, output,
}

-- What a command returns has the property `P`, where it returns.
abbrev pub Yields : {A : Type 0} → (A → Type 0) → Run Chars A → Type 0
Yields P (ok a g) = P a
Yields P fault = Unit {0}
Yields P out_of_fuel = Unit {0}

pub and_then-Yields :
    {A B : Type 0} (Q : A → Type 0) (P : B → Type 0) (r : Run Chars A) (k : A → Cmd Chars B)
    → Yields Q r
    → ((a : A) → Q a → (g : Heap Chars) → Yields P (k a g))
    → Yields P (and_then r k)
and_then-Yields Q P (ok a g) k y h = h a y g
and_then-Yields Q P fault k y h = tt
and_then-Yields Q P out_of_fuel k y h = tt

-- With no knowledge of the first command.
pub after :
    {A B : Type 0} (P : B → Type 0) (r : Run Chars A) (k : A → Cmd Chars B)
    → ((a : A) (g : Heap Chars) → Yields P (k a g))
    → Yields P (and_then r k)
after P (ok a g) k h = h a g
after P fault k h = tt
after P out_of_fuel k h = tt

pub choose :
    {A : Type 0} (P : A → Type 0) (b : Bool) (m k : Cmd Chars A) (h : Heap Chars)
    → Yields P (m h)
    → Yields P (k h)
    → Yields P ((when b run m otherwise k) h)
choose P true m k h y n = y
choose P false m k h y n = n

-- A value that is not NULL.
abbrev Live : Value → Type 0
Live v = is_null v ≡ false

-- A value that getSysDate cannot copy: it is not NULL, or it has no array.
abbrev pub Plain : Value → Type 0
Plain v = Live v ⊎ (v.word ≡ null)

from_buffer-Live :
    (bs : List ℕ) (f : Ptr → Cmd Chars Value)
    → ((p : Ptr) (g : Heap Chars) → Yields Live (f p g))
    → (h : Heap Chars) → Yields Live (from_buffer bs f h)
unfolding from_buffer
from_buffer-Live bs f live h = after Live (alloc bs h) _ (λ p g.
    and_then-Yields Live Live (f p g) (λ v. delete p >> pure v) (live p g)
      (λ v l k. after Live (delete p k) (λ _. pure v) (λ _ _. l)))

module _ (v : Value) where
  set_string-Live : (p : Ptr) (g : Heap Chars) → Yields Live (set_string v p g)
  unfolding set_string is_null
  set_string-Live p g =
      after Live (strlen p g) _ (λ n k. after Live (buffer_read v p (n + 1) true k) _ (λ _ _. refl))

  set_date-Live : (p : Ptr) (g : Heap Chars) → Yields Live (set_date v p g)
  unfolding set_date is_null
  set_date-Live p g =
      after Live (strlen p g) _ (λ n k. after Live (buffer_read v p n false k) _ (λ _ _. refl))

  set_binary-Live : (len : ℕ) (p : Ptr) (g : Heap Chars) → Yields Live (set_binary v p len g)
  unfolding set_binary is_null
  set_binary-Live len p g = after Live (buffer_read v p len false g) _ (λ _ _. refl)

  set_value-Live : (len : ℕ) (p : Ptr) (g : Heap Chars) → Yields Live (set_value v p len g)
  unfolding set_value is_null
  set_value-Live len p g = after Live (buffer_read v p len false g) _ (λ _ _. refl)

  read_bytes-Live :
      (n : ℕ) (bs : List ℕ) (f : ℕ → Value)
      → ((x : ℕ) → Live (f x))
      → (h : Heap Chars) → Yields Live (read_bytes n bs f h)
  unfolding read_bytes
  read_bytes-Live n bs f live h =
      choose Live (leb n (length bs)) (pure (f (little_endian n bs))) (λ _. fault) h (live _) tt

  put_kind-Live :
      (df : DateFormat) (kind : Kind) (is_unsigned : Bool) (len : ℕ) (bs : List ℕ) (h : Heap Chars)
      → Yields Live (put_kind df kind is_unsigned len bs v h)
  unfolding put_kind set_int set_uint set_float set_llong set_ulong is_null
  put_kind-Live df long_kind true len bs h = read_bytes-Live 4 bs (set_uint v) (λ x. refl) h
  put_kind-Live df long_kind false len bs h = read_bytes-Live 4 bs (set_int v) (λ x. refl) h
  put_kind-Live df float_kind is_unsigned len bs h =
      read_bytes-Live 4 bs (set_float v) (λ x. refl) h
  put_kind-Live df longlong_kind true len bs h = read_bytes-Live 8 bs (set_ulong v) (λ x. refl) h
  put_kind-Live df longlong_kind false len bs h = read_bytes-Live 8 bs (set_llong v) (λ x. refl) h
  put_kind-Live df string_kind is_unsigned len bs h = from_buffer-Live bs _ set_string-Live h
  put_kind-Live df date_kind is_unsigned len bs h =
      let text = take (string_size - 1) (date_text df (time_of bs)) ++ 0 ∷ [] in
      choose Live (leb 24 (length bs)) (from_buffer text (set_date v)) (λ _. fault) h
        (from_buffer-Live text (set_date v) set_date-Live h) tt
  put_kind-Live df blob_kind is_unsigned len bs h = from_buffer-Live bs _ (set_binary-Live len) h
  put_kind-Live df default_kind is_unsigned len bs h = from_buffer-Live bs _ (set_value-Live len) h

Live-Plain : (r : Run Chars Value) → Yields Live r → Yields Plain r
Live-Plain (ok v g) l = inl l
Live-Plain fault l = tt
Live-Plain out_of_fuel l = tt

abbrev column_run : DateFormat → Column → Option (List ℕ) → Cmd Chars Value
column_run df c none = λ _. fault
column_run df c (some bs) =
    put_kind df (kind_of c.field_type) c.is_unsigned c.length bs fresh_field.value

put_column-Plain :
    (df : DateFormat) (c : Column) (h : Heap Chars)
    → Yields Plain (put_column df c fresh_field.value h)
unfolding put_column set_null
put_column-Plain df c h =
    choose Plain c.is_null (pure (set_null fresh_field.value)) (column_run df c c.buf) h (inr refl)
      (with_buffer c.buf)
  where
    with_buffer : (buf : Option (List ℕ)) → Yields Plain (column_run df c buf h)
    with_buffer none = tt
    with_buffer (some bs) =
        Live-Plain _ (put_kind-Live fresh_field.value df _ c.is_unsigned c.length bs h)

-- The first field, if there is one.
abbrev pub FirstPlain : FieldList → Type 0
FirstPlain [] = Unit {0}
FirstPlain (f ∷ fs) = Plain f.value

-- What a method returns satisfies `P`, if it does not throw.
abbrev pub Returns : {A : Type 0} → (A → Type 0) → Thrown A → Type 0
Returns P (throws e) = Unit {0}
Returns P (returns a) = P a

before :
    (rest : Thrown FieldList) (f : Field)
    → Plain f.value
    → Returns FirstPlain (elim rest [ throws e ↦ throws e | returns gs ↦ returns (f ∷ gs) ])
before (throws e) f plain = tt
before (returns gs) f plain = plain

put_fields-FirstPlain :
    (df : DateFormat) (cs : List Column) (n : ℕ) (h : Heap Chars)
    → Yields (Returns FirstPlain) (put_fields df cs (replicate n fresh_field) h)
unfolding put_fields
put_fields-FirstPlain df [] zero h = tt
put_fields-FirstPlain df [] (suc n) h = inr refl
put_fields-FirstPlain df (c ∷ cs) zero h = tt
put_fields-FirstPlain df (c ∷ cs) (suc n) h =
    and_then-Yields Plain (Returns FirstPlain) (put_column df c fresh_field.value h) _
      (put_column-Plain df c h)
      (λ v plain g.
        after (Returns FirstPlain) (put_fields df cs (replicate n fresh_field) g) _
          (λ rest k. before rest (record (label c fresh_field) { value = v }) plain))

with_code :
    (r : Thrown FieldList)
    → Returns FirstPlain r
    → Returns {A = ℤ × FieldList}
        (λ r. FirstPlain r.1)
        (elim r [ throws e ↦ throws e | returns hs ↦ returns (pos 0, hs) ])
with_code (throws e) plain = tt
with_code (returns gs) plain = plain

-- The fields that output() makes from an empty list.
pub output-FirstPlain :
    (df : DateFormat) (n : ℕ) (cs : List Column) (h : Heap Chars)
    → Yields (Returns (λ r. FirstPlain r.1)) (output df n cs [] h)
unfolding output new_fld_list free_fld_list destroy_all
output-FirstPlain df n cs h = elim (Bool-cases (n == 0)) [
  | inl none_asked ↦ rw none_asked tt
  | inr e ↦ elim (Bool-cases (ltb 150 n || ltb n 1)) [
    | inl many ↦ rw (e, many) tt
    | inr fits ↦
        rw (e, fits)
          (and_then-Yields (Returns FirstPlain) (Returns (λ r. FirstPlain r.1))
            (put_fields df cs (replicate n fresh_field) h) _ (put_fields-FirstPlain df cs n h)
            (λ r plain g. with_code r plain))
  ]
]
