-- ===== src/Mysql/Output/SysDate.antt =====
-- src/mysqlapi.cpp: mysqlapi::getSysDate, and what it can return.
use dbsqlapi.Prelude.{
  ◌≡◌, refl, inl, inr, Bool, true, false, not, Option, none, some, List, [], ◌∷◌, CStr, codes, ℤ,
  pos, negsuc, is_neg, subst, if◌then◌else◌, length, take,
}
use dbsqlapi.Heap.{
  Ptr, null, Heap, Run, Cmd, ok, fault, pure, ◌>>=◌, ◌>>◌, when◌run◌otherwise◌, load,
}
use dbsqlapi.Errors.{Thrown, returns, throws}
use dbsqlapi.Value.{is_null, as_string}
use dbsqlapi.Value.Arrays.{Chars, strlen}
use dbsqlapi.Fields.{Field, FieldList, at_num, destroy_all}
use dbsqlapi.Mysql.Client.{Client}
use dbsqlapi.Mysql.Cursor.{Column}
use dbsqlapi.Mysql.Prepared.{statement}
use dbsqlapi.Mysql.Api.{Api, DateFormat, set_operation}
use dbsqlapi.Mysql.Api.Statements.{get_rec}
use dbsqlapi.Mysql.Output.Plain.{
  Yields, and_then-Yields, after, choose, Plain, FirstPlain, Returns, output-FirstPlain,
}
use dbsqlapi.Mysql.Output.{output}

-- The bytes that strcpy reads.
unfoldable pub read_text : Ptr → Cmd Chars CStr
unfolding load strlen
read_text p = do n ← strlen p; cs ← load p; pure (take n cs)

-- What getSysDate does with the first field, and the end of `my_list`. The second component is what is
-- copied to the caller.
unfoldable pub date_of : FieldList → Field → Cmd Chars (Thrown (ℤ × Option CStr))
unfolding read_text destroy_all is_null as_string
date_of fs f =
    when not (is_null f.value)
    run (do destroy_all fs; pure (returns (negsuc 0, none)))
    otherwise (do
      text ← read_text (as_string f.value)
      destroy_all fs
      pure (returns (pos 0, some text)))

-- `my_list[iPos]`
unfoldable pub from_fields : Thrown (ℤ × FieldList) → Cmd Chars (Thrown (ℤ × Option CStr))
unfolding at_num date_of
from_fields made = elim made [
  | throws e ↦ pure (throws e)
  | returns (r, fs) ↦ elim (at_num fs 0) [ throws e ↦ pure (throws e) | returns f ↦ date_of fs f ]
]

unfoldable pub sys_date_of : DateFormat → List Column → Cmd Chars (Thrown (ℤ × Option CStr))
unfolding output from_fields
sys_date_of df cs = do made ← output df (length cs) cs []; from_fields made

-- The row that getRec has left in the cursor.
abbrev columns_of : Option (List Column) → List Column
columns_of none = []
columns_of (some cs) = cs

-- `has_place` says that pcSysdate is not NULL.
unfoldable pub get_sys_date :
    Client → Bool → Api → Heap Chars → Run Chars (Thrown (ℤ × Option CStr)) × Api
unfolding set_operation get_rec sys_date_of
get_sys_date client has_place a h =
    let a1 = (set_operation statement a).1 in
    let r = get_rec client (codes "select now()") a1 in
    if not has_place
    then (ok (returns (negsuc 0, none)) h, a1)
    else if is_neg r.0.0
    then (ok (returns (negsuc 0, none)) h, r.1)
    else (sys_date_of r.1.date_format (columns_of r.0.1) h, r.1)

-- -1, and nothing is copied.
abbrev Declined : Thrown (ℤ × Option CStr) → Type 0
Declined = Returns (λ r. r ≡ (negsuc 0, none))

-- There is no text at NULL.
read_null : (p : Ptr) (h : Heap Chars) → p ≡ null → read_text p h ≡ fault
unfolding read_text strlen load
read_null p h e = rw e

date_of-Declined :
    (fs : FieldList) (f : Field) (h : Heap Chars) → Plain f.value → Yields Declined (date_of fs f h)
unfolding date_of is_null as_string
date_of-Declined fs f h (inl live) = rw live (after Declined (destroy_all fs h) _ (λ _ g. refl))
date_of-Declined fs f h (inr no_array) =
    choose Declined (not (is_null f.value)) (do destroy_all fs; pure (returns (negsuc 0, none)))
      (do text ← read_text (as_string f.value); destroy_all fs; pure (returns (pos 0, some text))) h
      (after Declined (destroy_all fs h) _ (λ _ g. refl))
      (rw (read_null f.value.word h no_array) tt)

from_fields-Declined :
    (made : Thrown (ℤ × FieldList)) (h : Heap Chars)
    → Returns (λ r. FirstPlain r.1) made
    → Yields Declined (from_fields made h)
unfolding from_fields at_num
from_fields-Declined (throws e) h plain = tt
from_fields-Declined (returns (r, [])) h plain = tt
from_fields-Declined (returns (r, f ∷ fs)) h plain = date_of-Declined (f ∷ fs) f h plain

sys_date_of-Declined :
    (df : DateFormat) (cs : List Column) (h : Heap Chars) → Yields Declined (sys_date_of df cs h)
unfolding sys_date_of
sys_date_of-Declined df cs h =
    and_then-Yields (Returns (λ r. FirstPlain r.1)) Declined (output df (length cs) cs [] h)
      from_fields (output-FirstPlain df (length cs) cs h)
      (λ made plain g. from_fields-Declined made g plain)

unless_failed :
    (failed : Bool) (a : Api) (h : Heap Chars) (r : Run Chars (Thrown (ℤ × Option CStr)))
    → Yields Declined r
    → Yields Declined
        (if◌then◌else◌ {A = Run Chars (Thrown (ℤ × Option CStr)) × Api} failed
          (ok (returns (negsuc 0, none)) h, a)
          (r, a)).0
unless_failed true a h r y = refl
unless_failed false a h r y = y

get_sys_date-Declined :
    (client : Client) (has_place : Bool) (a : Api) (h : Heap Chars)
    → Yields Declined (get_sys_date client has_place a h).0
unfolding get_sys_date
get_sys_date-Declined client false a h = refl
get_sys_date-Declined client true a h =
    let r = get_rec client (codes "select now()") (set_operation statement a).1 in
    let cs = columns_of r.0.1 in
    unless_failed (is_neg r.0.0) r.1 h (sys_date_of r.1.date_format cs h)
      (sys_date_of-Declined r.1.date_format cs h)

-- getSysDate returns -1 and copies nothing whenever it returns, whatever the server answers: it goes on to the
-- copy only if the field is NULL, and then there is no text to copy.
pub get_sys_date_declines :
    (client : Client) (has_place : Bool) (a : Api) (h : Heap Chars) (r : ℤ × Option CStr)
    (g : Heap Chars)
    → (get_sys_date client has_place a h).0 ≡ ok (returns r) g
    → r ≡ (negsuc 0, none)
get_sys_date_declines client has_place a h r g e =
    subst (Yields Declined) e (get_sys_date-Declined client has_place a h)
