-- ===== src/NameValue/Entries.antt =====
-- What a list of src/namevalue.cpp stands for: its entries in order, each with the address of its
-- node, and what the operations do to them.
use dbsqlapi.Prelude.{
  ◌≡◌, refl, Bool, false, ◌||◌, Option, none, some, List, [], ◌∷◌, ◌++◌, ℤ, arith, CStr, ◌==◌,
  str_eq, if◌then◌else◌,
}
use dbsqlapi.Heap.{Ptr, null}

pub record Entry : Type 0 where
  pub name : CStr
  pub value : Option CStr
  pub data_type : ℤ

abbrev pub Cells : Type 0
Cells = List (Ptr × Entry)

abbrev pub entries : Cells → List Entry
entries [] = []
entries ((p, e) ∷ xs) = e ∷ entries xs

abbrev pub head_of : Cells → Ptr
head_of [] = null
head_of ((p, e) ∷ xs) = p

abbrev pub last_from : Ptr → Cells → Ptr
last_from p [] = p
last_from p ((q, e) ∷ xs) = last_from q xs

abbrev pub last_of : Cells → Ptr
last_of xs = last_from null xs

abbrev pub has : Ptr → Cells → Bool
has a [] = false
has a ((p, e) ∷ xs) = (a == p) || has a xs

-- The first entry of that name.
abbrev pub find_entry : CStr → Cells → Option (Ptr × Entry)
find_entry name [] = none
find_entry name ((p, e) ∷ xs) = if str_eq e.name name then some (p, e) else find_entry name xs

abbrev pub addr_of : Option (Ptr × Entry) → Ptr
addr_of none = null
addr_of (some (p, e)) = p

-- The first entry of that name gets the value.
abbrev pub set_value : CStr → Option CStr → List Entry → List Entry
set_value name v [] = []
set_value name v (e ∷ es) =
    if str_eq e.name name then record e { value = v } ∷ es else e ∷ set_value name v es

abbrev pub set_cell : CStr → Option CStr → Cells → Cells
set_cell name v [] = []
set_cell name v ((p, e) ∷ xs) =
    if str_eq e.name name then (p, record e { value = v }) ∷ xs else (p, e) ∷ set_cell name v xs

pub entries-set_cell :
    (name : CStr) (v : Option CStr) (xs : Cells)
    → entries (set_cell name v xs) ≡ set_value name v (entries xs)
entries-set_cell name v [] = refl
entries-set_cell name v ((p, e) ∷ xs) = ground (arith, entries-set_cell name v xs)

pub entries-append : (xs ys : Cells) → entries (xs ++ ys) ≡ entries xs ++ entries ys
entries-append [] ys = refl
entries-append ((p, e) ∷ xs) ys = rw (entries-append xs ys)

pub has-append : (a : Ptr) (xs ys : Cells) → has a (xs ++ ys) ≡ (has a xs || has a ys)
has-append a [] ys = refl
has-append a ((p, e) ∷ xs) ys = ground (arith, has-append a xs ys)

pub has-set_cell :
    (a : Ptr) (name : CStr) (v : Option CStr) (xs : Cells) → has a (set_cell name v xs) ≡ has a xs
has-set_cell a name v [] = refl
has-set_cell a name v ((p, e) ∷ xs) = ground (arith, has-set_cell a name v xs)
