-- ===== src/Mysql/Prepared/Params.antt =====
-- The parameters of a prepared statement of src/mysqlapi.cpp: phSetParm and its wrappers, and what the
-- loop of phExecute makes of them.
use mathlib.Core.List.{append_assoc, append-nil}
use dbsqlapi.Prelude.{
  ℕ, zero, suc, ◌+◌, ◌-◌, ◌≤◌, ◌<◌, ◌≡◌, ◌≢◌, refl, sym, ap, ◌∙◌, true, false, Option, none, some,
  List, [], ◌∷◌, ◌++◌, map, ℤ, pos, negsuc, arith, CStr, ltb, length, get_elem?, set, replicate,
  length-append, length-set, get_elem?-set_self, get_elem?-set_ne,
}
use dbsqlapi.Heap.{Ptr, null}
use dbsqlapi.Heap.Rules.{ne_null}
use dbsqlapi.Value.{DataType, sql_int}
use dbsqlapi.Mysql.Prepared.{
  Prep, FldVal, statement, no_val, filled, ph_set_parm, ph_set_int, bind_long, bind_loop,
}
use dbsqlapi.Mysql.Prepared.Scan.{accepted}

get_elem?-some-lt :
    (xs : List FldVal) (n : ℕ) (v : FldVal) → get_elem? xs n ≡ some v → n < length xs
get_elem?-some-lt [] n v e = cc
get_elem?-some-lt (x ∷ xs) zero v e = omega arith
get_elem?-some-lt (x ∷ xs) (suc n) v e = omega (arith, get_elem?-some-lt xs n v e)

get_elem?-length : (xs : List FldVal) (n : ℕ) → length xs ≤ n → get_elem? xs n ≡ none
get_elem?-length [] n h = refl
get_elem?-length (x ∷ xs) zero h = absurd (omega arith)
get_elem?-length (x ∷ xs) (suc n) h = get_elem?-length xs n (omega arith)

-- phSetParm below 32 sets that element and no other, keeps the statement, and returns 0.
pub ph_set_parm-set :
    (st : Prep) (n : ℕ) (d_type : DataType) (p : Ptr) (len : ℕ) (v : FldVal)
    → p ≢ null
    → n < 32
    → get_elem? st.fld_vals n ≡ some v
    → (st' : Prep) × (ph_set_parm st n d_type p len ≡ some (pos 0, st'))
      × (st'.fld_vals ≡ set st.fld_vals n (filled v d_type p len))
      × (get_elem? st'.fld_vals n ≡ some (filled v d_type p len))
      × (length st'.fld_vals ≡ length st.fld_vals)
      × (st'.sql ≡ st.sql)
      × ((m : ℕ) → n ≢ m → get_elem? st'.fld_vals m ≡ get_elem? st.fld_vals m)
unfolding ph_set_parm
ph_set_parm-set st n d_type p len v ne lt at =
    let inside : ltb 32 n ≡ false = ground arith in
    (
      record {
        now_operation = statement;
        sql = st.sql;
        fld_vals = set st.fld_vals n (filled v d_type p len);
      },
      rw (ne_null p ne, inside, at),
      refl,
      get_elem?-set_self st.fld_vals n (filled v d_type p len)
          (get_elem?-some-lt st.fld_vals n v at),
      length-set st.fld_vals n (filled v d_type p len),
      refl,
      λ m other. get_elem?-set_ne st.fld_vals (filled v d_type p len) other,
    )

-- With 32 elements, index 32 makes phSetParm write behind the array; a larger index, and a NULL value,
-- are refused with -1 and change no parameter.
pub ph_set_parm_range :
    (st : Prep) (n : ℕ) (d_type : DataType) (p : Ptr) (len : ℕ)
    → length st.fld_vals ≡ 32
    → p ≢ null
    → 32 < n
    → (ph_set_parm st 32 d_type p len ≡ none)
      × (ph_set_parm st n d_type p len ≡ some (negsuc 0, record st { now_operation = statement }))
      × (ph_set_parm st n d_type null len
          ≡ some (negsuc 0, record st { now_operation = statement }))
unfolding ph_set_parm
ph_set_parm_range st n d_type p len size ne lt =
    let outside : ltb 32 n ≡ true = ground arith in
    (
      rw (ne_null p ne, get_elem?-length st.fld_vals 32 (omega arith)),
      rw (ne_null p ne, outside),
      refl,
    )

-- phSetInt for one pointer after another, from number `n` on.
pub set_ints : ℕ → List Ptr → Prep → Option (ℤ × Prep)
set_ints n [] st = some (pos 0, st)
set_ints n (p ∷ ps) st = elim (ph_set_int st n p) [
  | none ↦ none
  | some (r, st') ↦ set_ints (suc n) ps st'
]

abbrev int_val : Ptr → FldVal
int_val p = record { data_type = sql_int; len = 0; data_len = 0; data_ptr = p }

abbrev pub NotNull : List Ptr → Type 0
NotNull [] = Unit {0}
NotNull (p ∷ ps) = (p ≢ null) × NotNull ps

set-append : (xs ys : List FldVal) (v w : FldVal) → set (xs ++ v ∷ ys) (length xs) w ≡ xs ++ w ∷ ys
set-append [] ys v w = refl
set-append (x ∷ xs) ys v w = ap (◌∷◌ x) (set-append xs ys v w)

get_elem?-append :
    (xs ys : List FldVal) (v : FldVal) → get_elem? (xs ++ v ∷ ys) (length xs) ≡ some v
get_elem?-append [] ys v = refl
get_elem?-append (x ∷ xs) ys v = get_elem?-append xs ys v

bind_loop-ints :
    (ps : List Ptr) (k : ℕ)
    → NotNull ps
    → bind_loop (map int_val ps ++ replicate k no_val) ≡ some (map bind_long ps)
unfolding bind_loop
bind_loop-ints [] zero ne = refl
bind_loop-ints [] (suc k) ne = refl
bind_loop-ints (p ∷ ps) k ne = rw (ne_null p ne.0, bind_loop-ints ps k ne.1)

length-map : (ps : List Ptr) → length (map int_val ps) ≡ length ps
length-map [] = refl
length-map (p ∷ ps) = ap suc (length-map ps)

map-snoc : (ps : List Ptr) (p : Ptr) → map int_val (ps ++ p ∷ []) ≡ map int_val ps ++ int_val p ∷ []
map-snoc [] p = refl
map-snoc (q ∷ ps) p = ap (◌∷◌ (int_val q)) (map-snoc ps p)

-- The elements that are set, before `m` that are not.
abbrev IsFilled : List Ptr → ℕ → Prep → Type 0
IsFilled ps m st = st.fld_vals ≡ map int_val ps ++ replicate m no_val

ph_set_int-IsFilled :
    (done : List Ptr) (p : Ptr) (n m : ℕ) (st : Prep)
    → n ≡ suc (length done)
    → p ≢ null
    → length done < 32
    → IsFilled done (suc m) st
    → (st' : Prep) × (ph_set_int st n p ≡ some (pos 0, st'))
      × IsFilled (done ++ p ∷ []) m st'
      × (st'.sql ≡ st.sql)
unfolding ph_set_int
ph_set_int-IsFilled done p n m st c ne lt e =
    let at : get_elem? st.fld_vals (length done) ≡ some no_val =
      rw (e, ← length-map done) (get_elem?-append (map int_val done) (replicate m no_val) no_val) in
    let (st', run, stored, _, _, same, _) =
      ph_set_parm-set st (length done) sql_int p 0 no_val ne lt at in
    let moved : set st.fld_vals (length done) (int_val p)
        ≡ map int_val done ++ int_val p ∷ replicate m no_val =
      rw (e, ← length-map done)
        (set-append (map int_val done) (replicate m no_val) no_val (int_val p)) in
    let grouped : map int_val (done ++ p ∷ []) ++ replicate m no_val
        ≡ map int_val done ++ int_val p ∷ replicate m no_val =
      rw (map-snoc done p)
        (append_assoc (map int_val done) (int_val p ∷ []) (replicate m no_val)) in
    let called : ph_set_int st n p ≡ some (pos 0, st') = ap (λ j. ph_set_int st j p) c ∙ run in
    (st', called, stored ∙ moved ∙ sym grouped, same)

set_ints-step :
    (n : ℕ) (p : Ptr) (ps : List Ptr) (st st' : Prep)
    → ph_set_int st n p ≡ some (pos 0, st')
    → set_ints n (p ∷ ps) st ≡ set_ints (suc n) ps st'
unfolding set_ints
set_ints-step n p ps st st' e = rw (set_ints, e)

set_ints-IsFilled :
    (done ps : List Ptr) (n m k : ℕ) (st : Prep)
    → NotNull ps
    → n ≡ suc (length done)
    → length done + length ps ≤ 32
    → m ≡ length ps + k
    → IsFilled done m st
    → (st' : Prep) × (set_ints n ps st ≡ some (pos 0, st'))
      × IsFilled (done ++ ps) k st'
      × (st'.sql ≡ st.sql)
unfolding set_ints
set_ints-IsFilled done [] n m k st ne at fits c e =
    let same : m ≡ k = omega arith in (st, refl, rw (append-nil done, ← same) e, refl)
set_ints-IsFilled done (p ∷ ps) n zero k st ne at fits c e = absurd (omega arith)
set_ints-IsFilled done (p ∷ ps) n (suc m) k st ne at fits c e =
    let (st1, run, e1, same1) = ph_set_int-IsFilled done p n m st at ne.0 (omega arith) e in
    let longer : length (done ++ p ∷ []) ≡ suc (length done) =
      omega (arith, length-append done (p ∷ [])) in
    let (st2, run2, e2, same2) =
      set_ints-IsFilled (done ++ p ∷ []) ps (suc n) m k st1 ne.1 (omega (arith, longer))
        (omega (arith, longer)) (omega arith) e1 in
    let grouped : map int_val ((done ++ p ∷ []) ++ ps) ≡ map int_val (done ++ p ∷ ps) =
      ap (map int_val) (append_assoc done (p ∷ []) ps) in
    (
      st2,
      set_ints-step n p ps st st1 run ∙ run2,
      e2 ∙ ap (λ vs. vs ++ replicate k no_val) grouped,
      same2 ∙ same1,
    )

-- On the state that phSetSql leaves, phSetInt for at most 32 pointers that are not NULL, numbered
-- from 1, succeeds each time, keeps the statement, and leaves the loop of phExecute to bind
-- exactly these pointers in order.
pub set_ints-bind_loop :
    (sql : CStr) (ps : List Ptr)
    → NotNull ps
    → length ps ≤ 32
    → (st : Prep) × (set_ints 1 ps (accepted sql) ≡ some (pos 0, st))
      × (st.sql ≡ sql)
      × (bind_loop st.fld_vals ≡ some (map bind_long ps))
set_ints-bind_loop sql ps ne fits =
    let (st, run, e, same) =
      set_ints-IsFilled [] ps 1 32 (32 - length ps) (accepted sql) ne refl (omega arith)
        (omega arith) refl in
    (st, run, same, rw e (bind_loop-ints ps (32 - length ps) ne))
