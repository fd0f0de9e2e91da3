-- ===== src/Mysql/Prepared/Scan.antt =====
-- What phSetSql of src/mysqlapi.cpp makes of a statement.
use dbsqlapi.Prelude.{
  ℕ, ◌+◌, ◌-◌, ◌≤◌, ◌<◌, ◌≡◌, refl, sym, ap, ◌∙◌, ◌⊎◌, inl, inr, Bool, true, false, Option, none,
  some, List, [], ◌∷◌, ◌++◌, pos, negsuc, arith, CStr, ◌||◌, ◌==◌, leb, length, replicate,
  Bool-cases,
}
use mathlib.Core.List.{append-nil}
use dbsqlapi.Mysql.Prepared.{
  Prep, system, max_data_buf_length, ends_name, scan_step, scan, phfree, ph_set_sql, no_val,
}

-- The bytes that end the name of a parameter: a comma, a space, a closing parenthesis, a semicolon.
abbrev pub separators : CStr
separators = 44 ∷ 32 ∷ 41 ∷ 59 ∷ []

abbrev pub is_one_of : CStr → ℕ → Bool
is_one_of [] c = false
is_one_of (d ∷ ds) c = (c == d) || is_one_of ds c

ends_name-separators : (c : ℕ) → ends_name c ≡ is_one_of separators c
unfolding ends_name
ends_name-separators c = ground arith

-- Text that is copied as it is, and the name of a parameter.
abbrev pub IsPlain : CStr → Type 0
IsPlain [] = Unit {0}
IsPlain (c ∷ s) = ((c == b':') ≡ false) × IsPlain s

abbrev pub IsName : CStr → Type 0
IsName [] = Unit {0}
IsName (c ∷ s) = ((c == b':') ≡ false) × (is_one_of separators c ≡ false) × IsName s

-- A parameter, the byte that ends its name, and the plain text after that.
pub record Marker : Type 0 where
  pub name : CStr
  pub sep : ℕ
  pub text : CStr

abbrev pub IsMarker : Marker → Type 0
IsMarker m = IsName m.name × (is_one_of separators m.sep ≡ true) × IsPlain m.text

abbrev pub IsTemplate : List Marker → Type 0
IsTemplate [] = Unit {0}
IsTemplate (m ∷ ms) = IsMarker m × IsTemplate ms

-- A parameter that ends the statement, if there is one.
abbrev pub IsLast : Option CStr → Type 0
IsLast none = Unit {0}
IsLast (some name) = IsName name

abbrev pub last_name : Option CStr → CStr
last_name none = []
last_name (some name) = b':' ∷ name

abbrev pub last_mark : Option CStr → CStr
last_mark none = []
last_mark (some name) = b'?' ∷ []

-- The statement with the parameters written `:name`, and with `?` for each.
abbrev pub with_names : CStr → List Marker → Option CStr → CStr
with_names before [] last = before ++ last_name last
with_names before (m ∷ ms) last = before ++ b':' ∷ (m.name ++ m.sep ∷ with_names m.text ms last)

abbrev pub with_marks : CStr → List Marker → Option CStr → CStr
with_marks before [] last = before ++ last_mark last
with_marks before (m ∷ ms) last = before ++ b'?' ∷ m.sep ∷ with_marks m.text ms last

ends_name-colon : (c : ℕ) → ends_name c ≡ true → (c == b':') ≡ false
unfolding ends_name
ends_name-colon c e = ground arith

-- The rounds of the loop: a colon, a byte that is copied, a byte of a name, and one that ends it.
scan_step-colon : (f : Bool) → scan_step f b':' ≡ (false, b'?' ∷ [])
unfolding scan_step ends_name
scan_step-colon f = refl

scan_step-copy : (c : ℕ) → (c == b':') ≡ false → scan_step true c ≡ (true, c ∷ [])
unfolding scan_step
scan_step-copy c n = elim (Bool-cases (ends_name c)) [ inl e ↦ rw (n, e) | inr e ↦ rw (n, e) ]

scan_step-skip :
    (c : ℕ) → (c == b':') ≡ false → ends_name c ≡ false → scan_step false c ≡ (false, [])
unfolding scan_step
scan_step-skip c n e = rw (n, e)

scan_step-sep : (c : ℕ) → ends_name c ≡ true → scan_step false c ≡ (true, c ∷ [])
unfolding scan_step
scan_step-sep c e = rw (ends_name-colon c e, e)

scan-plain : (s rest : CStr) → IsPlain s → scan true (s ++ rest) ≡ s ++ scan true rest
unfolding scan
scan-plain [] rest p = refl
scan-plain (c ∷ s) rest p = rw (scan_step-copy c p.0, scan-plain s rest p.1)

scan-all : (s : CStr) → IsPlain s → scan true s ≡ s
unfolding scan
scan-all s p = ap (scan true) (sym (append-nil s)) ∙ scan-plain s [] p ∙ append-nil s

scan-name : (s rest : CStr) → IsName s → scan false (s ++ rest) ≡ scan false rest
unfolding scan
scan-name [] rest p = refl
scan-name (c ∷ s) rest p =
    rw (scan_step-skip c p.0 (ends_name-separators c ∙ p.1), scan-name s rest p.2)

scan-with_names :
    (before : CStr) (ms : List Marker) (last : Option CStr)
    → IsPlain before
    → IsTemplate ms
    → IsLast last
    → scan true (with_names before ms last) ≡ with_marks before ms last
unfolding scan
scan-with_names before [] none p t e = scan-plain before [] p
scan-with_names before [] (some name) p t e =
    let skipped : scan false name ≡ [] =
      ap (scan false) (sym (append-nil name)) ∙ scan-name name [] e in
    rw (scan-plain before (b':' ∷ name) p, scan_step-colon true, skipped)
scan-with_names before (m ∷ ms) last p t e = rw (
  scan-plain before (b':' ∷ (m.name ++ m.sep ∷ with_names m.text ms last)) p,
  scan_step-colon true,
  scan-name m.name (m.sep ∷ with_names m.text ms last) t.0.0,
  scan_step-sep m.sep (ends_name-separators m.sep ∙ t.0.1),
  scan-with_names m.text ms last t.0.2 t.1 e,
)

-- A round writes no byte, or one that is no colon.
Writes : Bool × CStr → Type 0
Writes r = (r.1 ≡ []) ⊎ ((d : ℕ) × (r.1 ≡ d ∷ []) × ((d == b':') ≡ false))

scan_step-Writes : (f : Bool) (c : ℕ) → Writes (scan_step f c)
unfolding Writes
scan_step-Writes f c = elim (Bool-cases (c == b':')) [
  | inl colon ↦
      let is_colon : c ≡ b':' = ground arith in
      rw is_colon (rw (scan_step-colon f) (inr (b'?', refl, refl)))
  | inr other ↦ elim (Bool-cases f) [
    | inl copying ↦ rw (copying, scan_step-copy c other) (inr (c, refl, other))
    | inr skipping ↦ elim (Bool-cases (ends_name c)) [
      | inl sep ↦ rw (skipping, scan_step-sep c sep) (inr (c, refl, other))
      | inr name ↦ rw (skipping, scan_step-skip c other name) (inl refl)
    ]
  ]
]

-- What is written has no colon, and no more bytes than the statement.
scan-IsPlain : (f : Bool) (s : CStr) → IsPlain (scan f s)
unfolding scan Writes
scan-IsPlain f [] = tt
scan-IsPlain f (c ∷ s) = elim (scan_step-Writes f c) [
  | inl none_written ↦ rw none_written (scan-IsPlain (scan_step f c).0 s)
  | inr (d, one, other) ↦ rw one (other, scan-IsPlain (scan_step f c).0 s)
]

length-scan : (f : Bool) (s : CStr) → length (scan f s) ≤ length s
unfolding scan Writes
length-scan f [] = omega arith
length-scan f (c ∷ s) = elim (scan_step-Writes f c) [
  | inl none_written ↦ rw none_written (omega (arith, length-scan (scan_step f c).0 s))
  | inr (d, one, other) ↦ rw one (omega (arith, length-scan (scan_step f c).0 s))
]

-- The state after phSetSql has taken a statement.
abbrev pub accepted : CStr → Prep
accepted sql = record { now_operation = system; sql = sql; fld_vals = replicate 32 no_val }

ph_set_sql-scan :
    (st : Prep) (text : CStr)
    → length text < max_data_buf_length - 1
    → ph_set_sql st (some text) ≡ some (pos 0, accepted (scan true text))
unfolding ph_set_sql phfree
ph_set_sql-scan st text fits =
    let short : leb max_data_buf_length (length text) ≡ false = ground arith in
    let inside : leb max_data_buf_length (length (scan true text) + 1) ≡ false =
      ground (arith, length-scan true text) in
    let fitting : leb max_data_buf_length (length (scan true text)) ≡ false =
      ground (arith, length-scan true text) in
    rw (short, inside, fitting)

-- In a statement of fewer than 2047 bytes phSetSql replaces each `:name` by `?`, where a comma, a
-- space, a closing parenthesis, a semicolon or the end of the statement ends the name, and keeps every
-- other byte; it clears the parameters and returns 0.
pub ph_set_sql-with_names :
    (st : Prep) (before : CStr) (ms : List Marker) (last : Option CStr)
    → IsPlain before
    → IsTemplate ms
    → IsLast last
    → length (with_names before ms last) < max_data_buf_length - 1
    → ph_set_sql st (some (with_names before ms last))
      ≡ some (pos 0, accepted (with_marks before ms last))
ph_set_sql-with_names st before ms last p t e fits =
    ph_set_sql-scan st (with_names before ms last) fits
    ∙ ap (λ s. some (pos 0, accepted s)) (scan-with_names before ms last p t e)

-- Whatever the statement, if it has fewer than 2047 bytes, what phSetSql keeps of it has no colon and
-- is no longer, and giving it to phSetSql again changes nothing.
pub ph_set_sql-twice :
    (st : Prep) (text : CStr)
    → length text < max_data_buf_length - 1
    → (st' : Prep) × (ph_set_sql st (some text) ≡ some (pos 0, st'))
      × IsPlain st'.sql
      × (length st'.sql ≤ length text)
      × (ph_set_sql st' (some st'.sql) ≡ some (pos 0, st'))
ph_set_sql-twice st text fits =
    let plain = scan-IsPlain true text in
    let shorter = length-scan true text in
    (
      accepted (scan true text),
      ph_set_sql-scan st text fits,
      plain,
      shorter,
      ph_set_sql-scan (accepted (scan true text)) (scan true text) (omega (arith, shorter))
          ∙ ap (λ s. some (pos 0, accepted s)) (scan-all (scan true text) plain),
    )

-- A statement of 2048 bytes or more is refused with -1 and changes nothing; one of exactly 2047 bytes
-- without a colon makes phSetSql write outside its array.
pub ph_set_sql_limits :
    (st : Prep) (long text : CStr)
    → max_data_buf_length ≤ length long
    → IsPlain text
    → length text ≡ max_data_buf_length - 1
    → (ph_set_sql st (some long) ≡ some (negsuc 0, st)) × (ph_set_sql st (some text) ≡ none)
unfolding ph_set_sql
ph_set_sql_limits st long text l p n =
    let refused : leb max_data_buf_length (length long) ≡ true = ground arith in
    let short : leb max_data_buf_length (length text) ≡ false = ground arith in
    let same : scan true text ≡ text = scan-all text p in
    let outside : leb max_data_buf_length (length text + 1) ≡ true = ground arith in
    let some_bytes : (length text == 0) ≡ false = ground arith in
    (rw refused, rw (short, same, outside, some_bytes))
