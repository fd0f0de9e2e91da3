-- ===== src/Mysql/Output/Dates.antt =====
-- What can be read from the texts of date_format (src/mysqlapi.cpp).
use dbsqlapi.Prelude.{
  ℕ, suc, ◌+◌, ◌-◌, ◌*◌, ◌/◌, ◌%◌, ◌<◌, ◌≡◌, refl, ap, ◌∙◌, false, some, [], ◌∷◌, ◌++◌, CStr, pos,
  arith, ltb, take, drop, Bool-cases, inl, inr,
}
use dbsqlapi.Mysql.Api.{default_date, chinese_datetime}
use dbsqlapi.Mysql.Output.{digits, padded, print_d, MysqlTime, date_text, date_format}

-- The number that decimal digits stand for.
abbrev pub number : ℕ → CStr → ℕ
number n [] = n
number n (c ∷ cs) = number (n * 10 + (c - 48)) cs

-- The number at a position.
abbrev pub number_at : ℕ → ℕ → CStr → ℕ
number_at from len text = number 0 (take len (drop from text))

abbrev two_of : ℕ → CStr
two_of x = (48 + x / 10) ∷ (48 + x % 10) ∷ []

abbrev four_of : ℕ → CStr
four_of x = (48 + x / 1000) ∷ (48 + x / 100 % 10) ∷ (48 + x / 10 % 10) ∷ (48 + x % 10) ∷ []

digits_one : (n x : ℕ) → x < 10 → digits (suc n) x ≡ (48 + x) ∷ []
unfolding digits
digits_one n x h = ground arith

digits_more :
    (n x : ℕ) → ltb x 10 ≡ false → digits (suc n) x ≡ digits n (x / 10) ++ (48 + x % 10) ∷ []
unfolding digits
digits_more n x h = rw h

digits_two :
    (n x : ℕ)
    → ltb x 10 ≡ false
    → x < 100
    → digits (suc (suc n)) x ≡ (48 + x / 10) ∷ (48 + x % 10) ∷ []
digits_two n x h lt = digits_more (suc n) x h ∙ rw (digits_one n (x / 10) (omega arith))

digits_three :
    (n x : ℕ)
    → ltb x 10 ≡ false
    → ltb (x / 10) 10 ≡ false
    → x < 1000
    → digits (suc (suc (suc n))) x ≡ (48 + x / 10 / 10) ∷ (48 + x / 10 % 10) ∷ (48 + x % 10) ∷ []
digits_three n x h k lt = digits_more (suc (suc n)) x h ∙ rw (digits_two n (x / 10) k (omega arith))

digits_four :
    (n x : ℕ)
    → ltb x 10 ≡ false
    → ltb (x / 10) 10 ≡ false
    → ltb (x / 10 / 10) 10 ≡ false
    → x < 10000
    → digits (suc (suc (suc (suc n)))) x
      ≡ (48 + x / 10 / 10 / 10) ∷ (48 + x / 10 / 10 % 10) ∷ (48 + x / 10 % 10) ∷ (48 + x % 10) ∷ []
digits_four n x h k j lt =
    digits_more (suc (suc (suc n))) x h ∙ rw (digits_three n (x / 10) k j (omega arith))

print_small : (w x : ℕ) → x < 2147483648 → print_d w x ≡ padded w (digits 10 x)
unfolding print_d
print_small w x h = ground arith

cons-eq : {a b : ℕ} {xs ys : CStr} → a ≡ b → xs ≡ ys → a ∷ xs ≡ b ∷ ys
cons-eq e h = cc

print_two : (x : ℕ) → x < 100 → print_d 2 x ≡ two_of x
unfolding padded
print_two x lt = elim (Bool-cases (ltb x 10)) [
  | inl small ↦
      print_small 2 x (omega arith)
      ∙ ap (padded 2) (digits_one 9 x (ground arith))
      ∙ cons-eq (ground arith) (cons-eq (ground arith) refl)
  | inr more ↦ print_small 2 x (omega arith) ∙ ap (padded 2) (digits_two 8 x more lt)
]

print_four : (x : ℕ) → x < 10000 → print_d 4 x ≡ four_of x
unfolding padded
print_four x lt = elim (Bool-cases (ltb x 10)) [
  | inl one ↦
      print_small 4 x (omega arith)
      ∙ ap (padded 4) (digits_one 9 x (ground arith))
      ∙ cons-eq (ground arith)
          (cons-eq (ground arith) (cons-eq (ground arith) (cons-eq (ground arith) refl)))
  | inr more ↦ elim (Bool-cases (ltb (x / 10) 10)) [
    | inl two ↦
        print_small 4 x (omega arith)
        ∙ ap (padded 4) (digits_two 8 x more (ground arith))
        ∙ cons-eq (ground arith)
            (cons-eq (ground arith) (cons-eq (ground arith) (cons-eq (ground arith) refl)))
    | inr more_still ↦ elim (Bool-cases (ltb (x / 10 / 10) 10)) [
      | inl three ↦
          print_small 4 x (omega arith)
          ∙ ap (padded 4) (digits_three 7 x more more_still (ground arith))
          ∙ cons-eq (ground arith) (cons-eq (ground arith) (cons-eq refl refl))
      | inr all ↦
          print_small 4 x (omega arith)
          ∙ ap (padded 4) (digits_four 6 x more more_still all lt)
          ∙ cons-eq (omega arith) (cons-eq (omega arith) refl)
    ]
  ]
]

-- The members have the digits that the formats leave room for.
pub record InRange (t : MysqlTime) : Type 0 where
  pub year : t.year < 10000
  pub month : t.month < 100
  pub day : t.day < 100
  pub hour : t.hour < 100
  pub minute : t.minute < 100
  pub second : t.second < 100

number_two : (x : ℕ) → x < 100 → number 0 (two_of x) ≡ x
number_two x lt = omega arith

number_four : (x : ℕ) → x < 10000 → number 0 (four_of x) ≡ x
number_four x lt = omega arith

-- The members that a text has, with its parts at these positions.
abbrev pub reads : CStr → ℕ → ℕ → ℕ → ℕ → ℕ → MysqlTime
reads text month day hour minute second = record {
  year = number_at 0 4 text;
  month = number_at month 2 text;
  day = number_at day 2 text;
  hour = number_at hour 2 text;
  minute = number_at minute 2 text;
  second = number_at second 2 text;
}

-- date_format writes a date and time whose members have the digits for it so that they can be read again: a
-- buffer of 64 bytes holds all of it, and each member stands at its place, for the default format, which is
-- printed as YYYYMMDDHHMMSS although the comment at src/dbcomm.h:5 documents it as dd-mon-yy, and for
-- chinese_datetime.
pub date_format-reads :
    (t : MysqlTime)
    → InRange t
    → ((text : CStr) × (date_format 64 default_date (some t) ≡ (pos 0, some text))
        × (reads text 4 6 8 10 12 ≡ t))
      × ((text : CStr) × (date_format 64 chinese_datetime (some t) ≡ (pos 0, some text))
          × (reads text 5 8 11 14 17 ≡ t))
unfolding date_format date_text
date_format-reads t r =
    let same : ◌≡◌ {A = MysqlTime}
        (record {
          year = number 0 (four_of t.year);
          month = number 0 (two_of t.month);
          day = number 0 (two_of t.day);
          hour = number 0 (two_of t.hour);
          minute = number 0 (two_of t.minute);
          second = number 0 (two_of t.second);
        })
        t =
      rw (
        number_four t.year r.year,
        number_two t.month r.month,
        number_two t.day r.day,
        number_two t.hour r.hour,
        number_two t.minute r.minute,
        number_two t.second r.second,
      ) in
    let year = print_four t.year r.year in
    let month = print_two t.month r.month in
    let day = print_two t.day r.day in
    let hour = print_two t.hour r.hour in
    let minute = print_two t.minute r.minute in
    let second = print_two t.second r.second in
    (
      (
        four_of t.year
            ++ (two_of t.month
                ++ (two_of t.day ++ (two_of t.hour ++ (two_of t.minute ++ two_of t.second)))),
        rw (year, month, day, hour, minute, second),
        same,
      ),
      (
        four_of t.year
            ++ (b'-'
                ∷ (two_of t.month
                    ++ (b'-'
                        ∷ (two_of t.day
                            ++ (b' '
                                ∷ (two_of t.hour
                                    ++ (b':' ∷ (two_of t.minute ++ (b':' ∷ two_of t.second))))))))),
        rw (year, month, day, hour, minute, second),
        same,
      ),
    )
