-- ===== src/StrUtils/Trim.antt =====
-- What trimming leaves of a string (src/dbpub.cpp).
use mathlib.Core.Option
use dbsqlapi.Prelude.{
  ℕ, zero, suc, ◌-◌, ◌≤◌, ◌<◌, ◌≡◌, refl, ◌⊎◌, sym, ◌∙◌, inl, inr, true, false, some, [], ◌∷◌,
  arith, CStr, ◌==◌, length, get_or, take, drop, take-all, get_or-take, get_or-drop, length-take,
  length-drop, Bool-cases,
}
use dbsqlapi.StrUtils.{is_blank, ltrim, ltrim_steps, rtrim_len, trim, rtrim, text_at}

rtrim_len-le : (s : CStr) (n : ℕ) → rtrim_len s n ≤ n
unfolding rtrim_len
rtrim_len-le s zero = omega arith
rtrim_len-le s (suc n) = ground (arith, rtrim_len-le s n)

-- Between the new end and the old one there are only blanks.
rtrim_len-blank : (s : CStr) (n i : ℕ) → rtrim_len s n ≤ i → i < n → is_blank (get_or s i 0) ≡ true
unfolding rtrim_len
rtrim_len-blank s zero i h k = absurd (omega arith)
rtrim_len-blank s (suc n) i h k = ground (arith, rtrim_len-blank s n i)

rtrim_len-end :
    (s : CStr) (n : ℕ) → (rtrim_len s n ≡ 0) ⊎ (is_blank (get_or s (rtrim_len s n - 1) 0) ≡ false)
unfolding rtrim_len
rtrim_len-end s zero = inl refl
rtrim_len-end s (suc n) = ground (arith, rtrim_len-end s n)

ltrim_steps-le : (s : CStr) → ltrim_steps s ≤ length s
unfolding ltrim_steps
ltrim_steps-le [] = omega arith
ltrim_steps-le (c ∷ s) = ground (arith, ltrim_steps-le s)

ltrim_steps-space : (s : CStr) (i : ℕ) → i < ltrim_steps s → get_or s i 0 ≡ b' '
unfolding ltrim_steps
ltrim_steps-space [] i h = absurd (omega arith)
ltrim_steps-space (c ∷ s) zero h = ground arith
ltrim_steps-space (c ∷ s) (suc i) h = ground (arith, ltrim_steps-space s i)

ltrim_steps-stop : (s : CStr) → (get_or s (ltrim_steps s) 0 == b' ') ≡ false
unfolding ltrim_steps
ltrim_steps-stop [] = refl
ltrim_steps-stop (c ∷ s) = ground (arith, ltrim_steps-stop s)

-- The bytes from `k` up to `n` are what trimming leaves of `s`: before `k` there are only spaces,
-- from `n` on only blanks, and neither goes on further.
pub record Trims (s : CStr) (k n : ℕ) : Type 0 where
  pub order : k ≤ n
  pub within : n ≤ length s
  pub left : (i : ℕ) → i < k → get_or s i 0 ≡ b' '
  pub first : ((get_or s k 0 == b' ') ≡ false) ⊎ (k ≡ n)
  pub right : (i : ℕ) → n ≤ i → i < length s → is_blank (get_or s i 0) ≡ true
  pub last : (n ≡ 0) ⊎ (is_blank (get_or s (n - 1) 0) ≡ false)

-- `trim` is `rtrim`, then `ltrim` on what `rtrim` left.
pub trim-rtrim :
    (s : CStr) → trim (some s) ≡ Option.map (λ k. (rtrim s, k)) (ltrim (some (rtrim s)))
unfolding trim rtrim ltrim
trim-rtrim s = elim (Bool-cases (rtrim_len s (length s) == length s)) [
  | inl e ↦ rw (e, take-all (rtrim_len s (length s)) s (ground arith))
  | inr e ↦ rw e
]

trim_eq :
    (s : CStr)
    → let n = rtrim_len s (length s) in trim (some s) ≡ some (take n s, ltrim_steps (take n s))
unfolding rtrim ltrim
trim_eq s = trim-rtrim s

-- `trim` keeps the bytes from the first that is no space up to the last that is no blank.
pub trim-Trims : (s : CStr) → (n : ℕ) × (k : ℕ) × (trim (some s) ≡ some (take n s, k)) × Trims s k n
trim-Trims s = (
  n,
  k,
  trim_eq s,
  record {
    order = order;
    within = within;
    left =
        λ i h. sym (get_or-take n i s 0 (omega (arith, order))) ∙ ltrim_steps-space (take n s) i h;
    first = first;
    right = λ i h j. rtrim_len-blank s (length s) i h j;
    last = rtrim_len-end s (length s);
  },
)
  where
    n : ℕ
    n = rtrim_len s (length s)

    k : ℕ
    k = ltrim_steps (take n s)

    within : n ≤ length s
    within = rtrim_len-le s (length s)

    order : k ≤ n
    order = omega (arith, ltrim_steps-le (take n s), length-take n s)

    first : ((get_or s k 0 == b' ') ≡ false) ⊎ (k ≡ n)
    first = ground (arith, order, ltrim_steps-stop (take n s), get_or-take n k s 0)

rtrim_len_fixed :
    (s : CStr) (n : ℕ) → (n ≡ 0) ⊎ (is_blank (get_or s (n - 1) 0) ≡ false) → rtrim_len s n ≡ n
unfolding rtrim_len
rtrim_len_fixed s zero h = refl
rtrim_len_fixed s (suc n) h = ground arith

ltrim_steps_fixed : (s : CStr) → (get_or s 0 0 == b' ') ≡ false → ltrim_steps s ≡ 0
unfolding ltrim_steps
ltrim_steps_fixed [] h = refl
ltrim_steps_fixed (c ∷ s) h = rw h

trim_fixed :
    (r : CStr)
    → (length r ≡ 0) ⊎ (is_blank (get_or r (length r - 1) 0) ≡ false)
    → (get_or r 0 0 == b' ') ≡ false
    → trim (some r) ≡ some (r, 0)
trim_fixed r last first =
    trim_eq r
    ∙ rw (
      rtrim_len_fixed r (length r) last,
      take-all (length r) r (omega arith),
      ltrim_steps_fixed r first,
    )

module _ (s : CStr) where
  abbrev stop : ℕ
  stop = rtrim_len s (length s)

  abbrev start : ℕ
  start = ltrim_steps (take stop s)

  abbrev kept : CStr
  kept = drop start (take stop s)

  length-kept : length kept ≡ stop - start
  length-kept =
      omega (arith, length-drop start (take stop s), length-take stop s, rtrim_len-le s (length s))

  kept_last : (length kept ≡ 0) ⊎ (is_blank (get_or kept (length kept - 1) 0) ≡ false)
  kept_last = ground (
    arith,
    length-kept,
    rtrim_len-end s (length s),
    get_or-drop start (length kept - 1) (stop - 1) (take stop s) 0,
    get_or-take stop (stop - 1) s 0,
  )

  kept_first : (get_or kept 0 0 == b' ') ≡ false
  kept_first =
      rw (get_or-drop start 0 start (take stop s) 0 (omega arith)) (ltrim_steps-stop (take stop s))

  -- Trimming a trimmed text changes nothing.
  pub trim-trim :
      (t : CStr) (k : ℕ)
      → trim (some s) ≡ some (t, k)
      → trim (some (text_at (t, k))) ≡ some (text_at (t, k), 0)
  trim-trim t k e =
      let et : take stop s ≡ t = cc (trim_eq s) in
      let ek : start ≡ k = cc (trim_eq s) in rw (← et, ← ek) (trim_fixed kept kept_last kept_first)
