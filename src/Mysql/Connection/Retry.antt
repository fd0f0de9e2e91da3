-- ===== src/Mysql/Connection/Retry.antt =====
-- How checkConStatus of src/mysqlapi.cpp restores a connection.
use dbsqlapi.Prelude.{
  ℕ, zero, suc, ◌+◌, ◌-◌, ◌≤◌, ◌<◌, ◌≡◌, refl, sym, ap, ◌∙◌, ◌⊎◌, inl, inr, Bool, true, false, List,
  [], ◌∷◌, pos, negsuc, arith, ◌==◌, if◌then◌else◌, Bool-cases,
}
use dbsqlapi.Mysql.Connection.{
  connected, MysqlConnect, opened, is_connected, connect, set_no_connct, is_connect, is_gone,
  get_err, Session, retry, check_con_status,
}

connect-refused :
    (answer : Bool) (c : MysqlConnect)
    → (is_connected c.db_state ≡ true) ⊎ (answer ≡ false)
    → connect answer c ≡ (negsuc 0, c, [])
unfolding connect
connect-refused answer c (inl e) = simp (e)
connect-refused answer c (inr e) = elim (Bool-cases (is_connected c.db_state)) [
  | inl k ↦ simp (k)
  | inr k ↦ simp (k, e)
]

connect-done :
    (c : MysqlConnect)
    → is_connected c.db_state ≡ false
    → connect true c ≡ (pos 0, record { db_state = connected; transaction = false }, opened ∷ [])
unfolding connect
connect-done c e = simp (e)

-- The connection after mysql_real_connect has given one.
abbrev pub up : MysqlConnect
up = record { db_state = connected; transaction = false }

retry-failed :
    (left t : ℕ) (answers : ℕ → Bool) (s : Session)
    → answers t ≡ false
    → retry (suc left) t answers s
      ≡ retry left
          (suc t)
          answers
          (record { conn = set_no_connct s.conn; handles = []; sleeps = s.sleeps + 1 })
unfolding retry
retry-failed left t answers s no_answer =
    rw (connect-refused (answers t) (set_no_connct s.conn) (inr no_answer))

retry-connected :
    (left t : ℕ) (answers : ℕ → Bool) (s : Session)
    → answers t ≡ true
    → retry (suc left) t answers s ≡ (pos t, record s { conn = up })
unfolding retry
retry-connected left t answers s answered = rw answered

-- The session after the first success in round `n` of a loop that starts with round `t`.
abbrev restored : ℕ → ℕ → Session → Session
restored t n s = record {
  conn = up;
  handles = if n == t then s.handles else [];
  sleeps = s.sleeps + (n - t);
}

-- The session after a round without a connection.
abbrev after_failure : Session → Session
after_failure s = record { conn = set_no_connct s.conn; handles = []; sleeps = s.sleeps + 1 }

restored-here : (t : ℕ) (s : Session) → restored t t s ≡ record s { conn = up }
restored-here t s =
    let same : (t == t) ≡ true = ground arith in
    let slept : s.sleeps + (t - t) ≡ s.sleeps = omega arith in rw (same, slept)

restored-later :
    (t n : ℕ) (s : Session)
    → t ≤ n
    → (n == t) ≡ false
    → restored (suc t) n (after_failure s) ≡ restored t n s
restored-later t n s le other =
    let dropped : if◌then◌else◌ {A = List ℕ} (n == suc t) [] [] ≡ [] = ground arith in
    let slept : (s.sleeps + 1) + (n - suc t) ≡ s.sleeps + (n - t) = ground arith in
    rw (other, dropped, slept)

retry-restored :
    (left t n : ℕ) (answers : ℕ → Bool) (s : Session)
    → t ≤ n
    → n < t + left
    → ((j : ℕ) → t ≤ j → j < n → answers j ≡ false)
    → answers n ≡ true
    → retry left t answers s ≡ (pos n, restored t n s)
retry-restored zero t n answers s le lt before now = absurd (omega arith)
retry-restored (suc left) t n answers s le lt before now = elim (Bool-cases (n == t)) [
  | inl e ↦
      let same : t ≡ n = ground arith in
      let now' : answers t ≡ true = rw same now in
      retry-connected left t answers s now'
      ∙ ap (λ r. (pos t, r)) (sym (restored-here t s))
      ∙ ap (λ m. (pos m, restored t m s)) same
  | inr e ↦
      retry-failed left t answers s (before t (omega arith) (ground arith))
      ∙ retry-restored left (suc t) n answers (after_failure s) (ground arith) (omega arith)
          (λ j le' lt'. before j (omega arith) lt') now
      ∙ ap (λ r. (pos n, r)) (restored-later t n s le e)
]

-- The session after `n` rounds without a connection.
abbrev pub closing : ℕ → Session → Session
closing zero s = s
closing (suc n) s = record { conn = set_no_connct s.conn; handles = []; sleeps = s.sleeps + suc n }

closing-after_failure : (n : ℕ) (s : Session) → closing n (after_failure s) ≡ closing (suc n) s
unfolding set_no_connct
closing-after_failure zero s = refl
closing-after_failure (suc n) s =
    let slept : (s.sleeps + 1) + suc n ≡ s.sleeps + suc (suc n) = omega arith in rw slept

retry-closing :
    (left t : ℕ) (answers : ℕ → Bool) (s : Session)
    → ((j : ℕ) → t ≤ j → j < t + left → answers j ≡ false)
    → retry left t answers s ≡ (negsuc 99998, closing left s)
unfolding retry
retry-closing zero t answers s never = refl
retry-closing (suc left) t answers s never =
    retry-failed left t answers s (never t (omega arith) (omega arith))
    ∙ retry-closing left (suc t) answers (after_failure s)
        (λ j le lt. never j (omega arith) (omega arith))
    ∙ ap (λ r. (negsuc 99998, r)) (closing-after_failure left s)

-- The connection is not open, or its last error says that the server is gone.
abbrev pub IsBroken : ℕ → Session → Type 0
IsBroken err_no s = (is_connected s.conn.db_state ≡ false) ⊎ (is_gone err_no ≡ true)

check_con_status-retry :
    (err_no max_times : ℕ) (answers : ℕ → Bool) (s : Session)
    → IsBroken err_no s
    → check_con_status err_no max_times answers s ≡ retry max_times 0 answers s
unfolding check_con_status is_connect get_err
check_con_status-retry err_no max_times answers s (inl shut) = simp (shut)
check_con_status-retry err_no max_times answers s (inr gone) =
    elim (Bool-cases (is_connected s.conn.db_state)) [ inl k ↦ simp (k, gone) | inr k ↦ simp (k) ]

-- On a broken connection checkConStatus connects again. Where the server first answers in round `n` of
-- the rounds allowed, it returns `n`, is connected and has slept `n` times; the open queries survive
-- only if that is the first round.
pub check_con_status-restored :
    (err_no max_times n : ℕ) (answers : ℕ → Bool) (s : Session)
    → IsBroken err_no s
    → n < max_times
    → ((j : ℕ) → j < n → answers j ≡ false)
    → answers n ≡ true
    → check_con_status err_no max_times answers s ≡ (
      pos n,
      record { conn = up; handles = if n == 0 then s.handles else []; sleeps = s.sleeps + n },
    )
check_con_status-restored err_no max_times n answers s broken lt before now =
    let whole : s.sleeps + (n - 0) ≡ s.sleeps + n = omega arith in
    rw (← whole) (
      check_con_status-retry err_no max_times answers s broken
      ∙ retry-restored max_times 0 n answers s (omega arith) (omega arith) (λ j _ lt'. before j lt')
          now)

-- On a broken connection whose server answers in none of the rounds allowed, checkConStatus
-- returns -99999 after the last round, is not connected, has slept once a round and has dropped
-- the open queries; with no round allowed it leaves the session as it is.
pub check_con_status-closing :
    (err_no max_times : ℕ) (answers : ℕ → Bool) (s : Session)
    → IsBroken err_no s
    → ((j : ℕ) → j < max_times → answers j ≡ false)
    → check_con_status err_no max_times answers s ≡ (negsuc 99998, closing max_times s)
check_con_status-closing err_no max_times answers s broken never =
    check_con_status-retry err_no max_times answers s broken
    ∙ retry-closing max_times 0 answers s (λ j _ lt. never j (omega arith))
