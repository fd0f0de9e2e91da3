-- ===== src/Oracle/Retry/Ends.antt =====
-- What checkConStatus (src/oracleapi.cpp) leaves.
use dbsqlapi.Prelude.{
  ℕ, zero, suc, ◌≡◌, ◌⊎◌, inl, inr, refl, Bool, true, false, ◌&&◌, not, some, [], ℤ, pos, negsuc,
  ◌==◌, ◌+◌, ◌<◌, Bool-cases, if◌then◌else◌, arith,
}
use dbsqlapi.Heap.{null}
use dbsqlapi.Oracle.Connection.{
  OciClient, DbConnect, HandleKind, connect, set_no_connct, get_err, ask, alloc_handle, free_one,
  error_get_text,
}
use dbsqlapi.Oracle.Connection.Handles.{Leads}
use dbsqlapi.Oracle.Connection.Keeps.{Keeps, log_on-Gives, init_handle-Keeps}
use dbsqlapi.Oracle.Retry.{Session, again, retry, check_con_status, is_lost}

abbrev Down : DbConnect → Type 0
Down d = d.is_connected ≡ false

module _ (client : OciClient) where
  free_one-Down : (k : HandleKind) → Leads Down Down (free_one k)
  unfolding free_one
  free_one-Down k = record {
    at = λ c e. elim (Bool-cases (c.handles k == null)) [ inl n ↦ rw n e | inr n ↦ rw n e ];
  }

  alloc-Down : (k : HandleKind) → Leads Down Down (alloc_handle client k)
  unfolding alloc_handle
  alloc-Down k = record {
    at = λ c e. elim (Bool-cases (client.alloc_failing k c.calls)) [
      | inl n ↦ rw n e
      | inr n ↦ rw n e
    ];
  }

  Down-Keeps : Keeps client Down
  unfolding ask error_get_text
  Down-Keeps = record {
    asks = λ x. record { at = λ c e. e };
    allocs = alloc-Down;
    frees = free_one-Down;
    errors = record { at = λ c e. e };
  }

  -- A connect that fails leaves the connection down; one that succeeds, up.
  abbrev Result : ℤ → DbConnect → Type 0
  Result r d = ((r ≡ negsuc 0) × (d.is_connected ≡ false)) ⊎ ((r ≡ pos 0) × (d.is_connected ≡ true))

  again-Result : (s : Session) → Result (again client s).0 (again client s).1
  unfolding again connect set_no_connct
  again-Result s =
      (log_on-Gives client Down-Keeps {Q = Result} (λ d e. inl (refl, e)) (λ d e. inr (refl, refl))
          s.username s.passwd (some s.hostname) (init_handle-Keeps client Down-Keeps)).at
        (record s.conn { is_connected = false }) refl

  -- The connection is up again, or all rounds have failed: then it is down, no query is open, and there was a
  -- sleep for each round.
  abbrev pub Ended : ℕ → Session → ℤ × Session → Type 0
  Ended max s (r, t) =
      ((r ≡ pos 1) × (t.conn.is_connected ≡ true))
      ⊎ ((r ≡ negsuc 99998)
          × (t.conn.is_connected ≡ false)
          × (t.cursors ≡ [])
          × (t.sleeps ≡ s.sleeps + max))

  -- After a round that has failed.
  after_round : Session → Session
  after_round s = record s { conn = (again client s).1; cursors = []; sleeps = suc s.sleeps }

  round_failed :
      (more : ℕ) (s : Session)
      → (again client s).0 ≡ negsuc 0
      → retry client (suc more) s ≡ retry client more (after_round s)
  unfolding retry after_round
  round_failed more s e = rw e refl

  round_succeeded :
      (more : ℕ) (s : Session)
      → (again client s).0 ≡ pos 0
      → retry client (suc more) s ≡ (pos 1, record s { conn = (again client s).1 })
  unfolding retry
  round_succeeded more s e = rw e refl

  one_more :
      (more : ℕ) (s : Session) (r : ℤ × Session)
      → Ended more (after_round s) r
      → Ended (suc more) s r
  unfolding after_round
  one_more more s r (inl up) = inl up
  one_more more s r (inr (code, down, closed, slept)) =
      inr (code, down, closed, omega (arith, slept))

  retry-none :
      (s : Session)
      → s.conn.is_connected ≡ false
      → s.cursors ≡ []
      → Ended zero s (retry client zero s)
  unfolding retry
  retry-none s down closed = inr (refl, down, closed, omega arith)

  round_down :
      (s : Session)
      → (again client s).1.is_connected ≡ false
      → ((after_round s).conn.is_connected ≡ false) × ((after_round s).cursors ≡ [])
  unfolding after_round
  round_down s down = (down, refl)

  -- Either a round has failed already, or there is one.
  retry-Ended :
      (more : ℕ) (s : Session)
      → ((s.conn.is_connected ≡ false) × (s.cursors ≡ [])) ⊎ (0 < more)
      → Ended more s (retry client more s)
  retry-Ended zero s (inr a_round) = absurd (omega arith)
  retry-Ended zero s (inl (down, closed)) = retry-none s down closed
  retry-Ended (suc more) s _ = elim (again-Result s) [
    | inl (e, down) ↦ rw (round_failed more s e) (
        one_more more s (retry client more (after_round s))
          (retry-Ended more (after_round s) (inl (round_down s down))))
    | inr (e, up) ↦ rw (round_succeeded more s e) (inl (refl, up))
  ]

  answered :
      (max : ℕ) (asked : Session) (lost : Bool) (r : ℤ × Session)
      → Ended max asked r
      → (up : Bool) → asked.conn.is_connected ≡ up
      → let chosen : ℤ × Session = if up && not lost then (negsuc 0, asked) else r in
        ((asked.conn.is_connected ≡ true) × (lost ≡ false) × (chosen ≡ (negsuc 0, asked)))
        ⊎ (((asked.conn.is_connected ≡ false) ⊎ (lost ≡ true)) × Ended max asked chosen)
  answered max asked lost r ended false e = inr (inl e, ended)
  answered max asked true r ended true e = inr (inr refl, ended)
  answered max asked false r ended true e = inl (e, refl, refl)

  -- checkConStatus with at least one round, whatever the library answers: if the connection
  -- is up and getErr tells of no loss, it returns -1 and does nothing but getErr. If the connection is down
  -- or getErr tells of a loss, it returns 1 with the connection up, or -99999 after all rounds have failed, each with a sleep: then the connection is down and no query is open.
  pub check_con_status-Ended :
      (max : ℕ) (s : Session)
      → 0 < max
      → let asked = record s { conn = (get_err client s.conn).1 } in
        let r = check_con_status client max s in
        ((asked.conn.is_connected ≡ true)
          × (is_lost (get_err client s.conn).0 ≡ false)
          × (r ≡ (negsuc 0, asked)))
        ⊎ (((asked.conn.is_connected ≡ false) ⊎ (is_lost (get_err client s.conn).0 ≡ true))
            × Ended max asked r)
  unfolding check_con_status
  check_con_status-Ended max s a_round =
      let asked = record s { conn = (get_err client s.conn).1 } in
      answered max asked (is_lost (get_err client s.conn).0) (retry client max asked)
        (retry-Ended max asked (inr a_round)) asked.conn.is_connected refl
