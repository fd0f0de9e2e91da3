-- ===== src/Mysql/Cursor/Messages.antt =====
-- What getStmtErrInfo (src/mysqlapi.cpp) returns.
use mathlib.Core.List.{append-nil}
use dbsqlapi.Prelude.{
  ℕ, zero, suc, ◌<◌, ◌≡◌, ◌≢◌, refl, ap, ◌∙◌, false, List, [], ◌∷◌, ◌++◌, CStr, arith, ◌==◌, leb,
  length, drop, replicate, Bool-cases, inl, inr,
}
use dbsqlapi.Heap.{null}
use dbsqlapi.State.{pure, ◌>>=◌, ◌>>◌, when◌run◌otherwise◌}
use dbsqlapi.Mysql.Client.{Client, on_stmt, op_errno}
use dbsqlapi.Mysql.Cursor.{Traced, emit, change, get_cur, put_text, text_of}
use dbsqlapi.Mysql.Cursor.Statement.{ask}
use dbsqlapi.Mysql.Cursor.Message.{get_stmt_err_no, stmt_error, copy_error, get_stmt_err_info}

-- A text has no NUL.
abbrev pub IsText : CStr → Type 0
IsText [] = Unit {0}
IsText (c ∷ cs) = ((c == 0) ≡ false) × IsText cs

text_of-append : (xs : CStr) (ys : List ℕ) → IsText xs → text_of (xs ++ ys) ≡ xs ++ text_of ys
unfolding text_of
text_of-append [] ys t = refl
text_of-append (x ∷ xs) ys t = rw (t.0) (ap (◌∷◌ x) (text_of-append xs ys t.1))

zeros : (n k : ℕ) → text_of (drop n (replicate k 0)) ≡ []
unfolding text_of
zeros zero zero = refl
zeros zero (suc k) = refl
zeros (suc n) zero = refl
zeros (suc n) (suc k) = zeros n k

-- What is left of an old text behind its first `n` bytes.
left_over :
    (n k : ℕ) (old : CStr) → IsText old → text_of (drop n (old ++ replicate k 0)) ≡ drop n old
unfolding text_of
left_over zero k old t = text_of-append old (replicate k 0) t ∙ rw (zeros zero k) (append-nil old)
left_over (suc n) k [] t = zeros (suc n) k
left_over (suc n) k (c ∷ cs) t = left_over n k cs t.1

-- On an open statement with an error, where msgbuf holds a text and only NULs behind it and the library's
-- message is shorter than msgbuf, getStmtErrInfo returns that message followed by what the old text has behind
-- as many bytes: the message alone if the old text is no longer than it, and else with the end of the old
-- text.
pub get_stmt_err_info-mixes :
    (client : Client) (s : Traced) (old : CStr) (k : ℕ)
    → s.cur.stmtp ≢ null
    → client.answer op_errno s.calls ≢ 0
    → s.cur.msgbuf ≡ old ++ replicate k 0
    → IsText old
    → let new = client.error_text (on_stmt op_errno s.cur.stmtp ∷ s.calls) in
      IsText new
      → length new < length s.cur.msgbuf
      → (get_stmt_err_info client s).0 ≡ new ++ drop (length new) old
unfolding get_stmt_err_info get_stmt_err_no copy_error stmt_error ask change get_cur emit pure ◌>>=◌
    ◌>>◌ when◌run◌otherwise◌
get_stmt_err_info-mixes client s old k opened failed buf t u fits =
    let new = client.error_text (on_stmt op_errno s.cur.stmtp ∷ s.calls) in
    let some_stmt : (s.cur.stmtp == null) ≡ false = ground arith in
    let some_error : (client.answer op_errno s.calls == 0) ≡ false = ground arith in
    let mixed : text_of (put_text s.cur.msgbuf new) ≡ new ++ drop (length new) old =
      text_of-append new (drop (length new) s.cur.msgbuf) u
      ∙ ap (◌++◌ new)
          (ap (λ b. text_of (drop (length new) b)) buf ∙ left_over (length new) k old t) in
    elim (Bool-cases (leb (length new) 512)) [
      | inl e ↦ rw (some_stmt, some_error, e) mixed
      | inr e ↦ rw (some_stmt, some_error, e) mixed
    ]
