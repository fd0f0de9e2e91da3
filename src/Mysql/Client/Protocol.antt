-- ===== src/Mysql/Client/Protocol.antt =====
-- The rules of the MySQL client library for statements and results: what a program may call after the
-- calls that it has made.
use dbsqlapi.Prelude.{ℕ, suc, ◌+◌, ◌≡◌, ◌≢◌, [], ◌∷◌, ◌==◌, if◌then◌else◌}
use dbsqlapi.Heap.{Ptr, null}
use dbsqlapi.Mysql.Client.{
  History, stmt_init, stmt_close, on_stmt, result_metadata, on_result, free_result, commit,
  rollback, undefined,
}

-- The statement that is open, or NULL.
abbrev pub held_stmt : History → Ptr
held_stmt [] = null
held_stmt (stmt_init p ∷ h) = p
held_stmt (stmt_close p ∷ h) = null
held_stmt (on_stmt op p ∷ h) = held_stmt h
held_stmt (result_metadata p r ∷ h) = held_stmt h
held_stmt (on_result op r ∷ h) = held_stmt h
held_stmt (free_result r ∷ h) = held_stmt h
held_stmt (commit ∷ h) = held_stmt h
held_stmt (rollback ∷ h) = held_stmt h
held_stmt (undefined ∷ h) = held_stmt h

-- The result that is to be freed, or NULL.
abbrev pub held_result : History → Ptr
held_result [] = null
held_result (result_metadata p r ∷ h) = r
held_result (free_result r ∷ h) = null
held_result (stmt_init p ∷ h) = held_result h
held_result (stmt_close p ∷ h) = held_result h
held_result (on_stmt op p ∷ h) = held_result h
held_result (on_result op r ∷ h) = held_result h
held_result (commit ∷ h) = held_result h
held_result (rollback ∷ h) = held_result h
held_result (undefined ∷ h) = held_result h

-- A statement is made only when none is open, and nothing is done to any other than the open one, nor
-- to any other than the last result; a result is asked for only when the last one is freed.
abbrev pub IsLegal : History → Type 0
IsLegal [] = Unit {0}
IsLegal (stmt_init p ∷ h) = (held_stmt h ≡ null) × IsLegal h
IsLegal (stmt_close p ∷ h) = (p ≢ null) × (p ≡ held_stmt h) × IsLegal h
IsLegal (on_stmt op p ∷ h) = (p ≢ null) × (p ≡ held_stmt h) × IsLegal h
IsLegal (result_metadata p r ∷ h) =
    (p ≢ null) × (p ≡ held_stmt h) × (held_result h ≡ null) × IsLegal h
IsLegal (on_result op r ∷ h) = (r ≢ null) × (r ≡ held_result h) × IsLegal h
IsLegal (free_result r ∷ h) = (r ≢ null) × (r ≡ held_result h) × IsLegal h
IsLegal (commit ∷ h) = IsLegal h
IsLegal (rollback ∷ h) = IsLegal h
IsLegal (undefined ∷ h) = IsLegal h

abbrev one_if_some : Ptr → ℕ
one_if_some p = if p == null then 0 else 1

-- How many statements were made, and how many were closed.
abbrev pub made : History → ℕ
made [] = 0
made (stmt_init p ∷ h) = one_if_some p + made h
made (c ∷ h) = made h

abbrev pub ended : History → ℕ
ended [] = 0
ended (stmt_close p ∷ h) = suc (ended h)
ended (c ∷ h) = ended h

-- No write outside an array, nor other undefined behaviour, is among the calls.
abbrev pub IsDefined : History → Type 0
IsDefined [] = Unit {0}
IsDefined (undefined ∷ h) = ⊥
IsDefined (c ∷ h) = IsDefined h
