-- ===== src/Value/Text.antt =====
-- Strings, dates and binary data put into a TValue (src/dbsql.cpp).
use dbsqlapi.Prelude.{
  ℕ, suc, ◌+◌, ◌≤◌, ◌≡◌, ◌≢◌, ◌∙◌, true, none, some, arith, ◌==◌, length, take, replicate, inr, ◌<◌,
  false,
}
use native.Mathlib.Numerals.{add-one}
use dbsqlapi.Heap.{Ptr, null, Heap, ok, fault, write}
use dbsqlapi.Heap.Rules.{ne_null, write_ne, write_self}
use dbsqlapi.Value.{
  Value, sql_date, sql_string, sql_binary, sql_unknown, is_buffered, as_string, set_date,
  set_string, set_binary, set_value,
}
use dbsqlapi.Value.Arrays.{Chars, nul_at, strlen, new_chars}
use dbsqlapi.Value.Arrays.Rules.{
  strlen-ok, strlen-fault, nul_at-take-suc, nul_at-take, nul_at-lt, strcpy-gone,
}
use dbsqlapi.Value.Owned.{
  Ready, released, Took, Source, taken, taken-Took, buffer_read-memcpy, buffer_read-strcpy,
  free_buffer-released,
}

module _ {h : Heap Chars} {v : Value} (ready : Ready h v) {src : Ptr} {from : Chars}
    (s : Source h v src from) where
  -- Given a C string that the value does not own, `setString` copies the text with its NUL into a
  -- new array, deletes the array that the value had, and touches no other; `asString` then reads a
  -- text of the same length.
  pub set_string-Took :
      (n : ℕ)
      → nul_at from ≡ some n
      → (v' : Value) × (g : Heap Chars) × (set_string v src h ≡ ok v' g)
        × Took h v (take (suc n) from) sql_string v' g
        × (strlen (as_string v') g ≡ ok n g)
  unfolding set_string as_string
  set_string-Took n e =
      let took = taken-Took ready s (suc n) (take (suc n) from) sql_string in
      (
        _,
        taken ready s (take (suc n) from) (suc n),
        rw (strlen-ok h src n from s.not_null s.at e, add-one)
            (rw (buffer_read-strcpy ready s n e)),
        took,
        strlen-ok _ h.next n (take (suc n) from) took.not_null took.at_word
            (nul_at-take-suc from n e),
      )

  -- Given a C string that the value does not own, `setDate` copies the text without its NUL into a
  -- new array, deletes the array that the value had, and touches no other; so a search for the end
  -- of `asDate` runs off the array.
  pub set_date-Took :
      (n : ℕ)
      → nul_at from ≡ some n
      → (v' : Value) × (g : Heap Chars) × (set_date v src h ≡ ok v' g)
        × Took h v (take n from) sql_date v' g
        × (strlen (as_string v') g ≡ fault)
  unfolding set_date as_string
  set_date-Took n e =
      let took = taken-Took ready s n (take n from) sql_date in
      (
        _,
        taken ready s (take n from) n,
        rw (strlen-ok h src n from s.not_null s.at e)
            (rw (buffer_read-memcpy ready s n (omega (arith, nul_at-lt from n e)))),
        took,
        strlen-fault _ h.next (take n from) took.not_null took.at_word (nul_at-take from n e),
      )

  -- `setBinary` and `setValue` copy the bytes into a new array, delete the array that the value
  -- had, and touch no other.
  pub set_binary-Took :
      (len : ℕ)
      → len ≤ length from
      → ((v' : Value) × (g : Heap Chars) × (set_binary v src len h ≡ ok v' g)
          × Took h v (take len from) sql_binary v' g)
        × ((v' : Value) × (g : Heap Chars) × (set_value v src len h ≡ ok v' g)
            × Took h v (take len from) sql_unknown v' g)
  unfolding set_binary set_value
  set_binary-Took len fits = (
    (
      record v { word = h.next; data_type = sql_binary },
      taken ready s (take len from) len,
      rw (buffer_read-memcpy ready s len fits),
      taken-Took ready s len (take len from) sql_binary,
    ),
    (
      record v { word = h.next; data_type = sql_unknown },
      taken ready s (take len from) len,
      rw (buffer_read-memcpy ready s len fits),
      taken-Took ready s len (take len from) sql_unknown,
    ),
  )

-- Giving a value with a live, terminated array its own string again reads the array after it was
-- deleted.
pub set_string_self :
    (h : Heap Chars) (v : Value) (cs : Chars) (n : ℕ)
    → is_buffered v.data_type ≡ true
    → v.word ≢ null
    → h.cell v.word ≡ some cs
    → v.word < h.next
    → nul_at cs ≡ some n
    → set_string v (as_string v) h ≡ fault
unfolding set_string as_string new_chars
set_string_self h v cs n b ne at lt e =
    let ready : Ready h v = inr (inr (cs, ne, at, lt)) in
    let test : (v.word == null) ≡ false = ne_null v.word ne in
    rw (strlen-ok h v.word n cs ne at e) (
      rw (test, free_buffer-released h v ready) (rw (strcpy-gone full h.next v.word (gone b test))))
  where
    full : Heap Chars
    full = record {
      cell = write (released h v).cell h.next (some (replicate (n + 1) 0));
      next = suc h.next;
    }

    gone : is_buffered v.data_type ≡ true → (v.word == null) ≡ false → full.cell v.word ≡ none
    gone b' test =
        write_ne (released h v).cell h.next v.word _ (omega arith)
        ∙ rw (b', test) (write_self h.cell v.word none)
