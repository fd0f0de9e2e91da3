-- ===== src/Value/Owned.antt =====
-- Who owns the character array of a TValue (src/dbsql.cpp), and what `freeBuffer` and `bufferRead`
-- do to it.
use dbsqlapi.Prelude.{
  ℕ, suc, ◌<◌, ◌≤◌, ◌≡◌, ◌≢◌, refl, ◌∙◌, ◌⊎◌, inl, inr, Bool, true, false, none, some, arith, ◌==◌,
  if◌then◌else◌, length, take, replicate, Bool-cases,
}
use dbsqlapi.Heap.{Ptr, null, Heap, ok, write, put_cell, load, delete}
use dbsqlapi.Heap.Rules.{ne_null, write_ne, write_self}
use dbsqlapi.Value.{Value, DataType, is_buffered, free_buffer, buffer_read}
use dbsqlapi.Value.Arrays.{Chars, nul_at, new_chars, memcpy, strcpy}
use dbsqlapi.Value.Arrays.Rules.{memcpy-ok, strcpy-ok}

-- `freeBuffer` may be called: what the value takes for its array is one.
abbrev pub Ready : Heap Chars → Value → Type 0
Ready h v =
    (is_buffered v.data_type ≡ false)
    ⊎ (v.word ≡ null)
    ⊎ ((cs : Chars) × (v.word ≢ null) × (h.cell v.word ≡ some cs) × (v.word < h.next))

-- The heap after `freeBuffer`: the array of a value that has one is gone.
abbrev pub owns : Value → Bool
owns v = if is_buffered v.data_type then (if v.word == null then false else true) else false

abbrev pub released : Heap Chars → Value → Heap Chars
released h v = record { cell = if owns v then write h.cell v.word none else h.cell; next = h.next }

pub free_buffer-released :
    (h : Heap Chars) (v : Value)
    → Ready h v
    → free_buffer v h ≡ ok (record v { word = if owns v then null else v.word }) (released h v)
unfolding free_buffer delete load
free_buffer-released h v (inl no_buffer) = rw no_buffer
free_buffer-released h v (inr (inl none_there)) =
    let is_null : (v.word == null) ≡ true = rw none_there in
    elim (Bool-cases (is_buffered v.data_type)) [ inl b ↦ rw (b, is_null) | inr b ↦ rw b ]
free_buffer-released h v (inr (inr (cs, ne, at, lt))) =
    let not_null : (v.word == null) ≡ false = ground arith in
    elim (Bool-cases (is_buffered v.data_type)) [ inl b ↦ rw (b, not_null, at) | inr b ↦ rw b ]

-- What a setter leaves behind: the bytes stand in a new array, which the value points to; the
-- array that the value had is deleted, and no other array is touched.
pub record Took (h : Heap Chars) (v : Value) (bytes : Chars) (t : DataType) (v' : Value)
    (g : Heap Chars) : Type 0 where
  pub typed : v'.data_type ≡ t
  pub at_word : g.cell v'.word ≡ some bytes
  pub not_null : v'.word ≢ null
  pub was_free : h.next ≡ v'.word
  pub len : v'.value_len ≡ v.value_len
  pub gone : owns v ≡ true → g.cell v.word ≡ none
  pub same : (a : Ptr) → a < h.next → (owns v ≡ true → a ≢ v.word) → g.cell a ≡ h.cell a

-- A readable source that the value does not own.
pub record Source (h : Heap Chars) (v : Value) (src : Ptr) (from : Chars) : Type 0 where
  pub not_null : src ≢ null
  pub at : h.cell src ≡ some from
  pub below : src < h.next
  pub apart : owns v ≡ true → src ≢ v.word

owned_lt : (h : Heap Chars) (v : Value) → Ready h v → owns v ≡ true → v.word < h.next
owned_lt h v (inl no_buffer) o = ground arith
owned_lt h v (inr (inl none_there)) o = ground arith
owned_lt h v (inr (inr (cs, ne, at, lt))) o = lt

module _ {h : Heap Chars} {v : Value} (ready : Ready h v) {src : Ptr} {from : Chars}
    (s : Source h v src from) where
  released_same : (a : Ptr) → (owns v ≡ true → a ≢ v.word) → (released h v).cell a ≡ h.cell a
  released_same a apart = elim (Bool-cases (owns v)) [
    | inl e ↦ rw e (write_ne h.cell v.word a none (apart e))
    | inr e ↦ rw e
  ]

  p_ne : h.next ≢ null
  p_ne = omega (arith, s.below)

  src_ne : src ≢ h.next
  src_ne = omega (arith, s.below)

  -- The heap with the new array, and then with its bytes.
  abbrev pub made : ℕ → Heap Chars
  made len = record {
    cell = write (released h v).cell h.next (some (replicate len 0));
    next = suc h.next;
  }

  abbrev pub taken : Chars → ℕ → Heap Chars
  taken bytes len = put_cell (made len) h.next (some bytes)

  source_made : (len : ℕ) → (made len).cell src ≡ some from
  source_made len =
      write_ne (released h v).cell h.next src _ src_ne ∙ released_same src s.apart ∙ s.at

  memcpy-taken :
      (len : ℕ)
      → len ≤ length from
      → memcpy h.next src len (made len) ≡ ok tt (taken (take len from) len)
  memcpy-taken len fits =
      memcpy-ok (made len) h.next src len from p_ne s.not_null (source_made len)
        (write_self (released h v).cell h.next _) fits

  strcpy-taken :
      (n : ℕ)
      → nul_at from ≡ some n
      → strcpy h.next src (made (suc n)) ≡ ok tt (taken (take (suc n) from) (suc n))
  strcpy-taken n e =
      strcpy-ok (made (suc n)) h.next src n from p_ne s.not_null (source_made (suc n))
        (write_self (released h v).cell h.next _) e

  owned-lt : owns v ≡ true → v.word < h.next
  owned-lt o = owned_lt h v ready o

  pub taken-Took :
      (len : ℕ) (bytes : Chars) (t : DataType)
      → Took h v bytes t (record v { word = h.next; data_type = t }) (taken bytes len)
  taken-Took len bytes t = record {
    typed = refl;
    at_word = write_self (made len).cell h.next _;
    not_null = p_ne;
    was_free = refl;
    len = refl;
    gone = λ o. elsewhere v.word (owned-lt o) ∙ rw o (write_self h.cell v.word none);
    same = λ a lt apart. elsewhere a lt ∙ released_same a apart;
  }
    where
      elsewhere : (a : Ptr) → a < h.next → (taken bytes len).cell a ≡ (released h v).cell a
      elsewhere a lt =
          write_ne (made len).cell h.next a _ (omega arith)
          ∙ write_ne (released h v).cell h.next a _ (omega arith)

  src_test : (src == null) ≡ false
  src_test = ne_null src s.not_null

  pub buffer_read-memcpy :
      (len : ℕ)
      → len ≤ length from
      → buffer_read v src len false h ≡ ok (record v { word = h.next }) (taken (take len from) len)
  unfolding buffer_read new_chars
  buffer_read-memcpy len fits =
      rw (src_test, free_buffer-released h v ready) (rw (memcpy-taken len fits))

  pub buffer_read-strcpy :
      (n : ℕ)
      → nul_at from ≡ some n
      → buffer_read v src (suc n) true h
        ≡ ok (record v { word = h.next }) (taken (take (suc n) from) (suc n))
  unfolding buffer_read new_chars
  buffer_read-strcpy n e = rw (src_test, free_buffer-released h v ready) (rw (strcpy-taken n e))
