-- ===== src/Value/Copying.antt =====
-- `operator =` of TValue (src/dbsql.cpp).
use dbsqlapi.Prelude.{◌≤◌, ◌≡◌, ◌≢◌, refl, true, false, none, some, [], arith, length, take}
use dbsqlapi.Heap.{null, Heap, ok, fault, load, delete}
use dbsqlapi.Heap.Rules.{ne_null}
use dbsqlapi.Value.{Value, is_buffered, copies_buffer, as_string, assign, free_buffer, buffer_read}
use dbsqlapi.Value.Arrays.{Chars, nul_at, strlen}
use dbsqlapi.Value.Arrays.Rules.{strlen-fault}
use dbsqlapi.Value.Owned.{Ready, Took, Source, taken, taken-Took, buffer_read-memcpy}

-- The target of an assignment once its type and its length are those of the source.
abbrev pub retyped : Value → Value → Value
retyped v other = record v { data_type = other.data_type; value_len = other.value_len }

-- A number or a NULL is copied whole, whatever the target held, and no array is touched.
pub assign_number :
    (h : Heap Chars) (v other : Value)
    → copies_buffer other.data_type ≡ false
    → assign v other h ≡ ok other h
unfolding assign
assign_number h v other n = rw n

-- Where what the target takes for its array is one, and the source array is another with
-- `valueLen` bytes: of a string, a date, binary data, text or an untyped value the first
-- `valueLen` bytes are copied into a new array. What the target held is deleted if the NEW type
-- says that it is an array.
pub assign-Took :
    (h : Heap Chars) (v other : Value) (from : Chars)
    → copies_buffer other.data_type ≡ true
    → Ready h (retyped v other)
    → Source h (retyped v other) other.word from
    → other.value_len ≤ length from
    → (v' : Value) × (g : Heap Chars) × (assign v other h ≡ ok v' g)
      × Took h (retyped v other) (take other.value_len from) other.data_type v' g
unfolding assign
assign-Took h v other from c ready s fits = (
  record (retyped v other) { word = h.next; data_type = other.data_type },
  taken ready s (take other.value_len from) other.value_len,
  rw (c, buffer_read-memcpy ready s other.value_len fits),
  taken-Took ready s other.value_len (take other.value_len from) other.data_type,
)

-- In the same case, if `valueLen` is 0, the copy points to an empty array: `asString` has no end
-- there.
pub assign_loses_text :
    (h : Heap Chars) (v other : Value) (from : Chars)
    → copies_buffer other.data_type ≡ true
    → Ready h (retyped v other)
    → Source h (retyped v other) other.word from
    → other.value_len ≡ 0
    → (v' : Value) × (g : Heap Chars) × (assign v other h ≡ ok v' g)
      × (g.cell v'.word ≡ some [])
      × (strlen (as_string v') g ≡ fault)
unfolding as_string nul_at
assign_loses_text h v other from c ready s none_set =
    let (v', g, done, took) = assign-Took h v other from c ready s (omega arith) in
    let empty : g.cell v'.word ≡ some [] = rw none_set at took.at_word in
    (v', g, done, empty, strlen-fault g v'.word [] took.not_null empty refl)

-- Assigning a string, a date, binary data or an untyped value that has an array to a value whose
-- word is no array, a number that is not 0, deletes that word as if it were a pointer: undefined
-- behaviour.
pub assign_over_number :
    (h : Heap Chars) (v other : Value)
    → v.word ≢ null
    → h.cell v.word ≡ none
    → is_buffered other.data_type ≡ true
    → copies_buffer other.data_type ≡ true
    → other.word ≢ null
    → assign v other h ≡ fault
unfolding assign buffer_read free_buffer delete load
assign_over_number h v other ne at b c src_ne =
    rw (c, ne_null other.word src_ne) (rw b (rw (ne_null v.word ne, at)))
