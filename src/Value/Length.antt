-- ===== src/Value/Length.antt =====
-- `valueLen` of TValue (src/dbsql.h and src/dbsql.cpp).
use dbsqlapi.Prelude.{ℕ, ◌+◌, ◌≡◌, refl, ◌∙◌, Bool, true, false, inl, inr, Bool-cases, ◌==◌}
use dbsqlapi.Heap.{Ptr, null, Heap, Run, Cmd, ok, and_then, fault, out_of_fuel, pure, delete}
use dbsqlapi.Value.{
  Value, is_buffered, copies_buffer, fresh, get_length, set_int, set_uint, set_float, set_double,
  set_llong, set_ulong, set_null, set_date, set_string, set_binary, set_value, assign, free_buffer,
  buffer_read, fill,
}
use dbsqlapi.Value.Arrays.{Chars, strlen, new_chars}

-- The methods that change a value.
pub data Setter : Type 0 where
  int uint float double llong ulong : ℕ → Setter
  null_value : Setter
  date string : Ptr → Setter
  binary value : Ptr → ℕ → Setter

unfoldable pub run_setter : Setter → Value → Cmd Chars Value
run_setter (int x) v = pure (set_int v x)
run_setter (uint x) v = pure (set_uint v x)
run_setter (float x) v = pure (set_float v x)
run_setter (double x) v = pure (set_double v x)
run_setter (llong x) v = pure (set_llong v x)
run_setter (ulong x) v = pure (set_ulong v x)
run_setter null_value v = pure (set_null v)
run_setter (date p) v = set_date v p
run_setter (string p) v = set_string v p
run_setter (binary p n) v = set_binary v p n
run_setter (value p n) v = set_value v p n

-- What a run returns satisfies `P`, if it returns.
abbrev OnOk : {A : Type 0} → (A → Type 0) → Run Chars A → Type 0
OnOk P (ok a h) = P a
OnOk P fault = Unit {0}
OnOk P out_of_fuel = Unit {0}

OnOk-bind :
    {A B : Type 0} (P : A → Type 0) (Q : B → Type 0) (r : Run Chars A) (k : A → Cmd Chars B)
    → OnOk P r
    → ((a : A) (h : Heap Chars) → P a → OnOk Q (k a h))
    → OnOk Q (and_then r k)
OnOk-bind P Q (ok a h) k p next = next a h p
OnOk-bind P Q fault k p next = tt
OnOk-bind P Q out_of_fuel k p next = tt

OnOk-all : {A : Type 0} (r : Run Chars A) → OnOk (λ _. Unit {0}) r
OnOk-all (ok a h) = tt
OnOk-all fault = tt
OnOk-all out_of_fuel = tt

OnOk-ok :
    {A : Type 0} (P : A → Type 0) (r : Run Chars A) (a : A) (h : Heap Chars)
    → OnOk P r
    → r ≡ ok a h
    → P a
OnOk-ok P (ok b g) a h p e = let same : b ≡ a = cc in rw same at p
OnOk-ok P fault a h p e = cc
OnOk-ok P out_of_fuel a h p e = cc

abbrev SameLen : Value → Value → Type 0
SameLen v v' = v'.value_len ≡ v.value_len

free_buffer-SameLen : (v : Value) (h : Heap Chars) → OnOk (SameLen v) (free_buffer v h)
unfolding free_buffer
free_buffer-SameLen v h = elim (Bool-cases (is_buffered v.data_type)) [
  | inr b ↦ rw b refl
  | inl b ↦ rw b (elim (Bool-cases (v.word == null)) [
    | inl e ↦ rw e refl
    | inr e ↦
        rw e
          (OnOk-bind (λ _. Unit {0}) (SameLen v) (delete v.word h) _ (OnOk-all _) (λ a g p. refl))
  ])
]

buffer_read-SameLen :
    (v : Value) (p : Ptr) (n : ℕ) (b : Bool) (h : Heap Chars)
    → OnOk (SameLen v) (buffer_read v p n b h)
unfolding buffer_read
buffer_read-SameLen v p n b h = elim (Bool-cases (p == null)) [
  | inl e ↦ rw e refl
  | inr e ↦ rw e (
      OnOk-bind (SameLen v) (SameLen v) (free_buffer v h) _ (free_buffer-SameLen v h) λ v' g s.
        OnOk-bind (λ _. Unit {0}) (SameLen v) (new_chars n g) _ (OnOk-all _)
          λ q g' t.
            OnOk-bind (λ _. Unit {0}) (SameLen v) (fill b q p n g') _ (OnOk-all _) λ u g'' t'. s)
]

run_setter-SameLen : (s : Setter) (v : Value) (h : Heap Chars) → OnOk (SameLen v) (run_setter s v h)
unfolding run_setter set_int set_uint set_float set_double set_llong set_ulong set_null set_date
    set_string set_binary set_value
run_setter-SameLen (int x) v h = refl
run_setter-SameLen (uint x) v h = refl
run_setter-SameLen (float x) v h = refl
run_setter-SameLen (double x) v h = refl
run_setter-SameLen (llong x) v h = refl
run_setter-SameLen (ulong x) v h = refl
run_setter-SameLen null_value v h = refl
run_setter-SameLen (date p) v h =
    OnOk-bind (λ _. Unit {0}) (SameLen v) (strlen p h) _ (OnOk-all _)
      λ n g t.
        OnOk-bind (SameLen v) (SameLen v) (buffer_read v p n false g) _
          (buffer_read-SameLen v p n false g) λ v' g' s. s
run_setter-SameLen (string p) v h =
    OnOk-bind (λ _. Unit {0}) (SameLen v) (strlen p h) _ (OnOk-all _)
      λ n g t.
        OnOk-bind (SameLen v) (SameLen v) (buffer_read v p (n + 1) true g) _
          (buffer_read-SameLen v p (n + 1) true g) λ v' g' s. s
run_setter-SameLen (binary p n) v h =
    OnOk-bind (SameLen v) (SameLen v) (buffer_read v p n false h) _
      (buffer_read-SameLen v p n false h) λ v' g' s. s
run_setter-SameLen (value p n) v h =
    OnOk-bind (SameLen v) (SameLen v) (buffer_read v p n false h) _
      (buffer_read-SameLen v p n false h) λ v' g' s. s

assign-SameLen : (v other : Value) (h : Heap Chars) → OnOk (SameLen other) (assign v other h)
unfolding assign
assign-SameLen v other h = elim (Bool-cases (copies_buffer other.data_type)) [
  | inl e ↦ rw e (buffer_read-SameLen _ other.word other.value_len false h)
  | inr e ↦ rw e refl
]

-- The values that a program can make: by the constructor, a setter, an assignment, or the copy
-- constructor, which assigns to an object `v` with any contents.
pub data Made : Value → Type 0 where
  by_constructor : Made fresh
  by_setter :
      (s : Setter) (v v' : Value) (h g : Heap Chars) → Made v → run_setter s v h ≡ ok v' g → Made v'
  by_assignment :
      (v other v' : Value) (h g : Heap Chars) → Made other → assign v other h ≡ ok v' g → Made v'

-- No method ever sets the length: `getLength` is 0 for every value that a program can make.
pub get_length-Made : {v : Value} → Made v → get_length v ≡ 0
unfolding get_length
get_length-Made by_constructor = refl
get_length-Made (by_setter s v v' h g m e) =
    OnOk-ok (SameLen v) (run_setter s v h) v' g (run_setter-SameLen s v h) e ∙ get_length-Made m
get_length-Made (by_assignment v other v' h g m e) =
    OnOk-ok (SameLen other) (assign v other h) v' g (assign-SameLen v other h) e ∙ get_length-Made m
