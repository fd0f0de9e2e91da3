-- ===== src/Value/Tests.antt =====
-- The laws of TValue (src/dbsql.cpp) on a heap with two arrays.
use dbsqlapi.Prelude.{◌≡◌, refl, inr, none, some, [], ◌∷◌, ◌++◌, arith, ◌==◌, if◌then◌else◌, codes}
use dbsqlapi.Heap.{Heap, ok}
use dbsqlapi.Value.{
  Value, fresh, sql_int, sql_string, set_int, as_string, set_string, assign, get_length,
}
use dbsqlapi.Value.Arrays.{Chars, strlen, nul_at}
use dbsqlapi.Value.Owned.{Ready, Source, Took}
use dbsqlapi.Value.Text.{set_string-Took}
use dbsqlapi.Value.Copying.{retyped, assign-Took}
use dbsqlapi.Value.Length.{by_constructor, by_setter, run_setter, int, get_length-Made}

-- "abc" at 1, and "xy" at 2, which the value `held` owns.
abbrev abc : Chars
abc = codes "abc" ++ 0 ∷ []

abbrev xy : Chars
xy = codes "xy" ++ 0 ∷ []

abbrev heap : Heap Chars
heap = record {
  cell = λ p. if p == 1 then some abc else if p == 2 then some xy else none;
  next = 3;
}

abbrev held : Value
held = record { data_type = sql_string; word = 2; value_len = 0 }

abbrev text : Value
text = record { data_type = sql_string; word = 1; value_len = 0 }

abbrev number : Value
number = record { data_type = sql_int; word = 77; value_len = 0 }

held-Ready : Ready heap held
held-Ready = inr (inr (xy, omega arith, refl, omega arith))

held-Source : Source heap held 1 abc
held-Source = record {
  not_null = omega arith;
  at = refl;
  below = omega arith;
  apart = λ o. omega arith;
}

set_string-Took_example :
    (v' : Value) × (g : Heap Chars) × (set_string held 1 heap ≡ ok v' g)
    × Took heap held abc sql_string v' g
    × (strlen (as_string v') g ≡ ok 3 g)
unfolding nul_at
set_string-Took_example = set_string-Took held-Ready held-Source 3 refl

assign-Took_example :
    (v' : Value) × (g : Heap Chars) × (assign held text heap ≡ ok v' g)
    × Took heap (retyped held text) [] sql_string v' g
assign-Took_example = assign-Took heap held text abc refl held-Ready held-Source (omega arith)

get_length-Made_example : get_length (set_int fresh 8) ≡ 0
unfolding run_setter set_int
get_length-Made_example =
    get_length-Made (by_setter (int 8) fresh (set_int fresh 8) heap heap by_constructor refl)
