-- ===== src/Fields/Tests.antt =====
-- The laws of TField and TFieldList (src/dbsql.cpp) on two fields.
use dbsqlapi.Prelude.{
  ◌≡◌, refl, inl, inr, none, some, [], ◌∷◌, arith, ◌==◌, if◌then◌else◌, codes, replicate,
}
use dbsqlapi.Heap.{Heap, ok}
use dbsqlapi.Value.{sql_string, sql_int}
use dbsqlapi.Value.Arrays.{Chars}
use dbsqlapi.Errors.{returns}
use dbsqlapi.Fields.{Field, FieldList, fresh_field, new_fld_list}
use dbsqlapi.Fields.Lifetime.{Settled, Destroyed, new_fld_list-fresh}

-- `title` owns the array at 1.
abbrev title : Field
title = record {
  field_name = codes "title";
  value = record { data_type = sql_string; word = 1; value_len = 0 };
  op = 0;
  source_type = 0;
}

abbrev count : Field
count = record {
  field_name = codes "count";
  value = record { data_type = sql_int; word = 5; value_len = 0 };
  op = 0;
  source_type = 0;
}

abbrev fields : FieldList
fields = title ∷ count ∷ []

abbrev heap : Heap Chars
heap = record { cell = λ p. if p == 1 then some (codes "a") else none; next = 2 }

fields-Settled : Settled heap fields
fields-Settled =
    (inr (inr (codes "a", omega arith, refl, omega arith)), λ o. refl, (inl refl, λ o. refl, tt))

new_fld_list-fresh_example :
    (g : Heap Chars) × (new_fld_list fields 3 heap ≡ ok (returns (replicate 3 fresh_field)) g)
    × Destroyed fields heap g
    × Settled g (replicate 3 fresh_field)
new_fld_list-fresh_example =
    new_fld_list-fresh heap fields 3 fields-Settled (omega arith) (omega arith)
