-- ===== src/Oracle/Parms/Tests.antt =====
-- A parameter of src/oracleapi.cpp at the last position.
use dbsqlapi.Prelude.{refl, [], replicate}
use dbsqlapi.Value.{sql_unknown}
use dbsqlapi.Oracle.Parms.{Parms}
use dbsqlapi.Oracle.Parms.Slots.{sets_longbyte, run_setter, Holds, Answers, run_setter-Answers}

abbrev unset : Parms
unset = record {
  sql = [];
  fld_vals = replicate 32 (record { data_type = sql_unknown; len = 0; data_ptr = 0 });
}

run_setter-Answers_example :
    Answers (Holds (sets_longbyte 12) 40) 32 40 unset (run_setter (sets_longbyte 12) unset 32 40)
run_setter-Answers_example = run_setter-Answers (sets_longbyte 12) unset 32 40 refl
