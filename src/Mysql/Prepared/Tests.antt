-- ===== src/Mysql/Prepared/Tests.antt =====
-- The laws of prepared statements (src/mysqlapi.cpp) at concrete statements.
use dbsqlapi.Prelude.{
  ℕ, zero, suc, ◌≡◌, refl, some, none, List, [], ◌∷◌, pos, negsuc, arith, codes, replicate,
}
use dbsqlapi.Heap.{null}
use dbsqlapi.Value.{sql_string}
use dbsqlapi.Mysql.Prepared.{Prep, statement, ph_set_sql, ph_set_parm, bind_loop, bind_long}
use dbsqlapi.Mysql.Prepared.Scan.{Marker, IsPlain, accepted, ph_set_sql-with_names}
use dbsqlapi.Mysql.Prepared.Params.{ph_set_parm_range, set_ints, set_ints-bind_loop}

-- "VALUES(:p1, :p2) =", which ":id" ends.
abbrev values : List Marker
values =
    record { name = codes "p1"; sep = b','; text = codes " " }
    ∷ record { name = codes "p2"; sep = b')'; text = codes " =" }
    ∷ []

ph_set_sql-with_names_example :
    ph_set_sql (accepted []) (some (codes "VALUES(:p1, :p2) =:id"))
    ≡ some (pos 0, accepted (codes "VALUES(?, ?) =?"))
ph_set_sql-with_names_example =
    ph_set_sql-with_names (accepted []) (codes "VALUES(") values (some (codes "id"))
      (refl, (refl, (refl, (refl, (refl, (refl, (refl, tt)))))))
      (
        ((refl, refl, (refl, refl, tt)), refl, (refl, tt)),
        (((refl, refl, (refl, refl, tt)), refl, (refl, (refl, tt))), tt),
      )
      (refl, refl, (refl, refl, tt)) (omega arith)

blanks-IsPlain : (n : ℕ) → IsPlain (replicate n 32)
blanks-IsPlain zero = tt
blanks-IsPlain (suc n) = (refl, blanks-IsPlain n)

ph_set_parm_range_example :
    (ph_set_parm (accepted []) 32 sql_string 7 4 ≡ none)
    × (ph_set_parm (accepted []) 33 sql_string 7 4
        ≡ some (negsuc 0, record (accepted []) { now_operation = statement }))
    × (ph_set_parm (accepted []) 33 sql_string null 4
        ≡ some (negsuc 0, record (accepted []) { now_operation = statement }))
ph_set_parm_range_example =
    ph_set_parm_range (accepted []) 33 sql_string 7 4 refl (omega arith) (omega arith)

set_ints-bind_loop_example :
    (st : Prep) × (set_ints 1 (5 ∷ 6 ∷ []) (accepted (codes "VALUES(?, ?)")) ≡ some (pos 0, st))
    × (st.sql ≡ codes "VALUES(?, ?)")
    × (bind_loop st.fld_vals ≡ some (bind_long 5 ∷ bind_long 6 ∷ []))
set_ints-bind_loop_example =
    set_ints-bind_loop (codes "VALUES(?, ?)") (5 ∷ 6 ∷ []) (omega arith, (omega arith, tt))
      (omega arith)
