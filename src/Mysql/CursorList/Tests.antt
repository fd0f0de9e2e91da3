-- ===== src/Mysql/CursorList/Tests.antt =====
-- A mysql_cursorList of src/mysqlapi.h with two cursors, and each theorem on it.
use dbsqlapi.Prelude.{ℕ, refl, some, none, [], ◌∷◌, arith, ◌==◌, if◌then◌else◌}
use dbsqlapi.Heap.{Heap}
use dbsqlapi.Mysql.CursorList.{ListNode, CursorList}
use dbsqlapi.Mysql.CursorList.Links.{Cells, node}
use dbsqlapi.Mysql.CursorList.Holds.{Holds}
use dbsqlapi.Mysql.CursorList.Del.{Removed, del-Removed}
use dbsqlapi.Mysql.CursorList.Add.{Added, add-Added}

abbrev two : Cells ℕ
two = (1, 4, 90) ∷ (2, 7, 80) ∷ []

abbrev heap : Heap (ListNode ℕ)
heap = record {
  cell =
      λ p. if p == 1 then some (node 4 90 0 2) else if p == 2 then some (node 7 80 1 0) else none;
  next = 3;
}

abbrev list : CursorList
list = record { head = 1; tail = 2; index = 7 }

list-Holds : Holds heap list two
list-Holds = record {
  head = refl;
  tail = refl;
  chain = (omega arith, refl, refl, (omega arith, refl, refl, tt));
  below = (omega arith, (omega arith, tt));
  some_next = omega arith;
  numbered = (omega arith, refl, (omega arith, refl, tt));
}

del-Removed_example : Removed heap 3 list two 4
del-Removed_example = del-Removed list-Holds 3 (omega arith) 4

add-Added_example : Added heap list two 70
add-Added_example = add-Added 70 list-Holds (omega arith)
