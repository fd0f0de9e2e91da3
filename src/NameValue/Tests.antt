-- ===== src/NameValue/Tests.antt =====
-- A heap with two lists of src/namevalue.cpp, and each theorem on it.
use dbsqlapi.Prelude.{
  ◌≡◌, refl, none, some, [], ◌∷◌, pos, negsuc, arith, ◌==◌, if◌then◌else◌, codes,
}
use dbsqlapi.Heap.{Heap, ok, fault}
use dbsqlapi.NameValue.{Node, NvList, init, find, free, copy}
use dbsqlapi.NameValue.Entries.{Entry, Cells, entries}
use dbsqlapi.NameValue.Chain.{node, Holds, Disjoint}
use dbsqlapi.NameValue.Find.{find-find_entry}
use dbsqlapi.NameValue.Free.{Freed, free-Freed}
use dbsqlapi.NameValue.Copy.{copied}
use dbsqlapi.NameValue.CopyTo.{CopyOf, copy-copied, copy-distinct, copy_self}

abbrev host : Entry
host = record { name = codes "host"; value = some (codes "db1"); data_type = negsuc 0 }

abbrev port : Entry
port = record { name = codes "port"; value = none; data_type = pos 2 }

abbrev old : Entry
old = record { name = codes "old"; value = some (codes "x"); data_type = negsuc 0 }

abbrev two : Cells
two = (1, host) ∷ (2, port) ∷ []

abbrev one : Cells
one = (3, old) ∷ []

abbrev heap : Heap Node
heap = record {
  cell = λ p.
      if p == 1
      then some (node host 2)
      else if p == 2
      then some (node port 0)
      else if p == 3
      then some (node old 0)
      else none;
  next = 4;
}

abbrev list : NvList
list = record { head_ptr = 1; tail_ptr = 2; curr_ptr = 1 }

abbrev dest : NvList
dest = record { head_ptr = 3; tail_ptr = 3; curr_ptr = 3 }

list-Holds : Holds heap list two
list-Holds = record {
  head = refl;
  tail = refl;
  chain = (omega arith, refl, refl, (omega arith, refl, refl, tt));
  below = (omega arith, (omega arith, tt));
  some_next = omega arith;
}

dest-Holds : Holds heap dest one
dest-Holds = record {
  head = refl;
  tail = refl;
  chain = (omega arith, refl, refl, tt);
  below = (omega arith, tt);
  some_next = omega arith;
}

apart : Disjoint two one
apart a i = ground arith

find-find_entry_example : find 3 list (some (codes "port")) heap ≡ ok 2 heap
find-find_entry_example = find-find_entry list-Holds 3 (codes "port") (omega arith)

free-Freed_example :
    (g : Heap Node) × (free 3 list heap ≡ ok init g) × Freed two heap g × Holds g init []
free-Freed_example = free-Freed 3 list-Holds (omega arith)

copy-copied_example : CopyOf heap 3 list dest two one (copied [] (entries two))
copy-copied_example = copy-copied list-Holds 3 (omega arith) dest-Holds apart (omega arith)

copy-distinct_example : CopyOf heap 3 list dest two one (host ∷ port ∷ [])
copy-distinct_example =
    copy-distinct list-Holds 3 (omega arith) dest-Holds apart (omega arith) (tt, ((refl, tt), tt))

copy_self_example : copy 3 list (some list) heap ≡ fault
copy_self_example = copy_self 2 list-Holds (omega arith)
