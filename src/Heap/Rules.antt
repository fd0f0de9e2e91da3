-- ===== src/Heap/Rules.antt =====
-- A rule for each heap operation that the proofs about src/namevalue.cpp and src/dbsql.cpp use.
use dbsqlapi.Prelude.{◌≡◌, ◌≢◌, false, Option, none, some, arith, ◌==◌}
use dbsqlapi.Heap.{Ptr, null, Heap, ok, write, put_cell, load, modify, delete}

pub ne_null : (p : Ptr) → p ≢ null → (p == null) ≡ false
ne_null p h = ground arith

module _ {N : Type 0} where
  -- A write is seen at its own address only.
  pub write_ne : (c : Ptr → Option N) (p a : Ptr) (v : Option N) → a ≢ p → write c p v a ≡ c a
  write_ne c p a v h = ground arith

  pub write_self : (c : Ptr → Option N) (p : Ptr) (v : Option N) → write c p v p ≡ v
  write_self c p v = ground arith

  module _ (h : Heap N) (p : Ptr) (n : N) where
    pub load-ok : p ≢ null → h.cell p ≡ some n → load p h ≡ ok n h
    unfolding load
    load-ok ne e = ground arith

    pub modify-ok :
        (f : N → N)
        → p ≢ null
        → h.cell p ≡ some n
        → modify p f h ≡ ok tt (put_cell h p (some (f n)))
    unfolding modify
    modify-ok f ne e = ground arith

    pub delete-ok : p ≢ null → h.cell p ≡ some n → delete p h ≡ ok tt (put_cell h p none)
    unfolding delete
    delete-ok ne e = ground arith
