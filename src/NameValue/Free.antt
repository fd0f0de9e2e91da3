-- ===== src/NameValue/Free.antt =====
-- `free` of src/namevalue.cpp, which the destructor calls too.
use dbsqlapi.Prelude.{ℕ, zero, suc, ◌<◌, ◌≡◌, refl, true, false, none, [], ◌∷◌, arith, length}
use dbsqlapi.Heap.{Ptr, Heap, ok, put_cell}
use dbsqlapi.NameValue.{Node, NvList, init, free_loop, free}
use dbsqlapi.NameValue.Entries.{Entry, Cells, head_of, has}
use dbsqlapi.NameValue.Chain.{
  node, IsSeg, Holds, IsSeg-write, load-ok, delete-ok, ne_null, write_self,
}

-- The nodes of `xs` are deleted, and no other object is touched.
pub record Freed (xs : Cells) (h g : Heap Node) : Type 0 where
  pub gone : (a : Ptr) → has a xs ≡ true → g.cell a ≡ none
  pub same : (a : Ptr) → has a xs ≡ false → g.cell a ≡ h.cell a
  pub next : g.next ≡ h.next

Freed-cons :
    (p : Ptr) (e : Entry) (xs : Cells) (h g : Heap Node)
    → has p xs ≡ false
    → Freed xs (put_cell h p none) g
    → Freed ((p, e) ∷ xs) h g
Freed-cons p e xs h g out f = record {
  gone = λ a i. ground (arith, f.gone a, f.same a, write_self h.cell p none);
  same = λ a o. ground (arith, f.same a);
  next = f.next;
}

free_loop-Freed :
    (k : ℕ) (h : Heap Node) (xs : Cells)
    → IsSeg h.cell xs
    → length xs < k
    → (g : Heap Node) × (free_loop k (head_of xs) h ≡ ok tt g) × Freed xs h g
unfolding free_loop
free_loop-Freed zero h xs s fuel = absurd (omega arith)
free_loop-Freed (suc k) h [] s fuel =
    (h, refl, record { gone = λ a i. cc; same = λ a o. refl; next = refl })
free_loop-Freed (suc k) h ((p, e) ∷ xs) s fuel =
    let (g, run, f) =
      free_loop-Freed k (put_cell h p none) xs (IsSeg-write h.cell xs p none s.2 s.3)
        (omega arith) in
    (
      g,
      rw
          (
            ne_null p s.0,
            load-ok h p (node e (head_of xs)) s.0 s.1,
            delete-ok h p (node e (head_of xs)) s.0 s.1,
          )
          run,
      Freed-cons p e xs h g s.2 f,
    )

-- With fuel for every node `free` deletes all nodes of the list, leaves the list empty and touches
-- no other object.
pub free-Freed :
    {h : Heap Node} {l : NvList} {xs : Cells} (k : ℕ)
    → Holds h l xs
    → length xs < k
    → (g : Heap Node) × (free k l h ≡ ok init g) × Freed xs h g × Holds g init []
unfolding free
free-Freed {h} {xs} k is fuel =
    let (g, run, f) = free_loop-Freed k h xs is.chain fuel in
    (
      g,
      rw (is.head, run),
      f,
      record {
        head = refl;
        tail = refl;
        chain = tt;
        below = tt;
        some_next = rw f.next is.some_next;
      },
    )
