-- ===== src/NameValue/Clean.antt =====
-- `clean` of src/namevalue.cpp.
use dbsqlapi.Prelude.{ℕ, zero, suc, ◌<◌, ◌≡◌, refl, ◌∙◌, false, none, some, [], ◌∷◌, arith, length}
use dbsqlapi.Heap.{Ptr, null, Heap, ok, put_cell}
use dbsqlapi.NameValue.{Node, NvList, clean_loop, clean}
use dbsqlapi.NameValue.Entries.{Entry, Cells, head_of, last_from, has}
use dbsqlapi.NameValue.Chain.{
  node, IsSeg, Below, Holds, SameOutside, IsSeg-write, load-ok, modify-ok, ne_null, write_self,
}

-- The entries with their values taken away.
abbrev pub cleared : Cells → Cells
cleared [] = []
cleared ((p, e) ∷ xs) = (p, record e { value = none }) ∷ cleared xs

head_of-cleared : (xs : Cells) → head_of (cleared xs) ≡ head_of xs
head_of-cleared [] = refl
head_of-cleared ((p, e) ∷ xs) = refl

last_from-cleared : (q : Ptr) (xs : Cells) → last_from q (cleared xs) ≡ last_from q xs
last_from-cleared q [] = refl
last_from-cleared q ((p, e) ∷ xs) = last_from-cleared p xs

has-cleared : (a : Ptr) (xs : Cells) → has a (cleared xs) ≡ has a xs
has-cleared a [] = refl
has-cleared a ((p, e) ∷ xs) = rw (has-cleared a xs)

Below-cleared : (n : Ptr) (xs : Cells) → Below n xs → Below n (cleared xs)
Below-cleared n [] b = tt
Below-cleared n ((p, e) ∷ xs) b = (b.0, Below-cleared n xs b.1)

record Cleaned (xs : Cells) (h g : Heap Node) : Type 0 where
  chain : IsSeg g.cell (cleared xs)
  same : (a : Ptr) → has a xs ≡ false → g.cell a ≡ h.cell a
  next : g.next ≡ h.next

clean_loop-Cleaned :
    (k : ℕ) (h : Heap Node) (xs : Cells)
    → IsSeg h.cell xs
    → length xs < k
    → (g : Heap Node) × (clean_loop k (head_of xs) h ≡ ok tt g) × Cleaned xs h g
unfolding clean_loop
clean_loop-Cleaned zero h xs s fuel = absurd (omega arith)
clean_loop-Cleaned (suc k) h [] s fuel =
    (h, refl, record { chain = tt; same = λ a o. refl; next = refl })
clean_loop-Cleaned (suc k) h ((p, e) ∷ xs) s fuel =
    let e' : Entry = record e { value = none } in
    let n' : Node = node e' (head_of xs) in
    let h1 : Heap Node = put_cell h p (some n') in
    let (g, run, c) =
      clean_loop-Cleaned k h1 xs (IsSeg-write h.cell xs p (some n') s.2 s.3) (omega arith) in
    (
      g,
      rw
          (
            ne_null p s.0,
            modify-ok h p (node e (head_of xs)) (λ n. record n { value = none }) s.0 s.1,
          )
          (rw (load-ok h1 p n' s.0 (write_self h.cell p (some n'))) run),
      record {
        chain = (
          s.0,
          rw (head_of-cleared xs) (c.same p s.2 ∙ write_self h.cell p (some n')),
          has-cleared p xs ∙ s.2,
          c.chain,
        );
        same = λ a o. ground (arith, c.same a);
        next = c.next;
      },
    )

-- With fuel for every node `clean` takes every value away, keeps names, types and order, and
-- touches no other object.
pub clean-cleared :
    {h : Heap Node} {l : NvList} {xs : Cells} (k : ℕ)
    → Holds h l xs
    → length xs < k
    → (g : Heap Node) × (clean k l h ≡ ok tt g)
      × Holds g l (cleared xs)
      × (g.next ≡ h.next)
      × SameOutside xs h.next h.cell g.cell
unfolding clean
clean-cleared {h} {xs} k is fuel =
    let (g, run, c) = clean_loop-Cleaned k h xs is.chain fuel in
    (
      g,
      rw (is.head, run),
      record {
        head = rw (head_of-cleared xs) is.head;
        tail = rw (last_from-cleared null xs) is.tail;
        chain = c.chain;
        below = rw c.next (Below-cleared h.next xs is.below);
        some_next = rw c.next is.some_next;
      },
      c.next,
      λ a o b. c.same a o,
    )
