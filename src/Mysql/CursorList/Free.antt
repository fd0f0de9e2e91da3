-- ===== src/Mysql/CursorList/Free.antt =====
-- `free` of mysql_cursorList (src/mysqlapi.h), which the destructor calls too.
use dbsqlapi.Prelude.{
  ℕ, zero, suc, ◌<◌, ◌≡◌, ◌≢◌, refl, ap, ◌∙◌, inl, inr, true, false, none, [], ◌∷◌, pos, arith,
  ◌==◌, length, Bool-cases,
}
use dbsqlapi.Heap.{Ptr, null, Heap, ok}
use dbsqlapi.Heap.Rules.{ne_null, load-ok}
use dbsqlapi.Mysql.CursorList.{ListNode, CursorList, del, free_loop, free}
use dbsqlapi.Mysql.CursorList.Links.{Cells, node, head_of, has}
use dbsqlapi.Mysql.CursorList.Holds.{Holds}
use dbsqlapi.Mysql.CursorList.Del.{del-Removed, same_test}

-- The nodes of `xs` are deleted, and no other object is touched.
pub record CursorsFreed {D : Type 0} (xs : Cells D) (h g : Heap (ListNode D)) : Type 0 where
  pub gone : (a : Ptr) → a ≢ null → has a xs ≡ true → g.cell a ≡ none
  pub same : (a : Ptr) → a ≢ null → has a xs ≡ false → g.cell a ≡ h.cell a
  pub next : g.next ≡ h.next

module _ {D : Type 0} where
  -- `del` with the handle of the first cell.
  first-Removed :
      {h : Heap (ListNode D)} {l : CursorList} (p i : ℕ) (d : D) (xs : Cells D) (m : ℕ)
      → Holds h l ((p, i, d) ∷ xs)
      → suc (length xs) < m
      → (g : Heap (ListNode D)) × (l' : CursorList) × (del m l i h ≡ ok (pos 0, l') g)
        × Holds g l' xs
        × (g.cell p ≡ none)
        × (l'.index ≡ l.index)
        × (g.next ≡ h.next)
        × ((a : Ptr) → a ≢ null → has a ((p, i, d) ∷ xs) ≡ false → g.cell a ≡ h.cell a)
  first-Removed {h} {l} p i d xs m is fuel =
      let r = del-Removed is m fuel i in
      let self : (i == i) ≡ true = same_test refl in
      let there : (p == null) ≡ false = ne_null p is.chain.0 in
      (
        r.heap,
        r.list,
        (rw (self, there) at r.ran),
        (rw self at r.holds),
        (rw self at r.gone) is.chain.0,
        r.index,
        r.next,
        r.same,
      )

  CursorsFreed-cons :
      (p i : ℕ) (d : D) (xs : Cells D) (h g f : Heap (ListNode D))
      → has p xs ≡ false
      → g.cell p ≡ none
      → g.next ≡ h.next
      → ((a : Ptr) → a ≢ null → has a ((p, i, d) ∷ xs) ≡ false → g.cell a ≡ h.cell a)
      → CursorsFreed xs g f
      → CursorsFreed ((p, i, d) ∷ xs) h f
  CursorsFreed-cons p i d xs h g f out gone next same r = record {
    gone = λ a ne j. elim (Bool-cases (a == p)) [
      | inl here ↦
          let is_p : a ≡ p = ground arith in
          let out_a : has a xs ≡ false = rw is_p out in r.same a ne out_a ∙ ap g.cell is_p ∙ gone
      | inr other ↦ r.gone a ne (ground arith)
    ];
    same = λ a ne o. r.same a ne (ground arith) ∙ same a ne o;
    next = r.next ∙ next;
  }

  free_loop-CursorsFreed :
      (m k : ℕ) (h : Heap (ListNode D)) (l : CursorList) (xs : Cells D)
      → Holds h l xs
      → length xs < m
      → length xs < k
      → (g : Heap (ListNode D)) × (l' : CursorList) × (free_loop m k l (head_of xs) h ≡ ok l' g)
        × CursorsFreed xs h g
        × (l'.index ≡ l.index)
  unfolding free_loop
  free_loop-CursorsFreed m zero h l xs is fuel_m fuel = absurd (omega arith)
  free_loop-CursorsFreed m (suc k) h l [] is fuel_m fuel =
      (h, l, refl, record { gone = λ a ne i. cc; same = λ a ne o. refl; next = refl }, refl)
  free_loop-CursorsFreed m (suc k) h l ((p, i, d) ∷ xs) is fuel_m fuel =
      let (g, l', ran, holds, gone, index, next, same) = first-Removed p i d xs m is fuel_m in
      let (f, l'', ran', freed, index') =
        free_loop-CursorsFreed m k g l' xs holds (omega arith) (omega arith) in
      (
        f,
        l'',
        rw (ne_null p is.chain.0, load-ok h p (node i d null (head_of xs)) is.chain.0 is.chain.1)
            (rw ran ran'),
        CursorsFreed-cons p i d xs h g f is.chain.2 gone next same freed,
        index' ∙ index,
      )

-- With fuel for every node `free` deletes all nodes of the list, each by `del`, touches no other object,
-- and leaves an empty list whose counter goes on from where it was.
pub free-CursorsFreed :
    {D : Type 0} {h : Heap (ListNode D)} {l : CursorList} {xs : Cells D} (k : ℕ)
    → Holds h l xs
    → length xs < k
    → (g : Heap (ListNode D)) × (free k l h
        ≡ ok (record { head = null; tail = null; index = l.index }) g)
      × CursorsFreed xs h g
      × Holds {D = D} g (record { head = null; tail = null; index = l.index }) []
unfolding free
free-CursorsFreed {h} {l} {xs} k is fuel =
    let (g, l', ran, freed, index) = free_loop-CursorsFreed k k h l xs is fuel fuel in
    let from_head : free_loop k k l l.head h ≡ ok l' g =
      ap (λ q. free_loop k k l q h) is.head ∙ ran in
    (
      g,
      rw from_head (ap (λ n. ok (record { head = null; tail = null; index = n }) g) index),
      freed,
      record {
        head = refl;
        tail = refl;
        chain = tt;
        below = tt;
        some_next = rw freed.next is.some_next;
        numbered = tt;
      },
    )
