-- ===== src/Mysql/CursorList/Add.antt =====
-- `add` of mysql_cursorList (src/mysqlapi.h).
use dbsqlapi.Prelude.{
  ℕ, suc, ◌+◌, ◌<◌, ◌≡◌, ◌≢◌, refl, sym, ap, ◌∙◌, true, false, some, [], ◌∷◌, ◌++◌, arith, ◌==◌,
  ltb,
}
use dbsqlapi.Heap.{Ptr, null, Heap, ok, write, put_cell, alloc}
use dbsqlapi.Heap.Rules.{ne_null, write_ne, write_self, modify-ok}
use dbsqlapi.Mysql.CursorList.{ListNode, CursorList, add, int_max}
use dbsqlapi.Mysql.CursorList.Links.{Cells, node, has, has-apart}
use dbsqlapi.Mysql.CursorList.Holds.{has_handle, Holds}
use dbsqlapi.Mysql.CursorList.Del.{same_test}
use mathlib.Core.Option
use dbsqlapi.Mysql.CursorList.Place.{last_from-append, cell_at, has_last}
use dbsqlapi.Mysql.CursorList.Snoc.{
  ne_of_test, below_test, swap_test, not_has-Below, Below-snoc, has_handle-larger, IsNumbered-snoc,
  IsLinked-snoc,
}

-- What `add` leaves behind: a node with a new handle at the end of the list, and no other object touched.
pub record Added {D : Type 0} (h : Heap (ListNode D)) (l : CursorList) (xs : Cells D) (d : D)
    : Type 0 where
  pub heap : Heap (ListNode D)
  pub list : CursorList
  pub ran : add d l h ≡ ok (l.index + 1, list) heap
  pub holds : Holds heap list (xs ++ (h.next, l.index + 1, d) ∷ [])
  pub index : list.index ≡ l.index + 1
  pub unused : has_handle (l.index + 1) xs ≡ false
  pub same : (a : Ptr) → a < h.next → has a xs ≡ false → heap.cell a ≡ h.cell a

module _ {D : Type 0} (h : Heap (ListNode D)) (l : CursorList) (d : D) where
  abbrev made : ListNode D
  made = record { data_of = d; handle = 0; prev = null; next = null }

  abbrev p : Ptr
  p = h.next

  abbrev h1 : Heap (ListNode D)
  h1 = record { cell = write h.cell p (some made); next = suc p }

  -- The heap after the last two assignments, from one in which the node has the `prev` it keeps.
  abbrev finished : Heap (ListNode D) → Ptr → Heap (ListNode D)
  finished g q =
      put_cell (put_cell g p (some (node 0 d q null))) p (some (node (l.index + 1) d q null))

  add-first : l.index < int_max → Holds h l [] → Added h l [] d
  unfolding add alloc
  add-first room is =
      let counts : ltb l.index int_max ≡ true = ground (arith, room) in
      let ne : p ≢ null = omega (arith, is.some_next) in
      let empty : (l.head == null) ≡ true = ground (arith, is.head) in
      let h2 : Heap (ListNode D) = put_cell h1 p (some made) in
      record {
        heap = finished h2 null;
        list = record { head = p; tail = p; index = l.index + 1 };
        ran =
            rw (empty, counts)
              (rw (modify-ok h1 p made (λ n. record n { prev = null }) ne (write_self h.cell p _)) (
                rw (modify-ok h2 p made (λ n. record n { next = null }) ne (write_self h1.cell p _))
                  (rw (
                    modify-ok (put_cell h2 p (some made)) p made
                      (λ n. record n { handle = l.index + 1 }) ne (write_self h2.cell p _)))));
        holds = record {
          head = refl;
          tail = refl;
          chain = (ne, write_self (write h2.cell p (some made)) p _, refl, tt);
          below = (omega arith, tt);
          some_next = omega arith;
          numbered = (omega arith, refl, tt);
        };
        index = refl;
        unused = refl;
        same = λ a lt o. ground arith;
      }

  -- The nodes of the list after the assignments: all but the last are as before, and that one points to
  -- the new node.
  module _ (k : ListNode D) (t_p : l.tail ≢ p) (at_t : h.cell l.tail ≡ some k) where
    abbrev linked : Heap (ListNode D)
    linked = put_cell h1 l.tail (some (record k { next = p }))

    abbrev joined : Heap (ListNode D)
    joined = put_cell linked p (some (node 0 d l.tail null))

    joined_other :
        (a : Ptr)
        → (a == p) ≡ false
        → (a == l.tail) ≡ false
        → (finished joined l.tail).cell a ≡ h.cell a
    joined_other a a_p a_t = rw (a_p, a_t)

    joined_tail :
        (m : ListNode D)
        → h.cell l.tail ≡ some m
        → (finished joined l.tail).cell l.tail ≡ some (record m { next = p })
    joined_tail m e =
        let apart : (l.tail == p) ≡ false = ground arith in
        let self : (l.tail == l.tail) ≡ true = same_test refl in
        let same : Option.map {A = ListNode D} {B = ListNode D} (λ n. record n { next = p })
              (some k)
            ≡ Option.map {A = ListNode D} {B = ListNode D} (λ n. record n { next = p }) (some m) =
          ap (Option.map {A = ListNode D} {B = ListNode D} (λ n. record n { next = p }))
            (sym at_t ∙ e) in
        rw (apart, self) same

    joined-ran :
        (l.head == null) ≡ false
        → p ≢ null
        → l.tail ≢ null
        → l.index < int_max
        → add d l h
          ≡ ok
              (l.index + 1, record { head = l.head; tail = p; index = l.index + 1 })
              (finished joined l.tail)
    unfolding add alloc
    joined-ran full ne ne_t room =
        let counts : ltb l.index int_max ≡ true = ground (arith, room) in
        let at1 : h1.cell l.tail ≡ some k = write_ne h.cell p l.tail _ t_p ∙ at_t in
        let at2 : linked.cell p ≡ some made =
          write_ne h1.cell l.tail p _ (λ e. t_p (sym e)) ∙ write_self h.cell p _ in
        let last : Heap (ListNode D) = put_cell joined p (some (node 0 d l.tail null)) in
        rw (full, counts)
          (rw (modify-ok h1 l.tail k (λ n. record n { next = p }) ne_t at1) (
            rw (modify-ok linked p made (λ n. record n { prev = l.tail }) ne at2) (
              rw
                (modify-ok joined p (node 0 d l.tail null) (λ n. record n { next = null }) ne
                  (write_self linked.cell p _))
                (rw (
                  modify-ok last p (node 0 d l.tail null) (λ n. record n { handle = l.index + 1 })
                    ne (write_self joined.cell p _))))))

  add-after :
      (y j : ℕ) (f : D) (ys : Cells D)
      → l.index < int_max
      → Holds h l ((y, j, f) ∷ ys)
      → Added h l ((y, j, f) ∷ ys) d
  add-after y j f ys room is =
      let xs : Cells D = (y, j, f) ∷ ys in
      let ne : p ≢ null = omega (arith, is.some_next) in
      let full : (l.head == null) ≡ false = ground (arith, is.head, ne_null y is.chain.0) in
      let out : has p xs ≡ false = not_has-Below p xs is.below in
      let inside : has l.tail xs ≡ true = ap (λ a. has a xs) is.tail ∙ has_last null y j f ys in
      let apart : (l.tail == p) ≡ false = has-apart l.tail p xs inside out in
      let (ne_t, (k, at_t)) = cell_at h.cell null xs is.chain l.tail inside in
      let t_p : l.tail ≢ p = ne_of_test apart in
      let g : Heap (ListNode D) = finished (joined k t_p at_t) l.tail in
      record {
        heap = g;
        list = record { head = l.head; tail = p; index = l.index + 1 };
        ran = joined-ran k t_p at_t full ne ne_t room;
        holds = record {
          head = is.head;
          tail = sym (last_from-append null p (l.index + 1) d xs []);
          chain =
              IsLinked-snoc h.cell g.cell null p (l.index + 1) d xs is.chain ne out
                (write_self (write (joined k t_p at_t).cell p (some (node 0 d l.tail null))) p _
                  ∙ ap (λ q. some (node (l.index + 1) d q null)) is.tail)
                (λ a i o.
                  joined_other k t_p at_t a (has-apart a p xs i out) (ap (◌==◌ a) is.tail ∙ o))
                (λ m i e.
                  ap g.cell (sym is.tail) ∙ joined_tail k t_p at_t m (ap h.cell is.tail ∙ e));
          below = Below-snoc (suc p) p (l.index + 1) d xs is.below (omega arith);
          some_next = omega arith;
          numbered = IsNumbered-snoc l.index p d xs is.numbered;
        };
        index = refl;
        unused = has_handle-larger l.index (l.index + 1) xs is.numbered (omega arith);
        same = λ a lt o.
            joined_other k t_p at_t a (below_test lt)
              (swap_test l.tail a (has-apart l.tail a xs inside o));
      }

-- On a well-formed list whose counter is below INT_MAX `add` puts a node at the end, under a handle that no node of the list has,
-- and touches no other object.
pub add-Added :
    {D : Type 0} {h : Heap (ListNode D)} {l : CursorList} {xs : Cells D} (d : D)
    → Holds h l xs
    → l.index < int_max
    → Added h l xs d
add-Added {h} {l} {xs = []} d is room = add-first h l d room is
add-Added {h} {l} {xs = (y, j, f) ∷ ys} d is room = add-after h l d y j f ys room is
