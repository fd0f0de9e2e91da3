-- ===== src/Mysql/CursorList/Unlink.antt =====
-- What the tests and assignments of `del` of src/mysqlapi.h do to the nodes around the one that goes.
use dbsqlapi.Prelude.{
  ◌≡◌, ◌≢◌, refl, sym, ap, ◌∙◌, ◌⊎◌, inl, inr, true, false, none, some, arith, ◌==◌, if◌then◌else◌,
}
use dbsqlapi.Heap.{Ptr, null, Heap, ok, write, put_cell}
use dbsqlapi.Heap.Rules.{write_ne, write_self, load-ok, modify-ok, delete-ok}
use dbsqlapi.Mysql.CursorList.{ListNode, CursorList, unlink_head, unlink_tail, take_out}
use dbsqlapi.Mysql.CursorList.Rewire.{cells-unlinked}
use dbsqlapi.Mysql.CursorList.Links.{unlinked}

-- The node at `p` in a list, whose neighbours are `b` before and `n` after it, or NULL.
pub record Place {D : Type 0} (h : Heap (ListNode D)) (l : CursorList) (p b n : Ptr)
    (m : ListNode D) : Type 0 where
  pub not_null : p ≢ null
  pub at : h.cell p ≡ some m
  pub prev : m.prev ≡ b
  pub next : m.next ≡ n
  pub before :
      (l.head ≡ p) × (b ≡ null)
      ⊎ ((p == l.head) ≡ false) × (b ≢ null) × (b ≢ p) × ((k : ListNode D) × (h.cell b ≡ some k))
  pub after :
      (l.tail ≡ p) × (n ≡ null)
      ⊎ ((p == l.tail) ≡ false)
        × (n ≢ null)
        × (n ≢ p)
        × (n ≢ b)
        × ((k : ListNode D) × (h.cell n ≡ some k))

-- The node is gone, its neighbours point to each other, and the list object to the new ends.
pub record TakenOut {D : Type 0} (h : Heap (ListNode D)) (l : CursorList) (p b n : Ptr)
    : Type 0 where
  pub heap : Heap (ListNode D)
  pub list : CursorList
  pub ran : take_out p l h ≡ ok list heap
  pub head : list.head ≡ (if p == l.head then n else l.head)
  pub tail : list.tail ≡ (if p == l.tail then b else l.tail)
  pub index : list.index ≡ l.index
  pub cells : (a : Ptr) → a ≢ null → heap.cell a ≡ unlinked b p n h.cell a
  pub heap_next : heap.next ≡ h.next

module _ {D : Type 0} (g : Heap (ListNode D)) (l : CursorList) {p b n : Ptr} {m : ListNode D}
    (ne : p ≢ null) (at : g.cell p ≡ some m) (prev : m.prev ≡ b) (next : m.next ≡ n) where
  unlink_head-first : l.head ≡ p → unlink_head p l g ≡ ok (record l { head = n }) g
  unfolding unlink_head
  unlink_head-first e =
      let test : (p == l.head) ≡ true = ground arith in
      rw (test, e) (rw (load-ok g p m ne at) (ap (λ x. ok (record l { head = x }) g) next))

  unlink_head-inner :
      (k : ListNode D)
      → (p == l.head) ≡ false
      → b ≢ null
      → g.cell b ≡ some k
      → unlink_head p l g ≡ ok l (put_cell g b (some (record k { next = n })))
  unfolding unlink_head
  unlink_head-inner k test ne_b at_b =
      rw (test, load-ok g p m ne at, prev, next)
        (rw (modify-ok g b k (λ x. record x { next = n }) ne_b at_b))

  unlink_tail-last : l.tail ≡ p → unlink_tail p l g ≡ ok (record l { tail = b }) g
  unfolding unlink_tail
  unlink_tail-last e =
      let test : (p == l.tail) ≡ true = ground arith in
      rw (test, e) (rw (load-ok g p m ne at) (ap (λ x. ok (record l { tail = x }) g) prev))

  unlink_tail-inner :
      (k : ListNode D)
      → (p == l.tail) ≡ false
      → n ≢ null
      → g.cell n ≡ some k
      → unlink_tail p l g ≡ ok l (put_cell g n (some (record k { prev = b })))
  unfolding unlink_tail
  unlink_tail-inner k test ne_n at_n =
      rw (test, load-ok g p m ne at, prev, next)
        (rw (modify-ok g n k (λ x. record x { prev = b }) ne_n at_n))

module _ {D : Type 0} {h : Heap (ListNode D)} {l : CursorList} {p b n : Ptr} {m : ListNode D}
    (s : Place h l p b n m) where
  take_out-only : l.head ≡ p → b ≡ null → l.tail ≡ p → n ≡ null → TakenOut h l p b n
  unfolding take_out
  take_out-only first no_b last no_n = record {
    heap = put_cell h p none;
    list = record l { head = n; tail = b };
    ran = rw (unlink_head-first h l s.not_null s.at s.prev s.next first) (
        rw (unlink_tail-last h (record l { head = n }) s.not_null s.at s.prev s.next last)
          (rw (delete-ok h p m s.not_null s.at)));
    head = ground arith;
    tail = ground arith;
    index = refl;
    cells =
        cells-unlinked h.cell (write h.cell p none) b p n (write_self h.cell p none) (inl no_b)
          (inl no_n) (λ a a_p a_b a_n. ground arith);
    heap_next = refl;
  }

  take_out-first :
      (k : ListNode D)
      → l.head ≡ p
      → b ≡ null
      → (p == l.tail) ≡ false
      → n ≢ null
      → n ≢ p
      → h.cell n ≡ some k
      → TakenOut h l p b n
  unfolding take_out
  take_out-first k first no_b not_last ne_n n_p at_n =
      let h1 : Heap (ListNode D) = put_cell h n (some (record k { prev = b })) in
      let at_p : h1.cell p ≡ some m = write_ne h.cell n p _ (λ e. n_p (sym e)) ∙ s.at in
      record {
        heap = put_cell h1 p none;
        list = record l { head = n };
        ran = rw (unlink_head-first h l s.not_null s.at s.prev s.next first) (
            rw
              (unlink_tail-inner h (record l { head = n }) s.not_null s.at s.prev s.next k not_last
                ne_n at_n)
              (rw (delete-ok h1 p m s.not_null at_p)));
        head = ground arith;
        tail = ground arith;
        index = refl;
        cells =
            cells-unlinked h.cell (write h1.cell p none) b p n (write_self h1.cell p none)
              (inl no_b) (inr (k, at_n, write_ne h1.cell p n none n_p ∙ write_self h.cell n _))
              (λ a a_p a_b a_n. ground arith);
        heap_next = refl;
      }

  module _ (j : ListNode D) (not_first : (p == l.head) ≡ false) (ne_b : b ≢ null) (b_p : b ≢ p)
      (at_b : h.cell b ≡ some j) where
    abbrev linked_before : Heap (ListNode D)
    linked_before = put_cell h b (some (record j { next = n }))

    at_p : linked_before.cell p ≡ some m
    at_p = write_ne h.cell b p _ (λ e. b_p (sym e)) ∙ s.at

    take_out-last : l.tail ≡ p → n ≡ null → TakenOut h l p b n
    unfolding take_out
    take_out-last last no_n = record {
      heap = put_cell linked_before p none;
      list = record l { tail = b };
      ran = rw (unlink_head-inner h l s.not_null s.at s.prev s.next j not_first ne_b at_b) (
          rw (unlink_tail-last linked_before l s.not_null at_p s.prev s.next last)
            (rw (delete-ok linked_before p m s.not_null at_p)));
      head = ground arith;
      tail = ground arith;
      index = refl;
      cells =
          cells-unlinked h.cell (write linked_before.cell p none) b p n
            (write_self linked_before.cell p none)
            (inr (j, at_b, write_ne linked_before.cell p b none b_p ∙ write_self h.cell b _))
            (inl no_n) (λ a a_p a_b a_n. ground arith);
      heap_next = refl;
    }

    take_out-inner :
        (k : ListNode D)
        → (p == l.tail) ≡ false
        → n ≢ null
        → n ≢ p
        → n ≢ b
        → h.cell n ≡ some k
        → TakenOut h l p b n
    unfolding take_out
    take_out-inner k not_last ne_n n_p n_b at_n =
        let h1 : Heap (ListNode D) = linked_before in
        let at_n1 : h1.cell n ≡ some k = write_ne h.cell b n _ n_b ∙ at_n in
        let h2 : Heap (ListNode D) = put_cell h1 n (some (record k { prev = b })) in
        let at_p2 : h2.cell p ≡ some m = write_ne h1.cell n p _ (λ e. n_p (sym e)) ∙ at_p in
        record {
          heap = put_cell h2 p none;
          list = l;
          ran = rw (unlink_head-inner h l s.not_null s.at s.prev s.next j not_first ne_b at_b) (
              rw (unlink_tail-inner h1 l s.not_null at_p s.prev s.next k not_last ne_n at_n1)
                (rw (delete-ok h2 p m s.not_null at_p2)));
          head = ground arith;
          tail = ground arith;
          index = refl;
          cells =
              cells-unlinked h.cell (write h2.cell p none) b p n (write_self h2.cell p none)
                (inr (
                  j,
                  at_b,
                  write_ne h2.cell p b none b_p
                      ∙ write_ne h1.cell n b _ (λ e. n_b (sym e))
                      ∙ write_self h.cell b _,
                ))
                (inr (k, at_n, write_ne h2.cell p n none n_p ∙ write_self h1.cell n _))
                (λ a a_p a_b a_n. ground arith);
          heap_next = refl;
        }

  pub take_out-TakenOut : TakenOut h l p b n
  take_out-TakenOut = elim s.before [
    | inl (first, no_b) ↦ elim s.after [
      | inl (last, no_n) ↦ take_out-only first no_b last no_n
      | inr (not_last, ne_n, n_p, n_b, (k, at_n)) ↦
          take_out-first k first no_b not_last ne_n n_p at_n
    ]
    | inr (not_first, ne_b, b_p, (j, at_b)) ↦ elim s.after [
      | inl (last, no_n) ↦ take_out-last j not_first ne_b b_p at_b last no_n
      | inr (not_last, ne_n, n_p, n_b, (k, at_n)) ↦
          take_out-inner j not_first ne_b b_p at_b k not_last ne_n n_p n_b at_n
    ]
  ]
