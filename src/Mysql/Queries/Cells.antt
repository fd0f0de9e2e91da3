-- ===== src/Mysql/Queries/Cells.antt =====
-- A list of cursors whose cursor at one cell has changed (src/mysqlapi.h).
use dbsqlapi.Prelude.{ℕ, ◌≡◌, refl, sym, ap, ◌∙◌, false, Option, some, [], ◌∷◌, ◌++◌, arith, ◌==◌}
use dbsqlapi.Heap.{Ptr, null, Heap, write, put_cell}
use dbsqlapi.Heap.Rules.{write_ne, write_self}
use dbsqlapi.Mysql.CursorList.{ListNode, CursorList}
use dbsqlapi.Mysql.CursorList.Links.{
  Cells, node, head_of, last_from, has, IsLinked, IsLinked-frame, has-apart, has-append,
}
use dbsqlapi.Mysql.CursorList.Snoc.{ne_of_test}
use dbsqlapi.Mysql.CursorList.Place.{last_from-append}
use dbsqlapi.Mysql.CursorList.Holds.{Below, has_handle, IsNumbered, Holds}

module _ {D : Type 0} (p i : ℕ) (d e : D) where
  head_of-changed :
      (ys zs : Cells D) → head_of (ys ++ (p, i, e) ∷ zs) ≡ head_of (ys ++ (p, i, d) ∷ zs)
  head_of-changed [] zs = refl
  head_of-changed ((y, j, f) ∷ ys) zs = refl

  has-changed :
      (a : Ptr) (ys zs : Cells D) → has a (ys ++ (p, i, e) ∷ zs) ≡ has a (ys ++ (p, i, d) ∷ zs)
  has-changed a [] zs = refl
  has-changed a ((y, j, f) ∷ ys) zs = rw (has-changed a ys zs)

  Below-changed :
      (n : Ptr) (ys zs : Cells D) → Below n (ys ++ (p, i, d) ∷ zs) → Below n (ys ++ (p, i, e) ∷ zs)
  Below-changed n [] zs b = b
  Below-changed n ((y, j, f) ∷ ys) zs b = (b.0, Below-changed n ys zs b.1)

  has_handle-changed :
      (s : ℕ) (ys zs : Cells D)
      → has_handle s (ys ++ (p, i, e) ∷ zs) ≡ has_handle s (ys ++ (p, i, d) ∷ zs)
  has_handle-changed s [] zs = refl
  has_handle-changed s ((y, j, f) ∷ ys) zs = rw (has_handle-changed s ys zs)

  IsNumbered-changed :
      (n : ℕ) (ys zs : Cells D)
      → IsNumbered n (ys ++ (p, i, d) ∷ zs)
      → IsNumbered n (ys ++ (p, i, e) ∷ zs)
  IsNumbered-changed n [] zs b = b
  IsNumbered-changed n ((y, j, f) ∷ ys) zs b =
      (b.0, has_handle-changed j ys zs ∙ b.1, IsNumbered-changed n ys zs b.2)

  not_same : (y : Ptr) (ys zs : Cells D) → has y (ys ++ (p, i, d) ∷ zs) ≡ false → (y == p) ≡ false
  not_same y ys zs o = ground (arith, has-append y ys ((p, i, d) ∷ zs))

  last_from-changed :
      (q : Ptr) (ys zs : Cells D)
      → last_from q (ys ++ (p, i, e) ∷ zs) ≡ last_from q (ys ++ (p, i, d) ∷ zs)
  last_from-changed q ys zs = last_from-append q p i e ys zs ∙ sym (last_from-append q p i d ys zs)

  IsLinked-changed :
      (c : Ptr → Option (ListNode D)) (q : Ptr) (ys zs : Cells D)
      → IsLinked c q (ys ++ (p, i, d) ∷ zs)
      → IsLinked
          (write c p (some (node i e (last_from q ys) (head_of zs))))
          q
          (ys ++ (p, i, e) ∷ zs)
  IsLinked-changed c q [] zs s = (
    s.0,
    write_self c p _,
    s.2,
    IsLinked-frame c (write c p (some (node i e q (head_of zs)))) p zs
        (λ a h. write_ne c p a _ (ne_of_test (has-apart a p zs h s.2))) s.3,
  )
  IsLinked-changed c q ((y, j, f) ∷ ys) zs s = (
    s.0,
    write_ne c p y _ (ne_of_test (not_same y ys zs s.2))
        ∙ s.1
        ∙ ap (λ n. some (node j f q n)) (sym (head_of-changed ys zs)),
    has-changed y ys zs ∙ s.2,
    IsLinked-changed c y ys zs s.3,
  )

-- The node of one cell gets another cursor.
pub Holds-changed :
    {D : Type 0} {h : Heap (ListNode D)} {l : CursorList} (p i : ℕ) (d e : D) (ys zs : Cells D)
    → Holds h l (ys ++ (p, i, d) ∷ zs)
    → Holds
        (put_cell h p (some (node i e (last_from null ys) (head_of zs))))
        l
        (ys ++ (p, i, e) ∷ zs)
Holds-changed {h} {l} p i d e ys zs is = record {
  head = is.head ∙ sym (head_of-changed p i d e ys zs);
  tail = is.tail ∙ sym (last_from-changed p i d e null ys zs);
  chain = IsLinked-changed p i d e h.cell null ys zs is.chain;
  below = Below-changed p i d e h.next ys zs is.below;
  some_next = is.some_next;
  numbered = IsNumbered-changed p i d e l.index ys zs is.numbered;
}
