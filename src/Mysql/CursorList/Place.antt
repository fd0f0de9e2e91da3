-- ===== src/Mysql/CursorList/Place.antt =====
-- Where a node stands in a mysql_cursorList of src/mysqlapi.h.
use mathlib.Core.List.{append-nil}
use dbsqlapi.Prelude.{
  ℕ, ◌≡◌, ◌≢◌, refl, sym, ap, ◌∙◌, ◌⊎◌, inl, inr, true, false, Option, some, [], ◌∷◌, ◌++◌, arith,
  ◌==◌, Bool-cases,
}
use dbsqlapi.Heap.{Ptr, null, Heap}
use dbsqlapi.Mysql.CursorList.{ListNode, CursorList}
use dbsqlapi.Mysql.CursorList.Links.{
  Cells, node, head_of, last_from, has, IsLinked, has-append, has-apart, has-last_from,
}
use dbsqlapi.Mysql.CursorList.Unlink.{Place}

module _ {D : Type 0} where
  pub last_from-append :
      (q p i : ℕ) (d : D) (ys zs : Cells D) → last_from q (ys ++ (p, i, d) ∷ zs) ≡ last_from p zs
  last_from-append q p i d [] zs = refl
  last_from-append q p i d ((y, j, e) ∷ ys) zs = last_from-append y p i d ys zs

  -- A cell is in one part of the list only.
  pub has-once :
      (c : Ptr → Option (ListNode D)) (q : Ptr) (ys xs : Cells D)
      → IsLinked c q (ys ++ xs)
      → (a : Ptr) → has a ys ≡ true
      → has a xs ≡ false
  has-once c q [] xs s a i = cc
  has-once c q ((y, j, e) ∷ ys) xs s a i = elim (Bool-cases (a == y)) [
    | inl here ↦
        let same : a ≡ y = ground arith in
        let out : has y xs ≡ false = ground (arith, s.2, has-append y ys xs) in rw same out
    | inr later ↦ has-once c y ys xs s.3 a (ground arith)
  ]

  pub cell_at :
      (c : Ptr → Option (ListNode D)) (q : Ptr) (xs : Cells D)
      → IsLinked c q xs
      → (a : Ptr) → has a xs ≡ true
      → (a ≢ null) × ((k : ListNode D) × (c a ≡ some k))
  cell_at c q [] s a i = cc
  cell_at c q ((p, j, d) ∷ xs) s a i = elim (Bool-cases (a == p)) [
    | inl here ↦ let same : a ≡ p = ground arith in rw same (s.0, (node j d q (head_of xs), s.1))
    | inr later ↦ cell_at c p xs s.3 a (ground arith)
  ]

  pub found_at :
      (c : Ptr → Option (ListNode D)) (q p i : ℕ) (d : D) (ys zs : Cells D)
      → IsLinked c q (ys ++ (p, i, d) ∷ zs)
      → (p ≢ null) × (c p ≡ some (node i d (last_from q ys) (head_of zs))) × (has p zs ≡ false)
  found_at c q p i d [] zs s = (s.0, s.1, s.2)
  found_at c q p i d ((y, j, e) ∷ ys) zs s = found_at c y p i d ys zs s.3

  pub has_last :
      (p : Ptr) (y j : ℕ) (e : D) (ys : Cells D)
      → has (last_from p ((y, j, e) ∷ ys)) ((y, j, e) ∷ ys) ≡ true
  has_last p y j e ys =
      ap (has (last_from y ys)) (sym (append-nil ((y, j, e) ∷ ys))) ∙ has-last_from p y j e ys []

  module _ (h : Heap (ListNode D)) (l : CursorList) (p i : ℕ) (d : D) where
    place-before :
        (ys zs : Cells D)
        → IsLinked h.cell null (ys ++ (p, i, d) ∷ zs)
        → l.head ≡ head_of (ys ++ (p, i, d) ∷ zs)
        → ((l.head ≡ p) × (last_from null ys ≡ null))
          ⊎ (((p == l.head) ≡ false)
              × (last_from null ys ≢ null)
              × (last_from null ys ≢ p)
              × ((k : ListNode D) × (h.cell (last_from null ys) ≡ some k)))
    place-before [] zs s e = inl (e, refl)
    place-before ((y, j, f) ∷ ys) zs s e =
        let inside = has_last null y j f ys in
        let found =
          cell_at h.cell null (((y, j, f) ∷ ys) ++ (p, i, d) ∷ zs) s (last_from y ys) (
            ground
              (arith, has-append (last_from y ys) ((y, j, f) ∷ ys) ((p, i, d) ∷ zs), inside)) in
        let out = has-once h.cell null ((y, j, f) ∷ ys) ((p, i, d) ∷ zs) s in
        inr (ground (arith, out y), found.0, ground (arith, out (last_from y ys) inside), found.1)

    next_ne_prev :
        (ys : Cells D) (z j : ℕ) (f : D) (zs : Cells D)
        → IsLinked h.cell null (ys ++ (p, i, d) ∷ (z, j, f) ∷ zs)
        → z ≢ null
        → z ≢ last_from null ys
    next_ne_prev [] z j f zs s ne = ne
    next_ne_prev ((y, k, g) ∷ ys) z j f zs s ne =
        let out = has-once h.cell null ((y, k, g) ∷ ys) ((p, i, d) ∷ (z, j, f) ∷ zs) s in
        ground (arith, out (last_from y ys) (has_last null y k g ys))

    place-after :
        (ys zs : Cells D)
        → IsLinked h.cell null (ys ++ (p, i, d) ∷ zs)
        → l.tail ≡ last_from null (ys ++ (p, i, d) ∷ zs)
        → ((l.tail ≡ p) × (head_of zs ≡ null))
          ⊎ (((p == l.tail) ≡ false)
              × (head_of zs ≢ null)
              × (head_of zs ≢ p)
              × (head_of zs ≢ last_from null ys)
              × ((k : ListNode D) × (h.cell (head_of zs) ≡ some k)))
    place-after ys [] s e = inl (e ∙ last_from-append null p i d ys [], refl)
    place-after ys ((z, j, f) ∷ zs) s e =
        let found = found_at h.cell null p i d ys ((z, j, f) ∷ zs) s in
        let last : l.tail ≡ last_from z zs = e ∙ last_from-append null p i d ys ((z, j, f) ∷ zs) in
        let inside = has_last p z j f zs in
        let at_z =
          cell_at h.cell null (ys ++ (p, i, d) ∷ (z, j, f) ∷ zs) s z
            (ground (arith, has-append z ys ((p, i, d) ∷ (z, j, f) ∷ zs))) in
        inr (
          ground (arith, last, has-apart (last_from z zs) p ((z, j, f) ∷ zs) inside found.2),
          at_z.0,
          ground (arith, found.2),
          next_ne_prev ys z j f zs s at_z.0,
          at_z.1,
        )

    pub place :
        (ys zs : Cells D)
        → IsLinked h.cell null (ys ++ (p, i, d) ∷ zs)
        → l.head ≡ head_of (ys ++ (p, i, d) ∷ zs)
        → l.tail ≡ last_from null (ys ++ (p, i, d) ∷ zs)
        → Place h l p (last_from null ys) (head_of zs) (node i d (last_from null ys) (head_of zs))
    place ys zs s e t =
        let found = found_at h.cell null p i d ys zs s in
        record {
          not_null = found.0;
          at = found.1;
          prev = refl;
          next = refl;
          before = place-before ys zs s e;
          after = place-after ys zs s t;
        }
