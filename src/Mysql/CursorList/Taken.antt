-- ===== src/Mysql/CursorList/Taken.antt =====
-- The list of src/mysqlapi.h once a node is taken out.
use mathlib.Core.List.{append-nil}
use mathlib.Core.Bool.{false≢true}
use dbsqlapi.Prelude.{
  ℕ, ◌≡◌, ◌≢◌, sym, ◌∙◌, inl, inr, false, [], ◌∷◌, ◌++◌, arith, ◌==◌, if◌then◌else◌, Bool-cases,
}
use dbsqlapi.Heap.{Ptr, null, Heap}
use dbsqlapi.Mysql.CursorList.{ListNode, CursorList}
use dbsqlapi.Mysql.CursorList.Links.{
  Cells, head_of, last_from, has, IsLinked, IsLinked-frame, null-not_has, has-append, has-apart,
  unlinked, unlinked-IsLinked, relinked_other, apart-head_of,
}
use dbsqlapi.Mysql.CursorList.Unlink.{TakenOut}
use dbsqlapi.Mysql.CursorList.Place.{last_from-append, has-once, has_last, found_at}

module _ {D : Type 0} where
  module _ (h : Heap (ListNode D)) (l : CursorList) (p i : ℕ) (d : D) where
    pub head-taken :
        (ys zs : Cells D)
        → l.head ≡ head_of (ys ++ (p, i, d) ∷ zs)
        → has p (ys ++ zs) ≡ false
        → (if p == l.head then head_of zs else l.head) ≡ head_of (ys ++ zs)
    head-taken [] zs e out = ground arith
    head-taken ((y, j, f) ∷ ys) zs e out = ground arith

    pub tail-taken :
        (ys zs : Cells D)
        → l.tail ≡ last_from p zs
        → has p zs ≡ false
        → (if p == l.tail then last_from null ys else l.tail) ≡ last_from null (ys ++ zs)
    tail-taken ys [] e out = rw (append-nil ys) (ground arith)
    tail-taken ys ((z, j, f) ∷ zs) e out =
        rw (last_from-append null z j f ys zs)
          (ground (arith, has-apart (last_from z zs) p ((z, j, f) ∷ zs) (has_last p z j f zs) out))

    pub chain-taken :
        (ys zs : Cells D) (t : TakenOut h l p (last_from null ys) (head_of zs))
        → IsLinked h.cell null (ys ++ (p, i, d) ∷ zs)
        → IsLinked t.heap.cell null (ys ++ zs)
    chain-taken ys zs t s =
        let no_null = null-not_has h.cell null (ys ++ (p, i, d) ∷ zs) s in
        IsLinked-frame (unlinked (last_from null ys) p (head_of zs) h.cell) t.heap.cell null
          (ys ++ zs)
          (λ a j. t.cells a (
            ground (
              arith,
              no_null,
              has-apart a null (ys ++ zs) j,
              has-append null ys ((p, i, d) ∷ zs),
              has-append null ys zs,
            )))
          (unlinked-IsLinked h.cell null ys p i d zs no_null s)

    pub not_has-taken :
        (ys zs : Cells D) → IsLinked h.cell null (ys ++ (p, i, d) ∷ zs) → has p (ys ++ zs) ≡ false
    not_has-taken ys zs s =
        let found = found_at h.cell null p i d ys zs s in
        let once = has-once h.cell null ys ((p, i, d) ∷ zs) s p in
        elim (Bool-cases (has p ys)) [
          | inl inside ↦ absurd (false≢true (sym (once inside) ∙ ground arith))
          | inr outside ↦ ground (arith, has-append p ys zs, found.2)
        ]

    apart-last :
        (ys : Cells D) (a : Ptr) → a ≢ null → has a ys ≡ false → (a == last_from null ys) ≡ false
    apart-last [] a ne o = ground arith
    apart-last ((y, j, f) ∷ ys) a ne o =
        ground (arith, has-apart (last_from y ys) a ((y, j, f) ∷ ys) (has_last null y j f ys) o)

    pub same-taken :
        (ys zs : Cells D) (t : TakenOut h l p (last_from null ys) (head_of zs)) (a : Ptr)
        → a ≢ null
        → has a (ys ++ (p, i, d) ∷ zs) ≡ false
        → t.heap.cell a ≡ h.cell a
    same-taken ys zs t a ne out =
        let parts = has-append a ys ((p, i, d) ∷ zs) in
        t.cells a ne
        ∙ relinked_other (last_from null ys) p (head_of zs) a (h.cell a) (ground (arith, parts))
            (apart-last ys a ne (ground (arith, parts)))
            (apart-head_of a zs ne (ground (arith, parts)))
