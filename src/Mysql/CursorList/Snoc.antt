-- ===== src/Mysql/CursorList/Snoc.antt =====
-- A mysql_cursorList of src/mysqlapi.h with one more cell at the end.
use dbsqlapi.Prelude.{
  ℕ, ◌+◌, ◌<◌, ◌≡◌, ◌≢◌, refl, ◌∙◌, true, false, Option, some, [], ◌∷◌, ◌++◌, arith, ◌==◌,
}
use dbsqlapi.Heap.{Ptr, null}
use dbsqlapi.Mysql.CursorList.{ListNode}
use dbsqlapi.Mysql.CursorList.Links.{Cells, node, last_from, has, IsLinked, has-apart}
use dbsqlapi.Mysql.CursorList.Holds.{Below, IsNumbered, has_handle}
use dbsqlapi.Mysql.CursorList.Place.{has_last}

pub ne_of_test : {a b : ℕ} → (a == b) ≡ false → a ≢ b
ne_of_test e = ground arith

pub below_test : {a b : ℕ} → a < b → (a == b) ≡ false
below_test lt = ground arith

pub swap_test : (a b : ℕ) → (a == b) ≡ false → (b == a) ≡ false
swap_test a b e = ground arith

module _ {D : Type 0} where
  pub not_has-Below : (n : Ptr) (xs : Cells D) → Below n xs → has n xs ≡ false
  not_has-Below n [] b = refl
  not_has-Below n ((p, i, d) ∷ xs) b = ground (arith, not_has-Below n xs b.1)

  pub Below-snoc :
      (n p i : ℕ) (d : D) (xs : Cells D) → Below p xs → p < n → Below n (xs ++ (p, i, d) ∷ [])
  Below-snoc n p i d [] b lt = (lt, tt)
  Below-snoc n p i d ((y, j, f) ∷ xs) b lt = (omega (arith, b.0), Below-snoc n p i d xs b.1 lt)

  pub has_handle-larger :
      (n s : ℕ) (xs : Cells D) → IsNumbered n xs → n < s → has_handle s xs ≡ false
  has_handle-larger n s [] b lt = refl
  has_handle-larger n s ((p, i, d) ∷ xs) b lt = ground (arith, has_handle-larger n s xs b.2)

  has_handle-snoc :
      (j s p : ℕ) (d : D) (xs : Cells D)
      → has_handle j xs ≡ false
      → j < s
      → has_handle j (xs ++ (p, s, d) ∷ []) ≡ false
  has_handle-snoc j s p d [] o lt = ground arith
  has_handle-snoc j s p d ((y, i, f) ∷ xs) o lt = ground (arith, has_handle-snoc j s p d xs)

  pub IsNumbered-snoc :
      (n p : ℕ) (d : D) (xs : Cells D)
      → IsNumbered n xs
      → IsNumbered (n + 1) (xs ++ (p, n + 1, d) ∷ [])
  IsNumbered-snoc n p d [] b = (omega arith, refl, tt)
  IsNumbered-snoc n p d ((y, i, f) ∷ xs) b = (
    omega (arith, b.0),
    has_handle-snoc i (n + 1) p d xs b.1 (omega (arith, b.0)),
    IsNumbered-snoc n p d xs b.2,
  )

  not_has-snoc :
      (a p i : ℕ) (d : D) (xs : Cells D)
      → has a xs ≡ false
      → has p ((a, i, d) ∷ xs) ≡ false
      → has a (xs ++ (p, i, d) ∷ []) ≡ false
  not_has-snoc a p i d [] o out = ground arith
  not_has-snoc a p i d ((y, j, f) ∷ xs) o out = ground (arith, not_has-snoc a p i d xs)

  has-tail : (a y j : ℕ) (f : D) (xs : Cells D) → has a xs ≡ true → has a ((y, j, f) ∷ xs) ≡ true
  has-tail a y j f xs h = ground arith

  not_has-tail :
      (a y j : ℕ) (f : D) (xs : Cells D) → has a ((y, j, f) ∷ xs) ≡ false → has a xs ≡ false
  not_has-tail a y j f xs h = ground arith

  -- A new cell after the last one, whose `next` then points to it.
  pub IsLinked-snoc :
      (c e : Ptr → Option (ListNode D)) (q p i : ℕ) (d : D) (xs : Cells D)
      → IsLinked c q xs
      → p ≢ null
      → has p xs ≡ false
      → e p ≡ some (node i d (last_from q xs) null)
      → ((a : Ptr) → has a xs ≡ true → (a == last_from q xs) ≡ false → e a ≡ c a)
      → ((k : ListNode D)
          → has (last_from q xs) xs ≡ true
          → c (last_from q xs) ≡ some k
          → e (last_from q xs) ≡ some (record k { next = p }))
      → IsLinked e q (xs ++ (p, i, d) ∷ [])
  IsLinked-snoc c e q p i d [] s ne out at same last = (ne, at, refl, tt)
  IsLinked-snoc c e q p i d ((y, j, f) ∷ []) s ne out at same last =
      (s.0, last (node j f q null) (ground arith) s.1, ground arith, (ne, at, refl, tt))
  IsLinked-snoc c e q p i d ((y, j, f) ∷ (z, k, g) ∷ xs) s ne out at same last = (
    s.0,
    same y (ground arith) (
          swap_test (last_from z xs) y
            (has-apart (last_from z xs) y ((z, k, g) ∷ xs) (has_last y z k g xs) s.2))
        ∙ s.1,
    not_has-snoc y p i d ((z, k, g) ∷ xs) s.2 out,
    IsLinked-snoc c e y p i d ((z, k, g) ∷ xs) s.3 ne (not_has-tail p y j f ((z, k, g) ∷ xs) out) at
        (λ a h o. same a (has-tail a y j f ((z, k, g) ∷ xs) h) o)
        (λ m h o. last m (has-tail (last_from z xs) y j f ((z, k, g) ∷ xs) h) o),
  )
