-- ===== src/Mysql/CursorList/Holds.antt =====
-- When the heap holds a list object of mysql_cursorList (src/mysqlapi.h), and what `find` finds.
use dbsqlapi.Prelude.{
  ℕ, zero, suc, ◌<◌, ◌≤◌, ◌≡◌, refl, inl, inr, Bool, false, ◌||◌, [], ◌∷◌, arith, ◌==◌, length,
  Bool-cases,
}
use dbsqlapi.Heap.{Ptr, null, Heap, ok}
use dbsqlapi.Heap.Rules.{ne_null, load-ok}
use dbsqlapi.Mysql.CursorList.{ListNode, CursorList, find_loop, find}
use dbsqlapi.Mysql.CursorList.Links.{Cells, node, head_of, last_from, find_cell, remove, IsLinked}

module _ {D : Type 0} where
  -- All nodes come from `new`, all handles from the counter, and no handle comes twice.
  abbrev pub Below : Ptr → Cells D → Type 0
  Below n [] = Unit {0}
  Below n ((p, i, d) ∷ xs) = (p < n) × Below n xs

  abbrev pub has_handle : ℕ → Cells D → Bool
  has_handle s [] = false
  has_handle s ((p, i, d) ∷ xs) = (i == s) || has_handle s xs

  abbrev pub IsNumbered : ℕ → Cells D → Type 0
  IsNumbered n [] = Unit {0}
  IsNumbered n ((p, i, d) ∷ xs) = (i ≤ n) × (has_handle i xs ≡ false) × IsNumbered n xs

-- The list object `l` holds the cells `xs`.
pub record Holds {D : Type 0} (h : Heap (ListNode D)) (l : CursorList) (xs : Cells D) : Type 0 where
  pub head : l.head ≡ head_of xs
  pub tail : l.tail ≡ last_from null xs
  pub chain : IsLinked h.cell null xs
  pub below : Below h.next xs
  pub some_next : null < h.next
  pub numbered : IsNumbered l.index xs

module _ {D : Type 0} where
  pub Below-remove : (n s : ℕ) (xs : Cells D) → Below n xs → Below n (remove s xs)
  Below-remove n s [] b = tt
  Below-remove n s ((p, i, d) ∷ xs) b = ground (arith, Below-remove n s xs b.1)

  has_handle-remove :
      (j s : ℕ) (xs : Cells D) → has_handle j xs ≡ false → has_handle j (remove s xs) ≡ false
  has_handle-remove j s [] o = refl
  has_handle-remove j s ((p, i, d) ∷ xs) o = ground (arith, has_handle-remove j s xs)

  pub IsNumbered-remove : (n s : ℕ) (xs : Cells D) → IsNumbered n xs → IsNumbered n (remove s xs)
  IsNumbered-remove n s [] b = tt
  IsNumbered-remove n s ((p, i, d) ∷ xs) b =
      ground (arith, IsNumbered-remove n s xs b.2, has_handle-remove i s xs b.1)

  find_loop-find_cell :
      (k s q : ℕ) (h : Heap (ListNode D)) (xs : Cells D)
      → IsLinked h.cell q xs
      → length xs < k
      → find_loop k s (head_of xs) h ≡ ok (find_cell s xs) h
  unfolding find_loop
  find_loop-find_cell zero s q h xs c fuel = absurd (omega arith)
  find_loop-find_cell (suc k) s q h [] c fuel = refl
  find_loop-find_cell (suc k) s q h ((p, i, d) ∷ xs) c fuel =
      rw (ne_null p c.0, load-ok h p (node i d q (head_of xs)) c.0 c.1)
        (elim (Bool-cases (i == s)) [
          | inl hit ↦ rw hit
          | inr miss ↦ rw miss (find_loop-find_cell k s p h xs c.3 (omega arith))
        ])

module _ {D : Type 0} {h : Heap (ListNode D)} {l : CursorList} {xs : Cells D} (is : Holds h l xs)
    (k : ℕ) (fuel : length xs < k) (s : ℕ) where
  -- With fuel for every node `_find` gives the node of the first cell with the handle, or NULL.
  pub find-find_cell : find k l s h ≡ ok (find_cell s xs) h
  unfolding find
  find-find_cell = rw is.head (find_loop-find_cell k s null h xs is.chain fuel)
