-- ===== src/Mysql/CursorList/Links.antt =====
-- When the heap holds a mysql_cursorList of src/mysqlapi.h: each cell points to the next and to the one
-- before, and what becomes of the links when a cell is taken out.
use dbsqlapi.Prelude.{
  ℕ, ◌≡◌, ◌≢◌, refl, ◌∙◌, Bool, true, false, ◌||◌, Option, none, some, List, [], ◌∷◌, ◌++◌, arith,
  ◌==◌, if◌then◌else◌,
}
use dbsqlapi.Heap.{Ptr, null}
use dbsqlapi.Mysql.CursorList.{ListNode}

-- The cells of a list in order: address, handle and cursor.
abbrev pub Cells : Type 0 → Type 0
Cells D = List (Ptr × ℕ × D)

module _ {D : Type 0} where
  abbrev pub node : ℕ → D → Ptr → Ptr → ListNode D
  node i d q n = record { data_of = d; handle = i; prev = q; next = n }

  abbrev pub head_of : Cells D → Ptr
  head_of [] = null
  head_of ((p, i, d) ∷ xs) = p

  abbrev pub last_from : Ptr → Cells D → Ptr
  last_from q [] = q
  last_from q ((p, i, d) ∷ xs) = last_from p xs

  abbrev pub has : Ptr → Cells D → Bool
  has a [] = false
  has a ((p, i, d) ∷ xs) = (a == p) || has a xs

  -- The first cell with that handle.
  abbrev pub find_cell : ℕ → Cells D → Ptr
  find_cell h [] = null
  find_cell h ((p, i, d) ∷ xs) = if i == h then p else find_cell h xs

  abbrev pub remove : ℕ → Cells D → Cells D
  remove h [] = []
  remove h ((p, i, d) ∷ xs) = if i == h then xs else (p, i, d) ∷ remove h xs

  -- The cells from the one after `q` on are linked both ways.
  abbrev pub IsLinked : (Ptr → Option (ListNode D)) → Ptr → Cells D → Type 0
  IsLinked c q [] = Unit {0}
  IsLinked c q ((p, i, d) ∷ xs) =
      (p ≢ null) × (c p ≡ some (node i d q (head_of xs))) × (has p xs ≡ false) × IsLinked c p xs

  pub IsLinked-frame :
      (c e : Ptr → Option (ListNode D)) (q : Ptr) (xs : Cells D)
      → ((a : Ptr) → has a xs ≡ true → e a ≡ c a)
      → IsLinked c q xs
      → IsLinked e q xs
  IsLinked-frame c e q [] same s = tt
  IsLinked-frame c e q ((p, i, d) ∷ xs) same s = (
    s.0,
    ground (arith, same p),
    s.2,
    IsLinked-frame c e p xs (λ a j. ground (arith, same a)) s.3,
  )

  pub null-not_has :
      (c : Ptr → Option (ListNode D)) (q : Ptr) (xs : Cells D)
      → IsLinked c q xs
      → has null xs ≡ false
  null-not_has c q [] s = refl
  null-not_has c q ((p, i, d) ∷ xs) s = ground (arith, null-not_has c p xs s.3)

  pub has-append : (a : Ptr) (xs ys : Cells D) → has a (xs ++ ys) ≡ (has a xs || has a ys)
  has-append a [] ys = refl
  has-append a ((p, i, d) ∷ xs) ys = ground (arith, has-append a xs ys)

  -- The memory after a cell at `p` is taken out from between `b` and `n`.
  abbrev pub relinked : Ptr → Ptr → Ptr → Option (ListNode D) → Ptr → Option (ListNode D)
  relinked b p n none a = none
  relinked b p n (some m) a =
      if a == p
      then none
      else if a == b
      then some (record m { next = n })
      else if a == n
      then some (record m { prev = b })
      else some m

  abbrev pub unlinked : Ptr → Ptr → Ptr → (Ptr → Option (ListNode D)) → Ptr → Option (ListNode D)
  unlinked b p n c a = relinked b p n (c a) a

  -- No cell but those three changes.
  pub relinked_other :
      (b p n a : Ptr) (v : Option (ListNode D))
      → (a == p) ≡ false
      → (a == b) ≡ false
      → (a == n) ≡ false
      → relinked b p n v a ≡ v
  relinked_other b p n a none ep eb en = refl
  relinked_other b p n a (some m) ep eb en = rw (ep, eb, en)

  pub relinked_gone :
      (b p n a : Ptr) (v : Option (ListNode D)) → (a == p) ≡ true → relinked b p n v a ≡ none
  relinked_gone b p n a none e = refl
  relinked_gone b p n a (some m) e = rw e

  pub has-apart : (a x : Ptr) (xs : Cells D) → has a xs ≡ true → has x xs ≡ false → (a == x) ≡ false
  has-apart a x [] i o = cc
  has-apart a x ((p, j, d) ∷ xs) i o = ground (arith, has-apart a x xs)

  pub has-last_from :
      (p r j : ℕ) (e : D) (ys zs : Cells D)
      → has (last_from p ((r, j, e) ∷ ys)) (((r, j, e) ∷ ys) ++ zs) ≡ true
  has-last_from p r j e [] zs = ground arith
  has-last_from p r j e ((r', j', e') ∷ ys) zs = ground (arith, has-last_from r r' j' e' ys zs)

  pub apart-head_of :
      (y : Ptr) (zs : Cells D) → y ≢ null → has y zs ≡ false → (y == head_of zs) ≡ false
  apart-head_of y [] ne o = ground arith
  apart-head_of y ((z, i, d) ∷ zs) ne o = ground arith

  unlinked-first :
      (c : Ptr → Option (ListNode D)) (q p : Ptr) (zs : Cells D)
      → has p zs ≡ false
      → has q zs ≡ false
      → IsLinked c p zs
      → IsLinked (unlinked q p (head_of zs) c) q zs
  unlinked-first c q p [] op oq s = tt
  unlinked-first c q p ((z, i, d) ∷ zs) op oq s = (
    s.0,
    rw s.1 (ground arith),
    s.2,
    IsLinked-frame c (unlinked q p z c) z zs
        (λ a h.
          relinked_other q p z a (c a) (has-apart a p zs h (ground arith))
            (has-apart a q zs h (ground arith)) (has-apart a z zs h s.2))
        s.3,
  )

  unlinked_before :
      (c : Ptr → Option (ListNode D)) (q y p i j : ℕ) (d e : D) (ys zs : Cells D)
      → y ≢ null
      → has y (ys ++ (p, i, d) ∷ zs) ≡ false
      → c y ≡ some (node j e q (head_of (ys ++ (p, i, d) ∷ zs)))
      → unlinked (last_from y ys) p (head_of zs) c y ≡ some (node j e q (head_of (ys ++ zs)))
  unlinked_before c q y p i j d e [] zs ne out at = rw at (ground arith)
  unlinked_before c q y p i j d e ((r, k, f) ∷ ys) zs ne out at =
      relinked_other (last_from r ys) p (head_of zs) y (c y)
        (ground (arith, has-append y ys ((p, i, d) ∷ zs)))
        (ground (
          arith,
          has-apart (last_from r ys) y (((r, k, f) ∷ ys) ++ (p, i, d) ∷ zs)
              (has-last_from y r k f ys ((p, i, d) ∷ zs)) out,
        ))
        (apart-head_of y zs ne (ground (arith, has-append y ys ((p, i, d) ∷ zs))))
      ∙ at

  pub unlinked-IsLinked :
      (c : Ptr → Option (ListNode D)) (q : Ptr) (ys : Cells D) (p i : ℕ) (d : D) (zs : Cells D)
      → has q (ys ++ (p, i, d) ∷ zs) ≡ false
      → IsLinked c q (ys ++ (p, i, d) ∷ zs)
      → IsLinked (unlinked (last_from q ys) p (head_of zs) c) q (ys ++ zs)
  unlinked-IsLinked c q [] p i d zs out s = unlinked-first c q p zs s.2 (ground arith) s.3
  unlinked-IsLinked c q ((y, j, e) ∷ ys) p i d zs out s = (
    s.0,
    unlinked_before c q y p i j d e ys zs s.0 s.2 s.1,
    ground (arith, has-append y ys ((p, i, d) ∷ zs), has-append y ys zs),
    unlinked-IsLinked c y ys p i d zs s.2 s.3,
  )
