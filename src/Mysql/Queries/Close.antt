-- ===== src/Mysql/Queries/Close.antt =====
-- mysqlapi::closeQuery (src/mysqlapi.cpp) against the cells of the list.
use dbsqlapi.Prelude.{
  ℕ, ◌<◌, ◌≡◌, refl, sym, ap, ◌∙◌, ◌⊎◌, inl, inr, true, false, [], ◌∷◌, ◌++◌, pos, negsuc, some,
  arith, ◌==◌, if◌then◌else◌, length, length-append, Bool-cases,
}
use dbsqlapi.Heap.{null, Heap, ok, put_cell, modify}
use dbsqlapi.Heap.Rules.{ne_null, modify-ok}
use dbsqlapi.Mysql.CursorList.{ListNode, CursorList}
use dbsqlapi.Mysql.CursorList.Links.{Cells, node, head_of, last_from, find_cell, remove}
use dbsqlapi.Mysql.CursorList.Holds.{has_handle, IsNumbered, Holds, find-find_cell}
use dbsqlapi.Mysql.CursorList.Place.{found_at}
use dbsqlapi.Mysql.CursorList.Del.{del-Removed}
use dbsqlapi.Mysql.Queries.{CursorApi, close, close_query}
use dbsqlapi.Mysql.Queries.Cells.{Holds-changed}

-- The first cell with the handle `s`.
record Located {D : Type 0} (s : ℕ) (xs : Cells D) : Type 0 where
  ys : Cells D
  p : ℕ
  i : ℕ
  d : D
  zs : Cells D
  whole : xs ≡ ys ++ (p, i, d) ∷ zs
  before : has_handle s ys ≡ false
  hit : (i == s) ≡ true

module _ {D : Type 0} where
  locate :
      (s : ℕ) (xs : Cells D) → (has_handle s xs ≡ false) ⊎ ((has_handle s xs ≡ true) × Located s xs)
  locate s [] = inl refl
  locate s ((p, i, d) ∷ xs) = elim (Bool-cases (i == s)) [
    | inl hit ↦ inr (
      rw hit,
      record { ys = []; p = p; i = i; d = d; zs = xs; whole = refl; before = refl; hit = hit },
    )
    | inr miss ↦ elim (locate s xs) [
      | inl none ↦ inl (rw (miss, none))
      | inr (there, t) ↦ inr (
        rw (miss, there),
        record {
          ys = (p, i, d) ∷ t.ys;
          p = t.p;
          i = t.i;
          d = t.d;
          zs = t.zs;
          whole = ap (◌∷◌ (p, i, d)) t.whole;
          before = rw (miss, t.before);
          hit = t.hit;
        },
      )
    ]
  ]

  no_handle :
      (s : ℕ) (xs : Cells D)
      → has_handle s xs ≡ false
      → (find_cell s xs ≡ null) × (remove s xs ≡ xs)
  no_handle s [] o = (refl, refl)
  no_handle s ((p, i, d) ∷ xs) o =
      let other : (i == s) ≡ false = ground arith in
      let rest = no_handle s xs (ground arith) in
      (rw other rest.0, rw other (ap (◌∷◌ (p, i, d)) rest.1))

  -- The cell is found and removed whatever its cursor is.
  cell_found :
      (s p i : ℕ) (e : D) (zs ys : Cells D)
      → has_handle s ys ≡ false
      → (i == s) ≡ true
      → (find_cell s (ys ++ (p, i, e) ∷ zs) ≡ p) × (remove s (ys ++ (p, i, e) ∷ zs) ≡ ys ++ zs)
  cell_found s p i e zs [] o hit = (rw hit, rw hit)
  cell_found s p i e zs ((y, j, f) ∷ ys) o hit =
      let other : (j == s) ≡ false = ground arith in
      let rest = cell_found s p i e zs ys (ground arith) hit in
      (rw other rest.0, rw other (ap (◌∷◌ (y, j, f)) rest.1))

  has_handle-remove_self :
      (s n : ℕ) (xs : Cells D) → IsNumbered n xs → has_handle s (remove s xs) ≡ false
  has_handle-remove_self s n [] is = refl
  has_handle-remove_self s n ((p, i, d) ∷ xs) is = elim (Bool-cases (i == s)) [
    | inl hit ↦
        let same : i ≡ s = ground arith in rw hit (ap (λ j. has_handle j xs) (sym same) ∙ is.1)
    | inr miss ↦ rw miss (rw (miss, has_handle-remove_self s n xs is.2))
  ]

-- What a closeQuery leaves behind.
pub record Closed {D : Type 0} (h : Heap (ListNode D)) (k : ℕ) (api : CursorApi D) (l : CursorList)
    (xs : Cells D) (s : ℕ) : Type 0 where
  pub heap : Heap (ListNode D)
  pub list : CursorList
  pub ran : close_query k api l s h ≡ ok (if has_handle s xs then pos 0 else negsuc 0, list) heap
  pub holds : Holds heap list (remove s xs)
  pub unknown : has_handle s (remove s xs) ≡ false
  pub index : list.index ≡ l.index

module _ {D : Type 0} {h : Heap (ListNode D)} {l : CursorList} {xs : Cells D} (is : Holds h l xs)
    (k : ℕ) (fuel : length xs < k) (api : CursorApi D) (s : ℕ) where
  close_query-Located : has_handle s xs ≡ true → Located s xs → Closed h k api l xs s
  unfolding close_query close
  close_query-Located there t =
      let is' : Holds h l (t.ys ++ (t.p, t.i, t.d) ∷ t.zs) = rw (← t.whole) is in
      let at = found_at h.cell null t.p t.i t.d t.ys t.zs is'.chain in
      let e = api.close_cur t.d in
      let n : ListNode D = node t.i t.d (last_from null t.ys) (head_of t.zs) in
      let g = put_cell h t.p (some (node t.i e (last_from null t.ys) (head_of t.zs))) in
      let short : length (t.ys ++ (t.p, t.i, e) ∷ t.zs) < k = omega (
        arith,
        fuel,
        ap length t.whole,
        length-append t.ys ((t.p, t.i, t.d) ∷ t.zs),
        length-append t.ys ((t.p, t.i, e) ∷ t.zs),
      ) in
      let r = del-Removed (Holds-changed t.p t.i t.d e t.ys t.zs is') k short s in
      let now = cell_found s t.p t.i e t.zs t.ys t.before t.hit in
      let was = cell_found s t.p t.i t.d t.zs t.ys t.before t.hit in
      let found : find_cell s xs ≡ t.p = ap (find_cell s) t.whole ∙ was.0 in
      let set : modify t.p (λ m. record m { data_of = api.close_cur m.data_of }) h ≡ ok tt g =
        modify-ok h t.p n (λ m. record m { data_of = api.close_cur m.data_of }) at.0 at.1 in
      record {
        heap = r.heap;
        list = r.list;
        ran = rw (find-find_cell is k fuel s, found, ne_null t.p at.0, there) (rw set (rw r.ran));
        holds = rw (ap (remove s) t.whole ∙ was.1) (rw now.1 at r.holds);
        unknown = has_handle-remove_self s l.index xs is.numbered;
        index = r.index;
      }

  -- On a well-formed list, with fuel for every node, closeQuery takes the cursor with the handle out of the
  -- list and returns 0, or returns -1 and leaves the list with its cursors where none has the handle. No
  -- cursor of the list has the handle afterwards, and the list stays well formed.
  pub close_query-Closed : Closed h k api l xs s
  unfolding close_query
  close_query-Closed = elim (locate s xs) [
    | inr (there, t) ↦ close_query-Located there t
    | inl nothing ↦
        let no = no_handle s xs nothing in
        record {
          heap = h;
          list = l;
          ran = rw (find-find_cell is k fuel s, no.0, nothing);
          holds = rw no.1 is;
          unknown = rw no.1 nothing;
          index = refl;
        }
  ]
