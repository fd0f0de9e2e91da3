-- ===== src/Mysql/CursorList/Del.antt =====
-- `del` of mysql_cursorList (src/mysqlapi.h) against the cells of the list.
use dbsqlapi.Prelude.{
  ℕ, ◌<◌, ◌≡◌, ◌≢◌, refl, sym, ap, ◌∙◌, ◌⊎◌, inl, inr, true, false, none, [], ◌∷◌, ◌++◌, pos, arith,
  ◌==◌, if◌then◌else◌, length, Bool-cases,
}
use dbsqlapi.Heap.{Ptr, null, Heap, ok}
use dbsqlapi.Heap.Rules.{ne_null}
use dbsqlapi.Mysql.CursorList.{ListNode, CursorList, del}
use dbsqlapi.Mysql.CursorList.Links.{
  Cells, head_of, last_from, has, find_cell, remove, IsLinked, relinked_gone,
}
use dbsqlapi.Mysql.CursorList.Unlink.{take_out-TakenOut}
use dbsqlapi.Mysql.CursorList.Place.{place, last_from-append, found_at}
use dbsqlapi.Mysql.CursorList.Holds.{Holds, Below-remove, IsNumbered-remove, find-find_cell}
use dbsqlapi.Mysql.CursorList.Taken.{head-taken, tail-taken, chain-taken, not_has-taken, same-taken}

-- What `del` leaves behind where it took out the first cell with the handle `s`, if there is one: no
-- other object is touched.
pub record Removed {D : Type 0} (h : Heap (ListNode D)) (k : ℕ) (l : CursorList) (xs : Cells D)
    (s : ℕ) : Type 0 where
  pub heap : Heap (ListNode D)
  pub list : CursorList
  pub ran : del k l s h ≡ ok (if find_cell s xs == null then pos 1 else pos 0, list) heap
  pub holds : Holds heap list (remove s xs)
  pub gone : find_cell s xs ≢ null → heap.cell (find_cell s xs) ≡ none
  pub index : list.index ≡ l.index
  pub same : (a : Ptr) → a ≢ null → has a xs ≡ false → heap.cell a ≡ h.cell a
  pub next : heap.next ≡ h.next

record Split {D : Type 0} (s : ℕ) (xs : Cells D) : Type 0 where
  ys : Cells D
  p : ℕ
  i : ℕ
  d : D
  zs : Cells D
  whole : xs ≡ ys ++ (p, i, d) ∷ zs
  found : find_cell s xs ≡ p
  rest : remove s xs ≡ ys ++ zs

pub same_test : {a b : ℕ} → a ≡ b → (a == b) ≡ true
same_test e = ground arith

module _ {D : Type 0} where
  split : (s : ℕ) (xs : Cells D) → ((find_cell s xs ≡ null) × (remove s xs ≡ xs)) ⊎ Split s xs
  split s [] = inl (refl, refl)
  split s ((p, i, d) ∷ xs) = elim (Bool-cases (i == s)) [
    | inl hit ↦ inr (record {
      ys = [];
      p = p;
      i = i;
      d = d;
      zs = xs;
      whole = refl;
      found = rw hit;
      rest = rw hit;
    })
    | inr miss ↦ elim (split s xs) [
      | inl (nothing, all) ↦ inl (rw miss nothing, rw (miss, all))
      | inr t ↦ inr (record {
        ys = (p, i, d) ∷ t.ys;
        p = t.p;
        i = t.i;
        d = t.d;
        zs = t.zs;
        whole = ap (◌∷◌ (p, i, d)) t.whole;
        found = rw miss t.found;
        rest = rw (miss, t.rest);
      })
    ]
  ]

module _ {D : Type 0} {h : Heap (ListNode D)} {l : CursorList} {xs : Cells D} (is : Holds h l xs)
    (k : ℕ) (fuel : length xs < k) (s : ℕ) where
  del-Split : Split s xs → Removed h k l xs s
  unfolding del
  del-Split t =
      let chain : IsLinked h.cell null (t.ys ++ (t.p, t.i, t.d) ∷ t.zs) = rw (← t.whole) is.chain in
      let head : l.head ≡ head_of (t.ys ++ (t.p, t.i, t.d) ∷ t.zs) = rw (← t.whole) is.head in
      let tail : l.tail ≡ last_from null (t.ys ++ (t.p, t.i, t.d) ∷ t.zs) =
        rw (← t.whole) is.tail in
      let found = found_at h.cell null t.p t.i t.d t.ys t.zs chain in
      let out = take_out-TakenOut (place h l t.p t.i t.d t.ys t.zs chain head tail) in
      let last : l.tail ≡ last_from t.p t.zs = tail ∙ last_from-append null t.p t.i t.d t.ys t.zs in
      let not_in = not_has-taken h l t.p t.i t.d t.ys t.zs chain in
      record {
        heap = out.heap;
        list = out.list;
        ran = rw (find-find_cell is k fuel s, t.found, ne_null t.p found.0) (rw out.ran);
        holds = record {
          head =
              out.head ∙ head-taken h l t.p t.i t.d t.ys t.zs head not_in ∙ ap head_of (sym t.rest);
          tail =
              out.tail
              ∙ tail-taken h l t.p t.i t.d t.ys t.zs last found.2
              ∙ ap (last_from null) (sym t.rest);
          chain = rw t.rest (chain-taken h l t.p t.i t.d t.ys t.zs out chain);
          below = rw out.heap_next (Below-remove h.next s xs is.below);
          some_next = rw out.heap_next is.some_next;
          numbered = rw out.index (IsNumbered-remove l.index s xs is.numbered);
        };
        gone = λ ne.
            out.cells (find_cell s xs) ne
            ∙ relinked_gone (last_from null t.ys) t.p (head_of t.zs) (find_cell s xs)
                (h.cell (find_cell s xs)) (same_test t.found);
        index = out.index;
        same =
            λ a ne o. same-taken h l t.p t.i t.d t.ys t.zs out a ne (ap (has a) (sym t.whole) ∙ o);
        next = out.heap_next;
      }

  -- With fuel for every node `del` takes the first cell with the handle out of the list and returns 0, or
  -- returns 1 and changes nothing where there is none. The list stays well formed, and no other object is
  -- touched.
  pub del-Removed : Removed h k l xs s
  unfolding del
  del-Removed = elim (split s xs) [
    | inr t ↦ del-Split t
    | inl (nothing, all) ↦ record {
      heap = h;
      list = l;
      ran = rw (find-find_cell is k fuel s, nothing);
      holds = rw all is;
      gone = λ ne. absurd (ne nothing);
      index = refl;
      same = λ a ne o. refl;
      next = refl;
    }
  ]
