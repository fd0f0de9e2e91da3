-- ===== src/Mysql/Queries/Laws.antt =====
-- What mysqlapi::query and closeQuery (src/mysqlapi.cpp) do to the list of cursors.
use dbsqlapi.Prelude.{
  ℕ, suc, ◌+◌, ◌<◌, ◌≡◌, refl, ap, ◌∙◌, inl, inr, true, false, Option, none, some, [], ◌∷◌, ◌++◌,
  CStr, ℤ, pos, negsuc, is_neg, arith, ◌==◌, if◌then◌else◌, length, length-append, Bool-cases,
}
use dbsqlapi.Heap.{null, Heap, Run, Cmd, pure, ok, put_cell}
use dbsqlapi.Heap.Rules.{ne_null, load-ok, modify-ok}
use dbsqlapi.Mysql.CursorList.{ListNode, CursorList, find, int_max}
use dbsqlapi.Mysql.CursorList.Links.{Cells, node, last_from, find_cell, remove}
use dbsqlapi.Mysql.CursorList.Holds.{has_handle, Holds, find-find_cell}
use dbsqlapi.Mysql.CursorList.Place.{found_at}
use dbsqlapi.Mysql.CursorList.Del.{del-Removed, same_test}
use dbsqlapi.Mysql.CursorList.Add.{Added, add-Added}
use dbsqlapi.Mysql.Queries.{CursorApi, Reply, method, close, give_up, unwind, stage, query}
use dbsqlapi.Mysql.Queries.Cells.{Holds-changed}

-- The cursor of a query that succeeds: `none` where one of the four calls returns a negative code.
abbrev pub advance : {D : Type 0} → (D → ℤ × D) → (D → Option D) → D → Option D
advance op next d = if is_neg (op d).0 then none else next (op d).1

abbrev pub opened : {D : Type 0} → CursorApi D → CStr → Option D
opened api sql =
    advance api.open_cur (advance (api.prepare sql) (advance api.define (advance api.execute some)))
      api.fresh

module _ {D : Type 0} where
  find_cell-last :
      (p s : ℕ) (d : D) (xs : Cells D)
      → has_handle s xs ≡ false
      → (find_cell s (xs ++ (p, s, d) ∷ []) ≡ p) × (remove s (xs ++ (p, s, d) ∷ []) ≡ xs)
  find_cell-last p s d [] o = let self : (s == s) ≡ true = same_test refl in (rw self, rw self)
  find_cell-last p s d ((y, j, f) ∷ xs) o =
      let other : (j == s) ≡ false = ground arith in
      let rest = find_cell-last p s d xs (ground arith) in
      (rw other rest.0, rw other (ap (◌∷◌ (y, j, f)) rest.1))

  module _ (l : CursorList) (p s : ℕ) (xs : Cells D) (new : has_handle s xs ≡ false) (k : ℕ)
      (fuel : suc (length xs) < k) where
    method-changed :
        (op : D → ℤ × D) (d : D) (g : Heap (ListNode D))
        → Holds g l (xs ++ (p, s, d) ∷ [])
        → (f : Heap (ListNode D)) × (method op p g ≡ ok (op d).0 f)
          × Holds f l (xs ++ (p, s, (op d).1) ∷ [])
    unfolding method
    method-changed op d g is =
        let at = found_at g.cell null p s d xs [] is.chain in
        let n : ListNode D = node s d (last_from null xs) null in
        (
          put_cell g p (some (node s (op d).1 (last_from null xs) null)),
          rw (load-ok g p n at.0 at.1)
              (rw (modify-ok g p n (λ m. record m { data_of = (op d).1 }) at.0 at.1)),
          Holds-changed p s d (op d).1 xs [] is,
        )

    close-changed :
        (api : CursorApi D) (d : D) (g : Heap (ListNode D))
        → Holds g l (xs ++ (p, s, d) ∷ [])
        → (f : Heap (ListNode D)) × (close api p g ≡ ok tt f)
          × Holds f l (xs ++ (p, s, api.close_cur d) ∷ [])
    unfolding close
    close-changed api d g is =
        let at = found_at g.cell null p s d xs [] is.chain in
        let n : ListNode D = node s d (last_from null xs) null in
        (
          put_cell g p (some (node s (api.close_cur d) (last_from null xs) null)),
          modify-ok g p n (λ m. record m { data_of = api.close_cur m.data_of }) at.0 at.1,
          Holds-changed p s d (api.close_cur d) xs [] is,
        )

    give_up-Holds :
        (d : D) (g : Heap (ListNode D))
        → Holds g l (xs ++ (p, s, d) ∷ [])
        → (f : Heap (ListNode D)) × (l' : CursorList) × (give_up k l s g
            ≡ ok (record { code = negsuc 0; handle = none; list = l' }) f)
          × Holds f l' xs
          × (l'.index ≡ l.index)
    unfolding give_up
    give_up-Holds d g is =
        let longer : length (xs ++ (p, s, d) ∷ []) < k =
          omega (arith, length-append xs ((p, s, d) ∷ [])) in
        let r = del-Removed is k longer s in
        let last = find_cell-last p s d xs new in
        (r.heap, r.list, rw r.ran, (rw last.1 at r.holds), r.index)

    -- How a run from a list with the new cell ends: with the cell and its cursor, or without it.
    abbrev Ends : Option D → Run (ListNode D) Reply → Type 0
    Ends none r =
        (f : Heap (ListNode D)) × (l' : CursorList) × (r
          ≡ ok (record { code = negsuc 0; handle = none; list = l' }) f)
        × Holds f l' xs
        × (l'.index ≡ l.index)
    Ends (some d) r =
        (f : Heap (ListNode D)) × (r ≡ ok (record { code = pos 0; handle = some s; list = l }) f)
        × Holds f l (xs ++ (p, s, d) ∷ [])

    abbrev EndsAlways : (D → Option D) → Cmd (ListNode D) Reply → Type 0
    EndsAlways o c =
        (d : D) (g : Heap (ListNode D)) → Holds g l (xs ++ (p, s, d) ∷ []) → Ends (o d) (c g)

    unwind-EndsAlways : (api : CursorApi D) → EndsAlways (λ d. none) (unwind k api l s p)
    unfolding unwind
    unwind-EndsAlways api d g is =
        let (f, closed, is') = close-changed api d g is in
        let (e, l', gone, holds, index) = give_up-Holds (api.close_cur d) f is' in
        (e, l', rw closed gone, holds, index)

    stage-EndsAlways :
        (op : D → ℤ × D) (failed next : Cmd (ListNode D) Reply) (o : D → Option D)
        → EndsAlways (λ d. none) failed
        → EndsAlways o next
        → EndsAlways (advance op o) (stage op p failed next)
    unfolding stage
    stage-EndsAlways op failed next o fails goes d g is =
        let (f, done, is') = method-changed op d g is in
        elim (Bool-cases (is_neg (op d).0)) [
          | inl neg ↦ rw (done, neg) (fails (op d).1 f is')
          | inr fine ↦ rw (done, fine) (goes (op d).1 f is')
        ]

    -- The calls of a query, from the cursor that `add` has made on.
    stages-EndsAlways :
        (api : CursorApi D) (sql : CStr)
        → EndsAlways
            (advance api.open_cur
              (advance (api.prepare sql) (advance api.define (advance api.execute some))))
            (stage api.open_cur p (give_up k l s) (
              stage (api.prepare sql) p (unwind k api l s p) (
                stage api.define p (unwind k api l s p) (
                  stage api.execute p
                    (unwind k api l s p)
                    (pure (record { code = pos 0; handle = some s; list = l }))))))
    stages-EndsAlways api sql =
        let undo = unwind-EndsAlways api in
        stage-EndsAlways api.open_cur _ _ _ give_up-Holds (
          stage-EndsAlways (api.prepare sql) _ _ _ undo (
            stage-EndsAlways api.define _ _ _ undo
              (stage-EndsAlways api.execute _ _ some undo (λ d g is. (g, refl, is)))))

-- How a query ends, by the cursor that it has opened or not: with its handle and the cursor at the end of
-- the list, or with -1 and the list as it was.
abbrev pub Answers :
    {D : Type 0}
    → Heap (ListNode D)
    → ℕ
    → CursorApi D
    → CursorList
    → Cells D
    → CStr
    → Option D
    → Type 0
Answers {D} h k api l xs sql none =
    (f : Heap (ListNode D)) × (l' : CursorList) × (query k api l (some sql) h
      ≡ ok (record { code = negsuc 0; handle = none; list = l' }) f)
    × Holds f l' xs
    × (l'.index ≡ l.index + 1)
Answers {D} h k api l xs sql (some d) =
    (f : Heap (ListNode D)) × (l' : CursorList) × (query k api l (some sql) h
      ≡ ok (record { code = pos 0; handle = some (l.index + 1); list = l' }) f)
    × Holds f l' (xs ++ (h.next, l.index + 1, d) ∷ [])
    × (has_handle (l.index + 1) xs ≡ false)

module _ {D : Type 0} {h : Heap (ListNode D)} {l : CursorList} {xs : Cells D} (is : Holds h l xs)
    (k : ℕ) (fuel : suc (length xs) < k) (room : l.index < int_max) (api : CursorApi D)
    (sql : CStr) where
  answers :
      (a : Added h l xs api.fresh) (o : Option D)
      → Ends a.list h.next (l.index + 1) xs a.unused k fuel o (query k api l (some sql) h)
      → a.list.index ≡ l.index + 1
      → Answers h k api l xs sql o
  answers a none (f, l', ran, holds, index) n = (f, l', ran, holds, index ∙ n)
  answers a (some d) (f, ran, holds) n = (f, a.list, ran, holds, a.unused)

  -- On a well-formed list whose counter is below INT_MAX, with fuel for it and one cursor more, `query` opens a cursor and appends it under
  -- an unused handle, which it hands out, if none of openCur, prepare, define and execute returns a negative
  -- code; else it returns -1 and leaves the list with the cursors that it had.
  pub query-Answers : Answers h k api l xs sql (opened api sql)
  unfolding query
  query-Answers =
      let a = add-Added api.fresh is room in
      let longer : length (xs ++ (h.next, l.index + 1, api.fresh) ∷ []) < k =
        omega (arith, length-append xs ((h.next, l.index + 1, api.fresh) ∷ [])) in
      let found : find k a.list (l.index + 1) a.heap ≡ ok h.next a.heap =
        find-find_cell a.holds k longer (l.index + 1)
        ∙ ap (λ q. ok q a.heap) (find_cell-last h.next (l.index + 1) api.fresh xs a.unused).0 in
      let there : (h.next == null) ≡ false = ne_null h.next (omega (arith, is.some_next)) in
      let ends =
        stages-EndsAlways a.list h.next (l.index + 1) xs a.unused k fuel api sql api.fresh a.heap
          a.holds in
      answers a (opened api sql) (rw a.ran (rw (found, there) ends)) a.index
