-- ===== src/NameValue/Put.antt =====
-- `put` of src/namevalue.cpp: what it writes, and what `get` reads afterwards.
use dbsqlapi.Prelude.{
  ℕ, ◌<◌, ◌≡◌, refl, ap, ◌∙◌, inl, inr, Option, none, some, [], ◌∷◌, arith, CStr, str_eq, length,
  Bool-cases, Option-cases,
}
use dbsqlapi.Heap.{Ptr, null, Heap, ok, write, put_cell}
use dbsqlapi.NameValue.{Node, NvList, get, put}
use dbsqlapi.NameValue.Entries.{
  Entry, Cells, head_of, last_from, find_entry, set_cell, has-set_cell,
}
use dbsqlapi.NameValue.Chain.{
  node, Cellmap, IsSeg, Below, Holds, IsSeg-write, modify-ok, ne_null, write_ne, ne_of_has,
  SameOutside,
}
use dbsqlapi.NameValue.Find.{value_of, put_code, found_cell, find-find_entry, get-find_entry}

module _ (name : CStr) (v : Option CStr) where
  head_of-set_cell : (xs : Cells) → head_of (set_cell name v xs) ≡ head_of xs
  head_of-set_cell [] = refl
  head_of-set_cell ((p, e) ∷ xs) = ground arith

  last_from-set_cell : (q : Ptr) (xs : Cells) → last_from q (set_cell name v xs) ≡ last_from q xs
  last_from-set_cell q [] = refl
  last_from-set_cell q ((p, e) ∷ xs) = ground (arith, last_from-set_cell p xs)

  Below-set_cell : (n : Ptr) (xs : Cells) → Below n xs → Below n (set_cell name v xs)
  Below-set_cell n [] b = tt
  Below-set_cell n ((p, e) ∷ xs) b = ground (arith, Below-set_cell n xs b.1)

  pub length-set_cell : (xs : Cells) → length (set_cell name v xs) ≡ length xs
  length-set_cell [] = refl
  length-set_cell ((p, e) ∷ xs) = ground (arith, length-set_cell xs)

  set_cell_missing : (xs : Cells) → find_entry name xs ≡ none → set_cell name v xs ≡ xs
  set_cell_missing [] f = refl
  set_cell_missing ((p, e) ∷ xs) f = ground (arith, set_cell_missing xs)

  value_of-set_cell :
      (xs : Cells)
      → value_of (find_entry name (set_cell name v xs))
        ≡ (elim (find_entry name xs) [ none ↦ none | some c ↦ v ])
  value_of-set_cell [] = refl
  value_of-set_cell ((p, e) ∷ xs) = ground (arith, value_of-set_cell xs)

  -- The chain after the write to the node that was found.
  IsSeg-set_cell :
      (c : Cellmap) (xs : Cells) (p q : Ptr) (e : Entry)
      → IsSeg c xs
      → find_entry name xs ≡ some (p, e)
      → c p ≡ some (node e q)
      → IsSeg (write c p (some (node (record e { value = v }) q))) (set_cell name v xs)
  IsSeg-set_cell c [] p q e s f holds = tt
  IsSeg-set_cell c ((r, g) ∷ xs) p q e s f holds = elim (Bool-cases (str_eq g.name name)) [
    | inl hit ↦ rw hit (
      ground arith,
      ground arith,
      ground arith,
      IsSeg-write c xs p (some (node (record e { value = v }) q)) (ground arith) s.3,
    )
    | inr miss ↦
        let (q', ne, at_p, i) = found_cell c name xs p e s.3 (ground arith) in
        rw miss (
          s.0,
          rw (head_of-set_cell xs) (write_ne c p r _ (ne_of_has r p xs i s.2) ∙ s.1),
          has-set_cell r name v xs ∙ s.2,
          IsSeg-set_cell c xs p q e s.3 (ground arith) holds,
        )
  ]

module _ {h : Heap Node} {l : NvList} {xs : Cells} (is : Holds h l xs) (k : ℕ)
    (fuel : length xs < k) (name : CStr) (v : Option CStr) where
  -- With fuel for every node `put` gives the first entry of that name the value and returns 0, or
  -- returns -2 and writes nothing where there is none. It writes to no other object.
  pub put-set_cell :
      (g : Heap Node) × (put k l (some name) v h ≡ ok (put_code (find_entry name xs)) g)
      × Holds g l (set_cell name v xs)
      × (g.next ≡ h.next)
      × SameOutside xs h.next h.cell g.cell
  unfolding put
  put-set_cell = elim (Option-cases (find_entry name xs)) [
    | inl missing ↦ (
      h,
      rw (find-find_entry is k name fuel, missing),
      rw (set_cell_missing name v xs missing) is,
      refl,
      λ a o b. refl,
    )
    | inr ((p, e), hit) ↦
        let (q, ne, at_p, i) = found_cell h.cell name xs p e is.chain hit in
        (
          put_cell h p (some (node (record e { value = v }) q)),
          rw (find-find_entry is k name fuel, hit, ne_null p ne)
              (rw (modify-ok h p (node e q) (λ n. record n { value = v }) ne at_p)),
          record {
            head = rw (head_of-set_cell name v xs) is.head;
            tail = rw (last_from-set_cell name v null xs) is.tail;
            chain = IsSeg-set_cell name v h.cell xs p q e is.chain hit at_p;
            below = Below-set_cell name v h.next xs is.below;
            some_next = is.some_next;
          },
          refl,
          λ a o b. write_ne h.cell p a _ (ne_of_has a p xs i o),
        )
  ]

  -- With fuel for every node `get` after a `put` returns the value that was put, where the list
  -- has the name, and else NULL.
  pub get-put :
      (g : Heap Node) × (put k l (some name) v h ≡ ok (put_code (find_entry name xs)) g)
      × (get k l (some name) g ≡ ok (elim (find_entry name xs) [ none ↦ none | some c ↦ v ]) g)
  get-put =
      let (g, run, is', n, same) = put-set_cell in
      (
        g,
        run,
        get-find_entry is' k name (rw (length-set_cell name v xs) fuel)
            ∙ ap (λ o. ok o g) (value_of-set_cell name v xs),
      )
