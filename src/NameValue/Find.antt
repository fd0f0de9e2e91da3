-- ===== src/NameValue/Find.antt =====
-- `find`, `get` and `put` of src/namevalue.cpp against the entries of the list.
use dbsqlapi.Prelude.{
  ℕ, zero, suc, ◌<◌, ◌≡◌, ◌≢◌, refl, inl, inr, true, false, Option, none, some, [], ◌∷◌, ℤ, pos,
  negsuc, arith, CStr, ◌==◌, str_eq, if◌then◌else◌, length, Bool-cases, Option-cases,
}
use dbsqlapi.Heap.{Ptr, null, Heap, ok}
use dbsqlapi.NameValue.{Node, NvList, find_loop, find, get}
use dbsqlapi.NameValue.Entries.{Entry, Cells, head_of, last_from, has, find_entry, addr_of}
use dbsqlapi.NameValue.Chain.{node, Cellmap, IsSeg, Holds, load-ok, ne_null, first_ne_last}

ne_test : {p q : Ptr} → p ≢ q → (p == q) ≡ false
ne_test h = ground arith

module _ (name : CStr) (h : Heap Node) where
  find_loop_nil : (k : ℕ) (tail : Ptr) → find_loop (suc k) name tail null h ≡ ok null h
  unfolding find_loop
  find_loop_nil k tail = refl

  -- One round at a node.
  find_loop_step :
      (k : ℕ) (tail p q : Ptr) (e : Entry)
      → p ≢ null
      → h.cell p ≡ some (node e q)
      → find_loop (suc k) name tail p h ≡ (
          if str_eq e.name name
          then ok p h
          else if p == tail
          then ok null h
          else find_loop k name tail q h)
  unfolding find_loop
  find_loop_step k tail p q e ne holds = rw (ne_null p ne, load-ok h p (node e q) ne holds)

  -- The walk ends at the first match, at `tail_ptr` or at NULL.
  find_loop-find_entry :
      (q tail : Ptr) (xs : Cells) (k : ℕ)
      → tail ≡ last_from q xs
      → IsSeg h.cell xs
      → length xs < k
      → find_loop k name tail (head_of xs) h ≡ ok (addr_of (find_entry name xs)) h
  find_loop-find_entry q tail xs zero t s fuel = absurd (omega arith)
  find_loop-find_entry q tail [] (suc k) t s fuel = find_loop_nil k tail
  find_loop-find_entry q tail ((p, e) ∷ []) (suc k) t s fuel =
      rw (find_loop_step k tail p null e s.0 s.1) (ground arith)
  find_loop-find_entry q tail ((p, e) ∷ (r, f) ∷ xs) (suc k) t s fuel =
      let not_last : (p == tail) ≡ false = rw t (ne_test (first_ne_last p r f xs s.2)) in
      rw (find_loop_step k tail p r e s.0 s.1, not_last)
        (elim (Bool-cases (str_eq e.name name)) [
          | inl hit ↦ rw hit
          | inr miss ↦ rw miss (find_loop-find_entry p tail ((r, f) ∷ xs) k t s.3 (omega arith))
        ])

-- What the methods return for the entry that `find` looks for.
abbrev pub value_of : Option (Ptr × Entry) → Option CStr
value_of none = none
value_of (some (p, e)) = e.value

abbrev pub put_code : Option (Ptr × Entry) → ℤ
put_code none = negsuc 1
put_code (some (p, e)) = pos 0

-- A match is a cell of the list.
pub found_cell :
    (c : Cellmap) (name : CStr) (xs : Cells) (p : Ptr) (e : Entry)
    → IsSeg c xs
    → find_entry name xs ≡ some (p, e)
    → (q : Ptr) × (p ≢ null) × (c p ≡ some (node e q)) × (has p xs ≡ true)
found_cell c name [] p e s f = cc
found_cell c name ((r, g) ∷ xs) p e s f = elim (Bool-cases (str_eq g.name name)) [
  | inl hit ↦ (head_of xs, ground arith, ground arith, ground arith)
  | inr miss ↦
      let (q, ne, holds, i) = found_cell c name xs p e s.3 (ground arith) in
      (q, ne, holds, ground arith)
]

module _ {h : Heap Node} {l : NvList} {xs : Cells} (is : Holds h l xs) (k : ℕ) where
  -- With fuel for every node `find` gives the address of the first entry of that name, or NULL.
  pub find-find_entry :
      (name : CStr) → length xs < k → find k l (some name) h ≡ ok (addr_of (find_entry name xs)) h
  unfolding find
  find-find_entry name fuel =
      rw is.head (find_loop-find_entry name h null l.tail_ptr xs k is.tail is.chain fuel)

  -- `get` gives the value of the first entry of that name, and NULL where there is none.
  pub get-find_entry :
      (name : CStr) → length xs < k → get k l (some name) h ≡ ok (value_of (find_entry name xs)) h
  unfolding get
  get-find_entry name fuel =
      rw (find-find_entry name fuel) (elim (Option-cases (find_entry name xs)) [
        | inl none_found ↦ rw none_found
        | inr ((p, e), hit) ↦
            let (q, ne, holds, i) = found_cell h.cell name xs p e is.chain hit in
            rw (hit, ne_null p ne, load-ok h p (node e q) ne holds)
      ])
