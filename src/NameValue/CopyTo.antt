-- ===== src/NameValue/CopyTo.antt =====
-- `copy` of src/namevalue.cpp as a whole: to another list, and to the list itself.
use mathlib.Core.List.{append-nil, append_assoc}
use dbsqlapi.Prelude.{
  ℕ, suc, ◌<◌, ◌≡◌, refl, sym, ap, ◌∙◌, true, false, Option, none, some, List, [], ◌∷◌, ◌++◌, pos,
  arith, CStr, ◌==◌, str_eq, length, str_eq_refl,
}
use mathlib.Core.Bool.{false≢true}
use dbsqlapi.Heap.{Ptr, null, Heap, ok, fault, load, when◌run◌otherwise◌}
use dbsqlapi.NameValue.{Node, NvList, init, free, copy_loop, copy}
use dbsqlapi.NameValue.Entries.{Entry, Cells, entries, has, set_value}
use dbsqlapi.NameValue.Chain.{IsSeg, Holds, Disjoint, IsSeg-frame, ne_null, lt_of_has, Below-mono}
use dbsqlapi.NameValue.Free.{free-Freed}
use dbsqlapi.NameValue.Copy.{copied, bare, set_if, copy_loop-Copies}

-- No entry of that name.
abbrev pub Unnamed : CStr → List Entry → Type 0
Unnamed name [] = Unit {0}
Unnamed name (e ∷ es) = (str_eq e.name name ≡ false) × Unnamed name es

-- No name comes twice.
abbrev pub HasDistinctNames : List Entry → List Entry → Type 0
HasDistinctNames acc [] = Unit {0}
HasDistinctNames acc (e ∷ es) = Unnamed e.name acc × HasDistinctNames (acc ++ e ∷ []) es

set_value-snoc :
    (e : Entry) (v : Option CStr) (acc : List Entry)
    → str_eq e.name e.name ≡ true
    → Unnamed e.name acc
    → set_value e.name v (acc ++ bare e ∷ []) ≡ acc ++ record e { value = v } ∷ []
set_value-snoc e v [] h u = rw h
set_value-snoc e v (f ∷ acc) h u = rw (u.0, set_value-snoc e v acc h u.1)

set_if-snoc :
    (e : Entry) (v : Option CStr) (acc : List Entry)
    → Unnamed e.name acc
    → set_if e.name v (acc ++ bare e ∷ []) ≡ acc ++ record e { value = v } ∷ []
set_if-snoc e none acc u = refl
set_if-snoc e (some s) acc u = set_value-snoc e (some s) acc (str_eq_refl e.name) u

copied-distinct : (acc es : List Entry) → HasDistinctNames acc es → copied acc es ≡ acc ++ es
copied-distinct acc [] d = sym (append-nil acc)
copied-distinct acc (e ∷ es) d =
    ap (λ zs. copied zs es) (set_if-snoc e e.value acc d.0)
    ∙ copied-distinct (acc ++ e ∷ []) es d.1
    ∙ append_assoc acc (e ∷ []) es

-- A copy that succeeds: the nodes `ys` that the destination held are deleted, it holds the entries `es`, and
-- the source is as it was.
pub record CopyOf (h : Heap Node) (k : ℕ) (l dest : NvList) (xs ys : Cells) (es : List Entry)
    : Type 0 where
  pub after : Heap Node
  pub list : NvList
  pub cells : Cells
  pub ran : copy k l (some dest) h ≡ ok (pos 0, some list) after
  pub holds : Holds after list cells
  pub contents : entries cells ≡ es
  pub source : Holds after l xs
  pub gone : (a : Ptr) → has a ys ≡ true → after.cell a ≡ none

-- The destination once it is emptied.
record Emptied (h : Heap Node) (k : ℕ) (dest : NvList) (ys : Cells) : Type 0 where
  heap : Heap Node
  ran : (when dest.head_ptr == null run (λ g. ok init g) otherwise free k dest) h ≡ ok init heap
  holds : Holds heap init []
  same : (a : Ptr) → has a ys ≡ false → heap.cell a ≡ h.cell a
  next : heap.next ≡ h.next
  gone : (a : Ptr) → has a ys ≡ true → heap.cell a ≡ none

emptied :
    {h : Heap Node} {dest : NvList} (ys : Cells) (k : ℕ)
    → Holds h dest ys
    → length ys < k
    → Emptied h k dest ys
emptied {h} [] k is fuel = record {
  heap = h;
  ran = rw is.head;
  holds = record { head = refl; tail = refl; chain = tt; below = tt; some_next = is.some_next };
  same = λ a o. refl;
  next = refl;
  gone = λ a i. absurd (false≢true i);
}
emptied {dest} ((q, e) ∷ ys) k is fuel =
    let linked : (dest.head_ptr == null) ≡ false = rw is.head (ne_null q is.chain.0) in
    let (g, freed, f, none_left) = free-Freed k is fuel in
    record {
      heap = g;
      ran = rw linked freed;
      holds = none_left;
      same = f.same;
      next = f.next;
      gone = f.gone;
    }

module _ {h : Heap Node} {l : NvList} {xs : Cells} (is : Holds h l xs) (k : ℕ)
    (fuel : length xs < k) where
  module _ {dest : NvList} {ys : Cells} (is' : Holds h dest ys) (apart : Disjoint xs ys)
      (fuel' : length ys < k) where
    -- With fuel for every node, copying to a list that shares no node with the source succeeds: it
    -- deletes each node that the destination held and gives it the entries of the source, each value going to
    -- the first entry of its name so far. The source is not changed.
    pub copy-copied : CopyOf h k l dest xs ys (copied [] (entries xs))
    unfolding copy
    copy-copied =
        let v = emptied ys k is' fuel' in
        let s : IsSeg v.heap.cell xs =
          IsSeg-frame h.cell v.heap.cell xs (λ a i. v.same a (apart a i)) is.chain in
        let c =
          copy_loop-Copies k k v.heap init [] xs v.holds s (rw v.next is.below) (λ a i. refl) fuel
            (omega arith) in
        record {
          after = c.after;
          list = c.list;
          cells = c.cells;
          ran = rw (v.ran, is.head, c.run);
          holds = c.holds;
          contents = c.contents;
          source = record {
            head = is.head;
            tail = is.tail;
            chain =
                IsSeg-frame h.cell c.after.cell xs
                  (λ a i.
                    c.same a refl (rw v.next (lt_of_has h.next xs is.below a i))
                    ∙ v.same a (apart a i))
                  is.chain;
            below = Below-mono h.next c.after.next xs (omega (arith, c.grows, v.next)) is.below;
            some_next = c.holds.some_next;
          };
          gone = λ a i. c.same a refl (rw v.next (lt_of_has h.next ys is'.below a i)) ∙ v.gone a i;
        }

    -- Where no name comes twice in the source, and no node of it is in the destination, copying
    -- succeeds with fuel for every node: the nodes that the destination held are deleted, it holds
    -- the entries of the source, in order, and the source is as it was.
    pub copy-distinct : HasDistinctNames [] (entries xs) → CopyOf h k l dest xs ys (entries xs)
    copy-distinct d =
        let c = copy-copied in
        record {
          after = c.after;
          list = c.list;
          cells = c.cells;
          ran = c.ran;
          holds = c.holds;
          contents = c.contents ∙ copied-distinct [] (entries xs) d;
          source = c.source;
          gone = c.gone;
        }

-- With fuel for every node, copying a list that is not empty to itself reads a node that it has
-- just deleted.
pub copy_self :
    {h : Heap Node} {l : NvList} {p : Ptr} {e : Entry} {xs : Cells} (k : ℕ)
    → Holds h l ((p, e) ∷ xs)
    → length xs < k
    → copy (suc k) l (some l) h ≡ fault
unfolding copy copy_loop load
copy_self {h} {l} {p} {e} {xs} k is fuel =
    let (g, freed, f, none_left) = free-Freed (suc k) is (omega arith) in
    let linked : (l.head_ptr == null) ≡ false = rw is.head (ne_null p is.chain.0) in
    rw (linked, freed) (rw linked (rw (is.head, f.gone p (ground arith))))
