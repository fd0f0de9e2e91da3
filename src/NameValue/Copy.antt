-- ===== src/NameValue/Copy.antt =====
-- `copy` of src/namevalue.cpp. A value is set by name, so where a name comes twice the first entry
-- of that name gets the later value.
use dbsqlapi.Prelude.{
  ℕ, zero, suc, ◌+◌, ◌<◌, ◌≡◌, refl, ap, ◌∙◌, true, false, Option, none, some, List, [], ◌∷◌, ◌++◌,
  ℤ, pos, arith, CStr, length, length-append,
}
use dbsqlapi.Heap.{Ptr, Heap, Run, ok}
use dbsqlapi.NameValue.{Node, NvList, add_type, put_if, copy_loop}
use dbsqlapi.NameValue.Entries.{
  Entry, Cells, entries, head_of, has, has-append, set_cell, set_value, has-set_cell,
  entries-set_cell, entries-append,
}
use dbsqlapi.NameValue.Chain.{
  node, IsSeg, Below, Holds, Disjoint, SameOutside, IsSeg-frame, load-ok, ne_null, lt_of_has,
  Below-mono,
}
use dbsqlapi.NameValue.Put.{put-set_cell, length-set_cell}
use dbsqlapi.NameValue.Add.{Added, add_type-Adds}

abbrev pub set_if : CStr → Option CStr → List Entry → List Entry
set_if name none es = es
set_if name (some v) es = set_value name (some v) es

abbrev set_cell_if : CStr → Option CStr → Cells → Cells
set_cell_if name none xs = xs
set_cell_if name (some v) xs = set_cell name (some v) xs

-- The entry as `add` makes it, without a value.
abbrev pub bare : Entry → Entry
bare e = record e { value = none }

-- What the loop makes of the entries that are left, after those copied so far.
abbrev pub copied : List Entry → List Entry → List Entry
copied acc [] = acc
copied acc (e ∷ es) = copied (set_if e.name e.value (acc ++ bare e ∷ [])) es

entries-set_cell_if :
    (name : CStr) (v : Option CStr) (xs : Cells)
    → entries (set_cell_if name v xs) ≡ set_if name v (entries xs)
entries-set_cell_if name none xs = refl
entries-set_cell_if name (some v) xs = entries-set_cell name (some v) xs

has-set_cell_if :
    (a : Ptr) (name : CStr) (v : Option CStr) (xs : Cells)
    → has a (set_cell_if name v xs) ≡ has a xs
has-set_cell_if a name none xs = refl
has-set_cell_if a name (some v) xs = has-set_cell a name (some v) xs

length-set_cell_if :
    (name : CStr) (v : Option CStr) (xs : Cells) → length (set_cell_if name v xs) ≡ length xs
length-set_cell_if name none xs = refl
length-set_cell_if name (some v) xs = length-set_cell name (some v) xs

put_if-set_cell :
    {h : Heap Node} {l : NvList} {xs : Cells} (is : Holds h l xs) (k : ℕ)
    → length xs < k
    → (name : CStr) (v : Option CStr)
    → (g : Heap Node) × (put_if k l (some name) v h ≡ ok tt g)
      × Holds g l (set_cell_if name v xs)
      × (g.next ≡ h.next)
      × SameOutside xs h.next h.cell g.cell
unfolding put_if
put_if-set_cell {h} is k fuel name none = (h, refl, is, refl, λ a o b. refl)
put_if-set_cell is k fuel name (some v) =
    let (g, run, is', n, same) = put-set_cell is k fuel name (some v) in (g, rw run, is', n, same)

-- The loop has run: the destination holds `es`, and what was there before is as it was, but for the
-- destination's nodes.
pub record Copies (h : Heap Node) (zs : Cells) (es : List Entry) (r : Run Node (ℤ × NvList))
    : Type 0 where
  pub after : Heap Node
  pub list : NvList
  pub cells : Cells
  pub run : r ≡ ok (pos 0, list) after
  pub holds : Holds after list cells
  pub contents : entries cells ≡ es
  pub grows : h.next < suc after.next
  pub same : SameOutside zs h.next h.cell after.cell

-- One round: the node that is added, and the value that it gets.
module _ (m : ℕ) (h : Heap Node) (dest : NvList) (zs : Cells) (p : Ptr) (e : Entry) (ws : Cells)
    (is : Holds h dest zs) (s : IsSeg h.cell ((p, e) ∷ ws)) (b : Below h.next ((p, e) ∷ ws))
    (apart : Disjoint ((p, e) ∷ ws) zs) (fuel : length zs + suc (length ws) < m) where
  added :
      (g : Heap Node) × (l : NvList) × (add_type dest (some e.name) e.data_type h ≡ ok (pos 0, l) g)
      × Added h zs (bare e) g l
  added = add_type-Adds is e.name e.data_type

  abbrev g1 : Heap Node
  g1 = added.0

  abbrev dest1 : NvList
  dest1 = added.1

  one : Added h zs (bare e) g1 dest1
  one = added.3

  abbrev zs1 : Cells
  zs1 = zs ++ (h.next, bare e) ∷ []

  len1 : length zs1 ≡ suc (length zs)
  len1 = omega (arith, length-append {0} zs ((h.next, bare e) ∷ []))

  kept1 : (a : Ptr) → has a ((p, e) ∷ ws) ≡ true → g1.cell a ≡ h.cell a
  kept1 a i = one.same a (apart a i) (lt_of_has h.next ((p, e) ∷ ws) b a i)

  written :
      (g : Heap Node) × (put_if m dest1 (some e.name) e.value g1 ≡ ok tt g)
      × Holds g dest1 (set_cell_if e.name e.value zs1)
      × (g.next ≡ g1.next)
      × SameOutside zs1 g1.next g1.cell g.cell
  written = put_if-set_cell one.list m (omega (arith, len1, fuel)) e.name e.value

  abbrev g2 : Heap Node
  g2 = written.0

  abbrev zs2 : Cells
  zs2 = set_cell_if e.name e.value zs1

  new_out : (a : Ptr) → has a zs ≡ false → a < h.next → has a zs1 ≡ false
  new_out a o lt = rw (has-append a zs ((h.next, bare e) ∷ []), o) (ground arith)

  kept2 : SameOutside zs h.next h.cell g2.cell
  kept2 a o lt = written.4 a (new_out a o lt) (omega (arith, one.bumped)) ∙ one.same a o lt

  source : IsSeg g2.cell ws
  source =
      IsSeg-frame h.cell g2.cell ws
        (λ a i. kept2 a (apart a (ground arith)) (lt_of_has h.next ws b.1 a i)) s.3

  p_out : has p zs ≡ false
  p_out = apart p (ground arith)

  at_p : g2.cell p ≡ some (node e (head_of ws))
  at_p = kept2 p p_out b.0 ∙ s.1

  has-zs2 : (a : Ptr) → has a zs2 ≡ has a zs1
  has-zs2 a = has-set_cell_if a e.name e.value zs1

  below2 : Below g2.next ws
  below2 = Below-mono h.next g2.next ws (omega (arith, one.bumped, written.3)) b.1

  apart2 : Disjoint ws zs2
  apart2 a i = has-zs2 a ∙ new_out a (apart a (ground arith)) (lt_of_has h.next ws b.1 a i)

  length-zs2 : length zs2 ≡ suc (length zs)
  length-zs2 = length-set_cell_if e.name e.value zs1 ∙ len1

  entries-zs2 : entries zs2 ≡ set_if e.name e.value (entries zs ++ bare e ∷ [])
  entries-zs2 =
      entries-set_cell_if e.name e.value zs1
      ∙ ap (set_if e.name e.value) (entries-append zs ((h.next, bare e) ∷ []))

  Copies-step :
      (k : ℕ)
      → Copies g2 zs2 (copied (entries zs2) (entries ws)) (copy_loop m k dest1 (head_of ws) g2)
      → Copies h zs
          (copied (set_if e.name e.value (entries zs ++ bare e ∷ [])) (entries ws))
          (copy_loop m (suc k) dest p h)
  unfolding copy_loop
  Copies-step k rest = record {
    after = rest.after;
    list = rest.list;
    cells = rest.cells;
    run =
        rw (ne_null p s.0, load-ok h p (node e (head_of ws)) s.0 s.1)
          (rw added.2 (
            rw (load-ok g1 p (node e (head_of ws)) s.0 (kept1 p (ground arith) ∙ s.1))
              (rw written.1 (rw (load-ok g2 p (node e (head_of ws)) s.0 at_p) rest.run))));
    holds = rest.holds;
    contents = rest.contents ∙ ap (λ es. copied es (entries ws)) entries-zs2;
    grows = omega (arith, rest.grows, one.bumped, written.3);
    same = λ a o lt.
        rest.same a (has-zs2 a ∙ new_out a o lt) (omega (arith, one.bumped, written.3))
        ∙ kept2 a o lt;
  }

pub copy_loop-Copies :
    (m k : ℕ) (h : Heap Node) (dest : NvList) (zs ws : Cells)
    → Holds h dest zs
    → IsSeg h.cell ws
    → Below h.next ws
    → Disjoint ws zs
    → length ws < k
    → length zs + length ws < m
    → Copies h zs (copied (entries zs) (entries ws)) (copy_loop m k dest (head_of ws) h)
unfolding copy_loop
copy_loop-Copies m zero h dest zs ws is s b apart fuel fuel' = absurd (omega arith)
copy_loop-Copies m (suc k) h dest zs [] is s b apart fuel fuel' = record {
  after = h;
  list = dest;
  cells = zs;
  run = refl;
  holds = is;
  contents = refl;
  grows = omega arith;
  same = λ a o lt. refl;
}
copy_loop-Copies m (suc k) h dest zs ((p, e) ∷ ws) is s b apart fuel fuel' =
    Copies-step m h dest zs p e ws is s b apart fuel' k (
      copy_loop-Copies m k (g2 m h dest zs p e ws is s b apart fuel')
        (dest1 m h dest zs p e ws is s b apart fuel') (zs2 m h dest zs p e ws is s b apart fuel') ws
        (written m h dest zs p e ws is s b apart fuel').2
        (source m h dest zs p e ws is s b apart fuel')
        (below2 m h dest zs p e ws is s b apart fuel')
        (apart2 m h dest zs p e ws is s b apart fuel') (omega arith)
        (omega (arith, length-zs2 m h dest zs p e ws is s b apart fuel')))
