-- ===== src/NameValue/Walk.antt =====
-- The walks of src/namevalue.cpp along a list: the counts, and the iteration by get_fitem and
-- get_nitem.
use dbsqlapi.Prelude.{
  ℕ, zero, suc, ◌+◌, ◌<◌, ◌≡◌, refl, ap, ◌∙◌, Option, some, List, [], ◌∷◌, ℤ, is_ok, arith, length,
}
use dbsqlapi.Heap.{Ptr, Heap, Cmd, ok, out_of_fuel, pure, ◌>>=◌, when◌run◌otherwise◌}
use dbsqlapi.NameValue.{
  Node, NvList, Item, strlen_or_zero, count_loop, all_count, mem, mem_all, get_fitem, get_nitem,
}
use dbsqlapi.NameValue.Entries.{Entry, Cells, entries, head_of}
use dbsqlapi.NameValue.Chain.{node, IsSeg, Holds, load-ok, ne_null}

abbrev pub sum_by : (Entry → ℕ) → List Entry → ℕ
sum_by f [] = 0
sum_by f (e ∷ es) = f e + sum_by f es

count_loop-sum_by :
    (k : ℕ) (weight : Node → ℕ) (f : Entry → ℕ)
    → ((e : Entry) (q : Ptr) → weight (node e q) ≡ f e)
    → (h : Heap Node) (xs : Cells) (cnt : ℕ) → IsSeg h.cell xs
    → length xs < k
    → count_loop k weight (head_of xs) cnt h ≡ ok (cnt + sum_by f (entries xs)) h
unfolding count_loop
count_loop-sum_by zero weight f w h xs cnt s fuel = absurd (omega arith)
count_loop-sum_by (suc k) weight f w h [] cnt s fuel = ap (λ n. ok n h) (omega arith)
count_loop-sum_by (suc k) weight f w h ((p, e) ∷ xs) cnt s fuel =
    rw (ne_null p s.0, load-ok h p (node e (head_of xs)) s.0 s.1, w e (head_of xs))
      (count_loop-sum_by k weight f w h xs (cnt + f e) s.3 (omega arith)
        ∙ ap (λ n. ok n h) (omega arith))

abbrev pub value_len : Entry → ℕ
value_len e = strlen_or_zero e.value

length-entries : (xs : Cells) → sum_by (λ e. 1) (entries xs) ≡ length xs
length-entries [] = refl
length-entries ((p, e) ∷ xs) = omega (arith, length-entries xs)

-- The loop that a caller writes with the two methods, from a result on.
pub collect : ℕ → ℤ × Option Item × NvList → Cmd Node (List (Option Item))
collect zero r = λ _. out_of_fuel
collect (suc k) (rtn, item, l) =
    when is_ok rtn
    run (do
      items ← do collect k (← get_nitem l)
      pure (item ∷ items))
    otherwise pure []

abbrev pub visit : ℕ → NvList → Cmd Node (List (Option Item))
visit k l = do collect k (← get_fitem l)

abbrev pub items : List Entry → List (Option Item)
items [] = []
items (e ∷ es) =
    some (record { item_name = some e.name; item_value = e.value; item_type = e.data_type })
    ∷ items es

-- From a pointer on the way the rest of the list is visited.
collect-items :
    (k : ℕ) (h : Heap Node) (l : NvList) (xs : Cells)
    → IsSeg h.cell xs
    → l.curr_ptr ≡ head_of xs
    → length xs < k
    → (do collect k (← get_nitem l)) h ≡ ok (items (entries xs)) h
unfolding collect get_nitem
collect-items zero h l xs s at_xs fuel = absurd (omega arith)
collect-items (suc k) h l [] s at_xs fuel = rw at_xs
collect-items (suc k) h l ((p, e) ∷ xs) s at_xs fuel =
    rw (at_xs, ne_null p s.0, load-ok h p (node e (head_of xs)) s.0 s.1)
      (rw (collect-items k h (record l { curr_ptr = head_of xs }) xs s.3 refl (omega arith)))

visit-items' :
    (k : ℕ) (h : Heap Node) (l : NvList) (xs : Cells)
    → IsSeg h.cell xs
    → l.head_ptr ≡ head_of xs
    → length xs < k
    → visit k l h ≡ ok (items (entries xs)) h
unfolding get_fitem collect
visit-items' zero h l xs s at_xs fuel = absurd (omega arith)
visit-items' (suc k) h l [] s at_xs fuel = rw at_xs
visit-items' (suc k) h l ((p, e) ∷ xs) s at_xs fuel =
    rw (at_xs, ne_null p s.0, load-ok h p (node e (head_of xs)) s.0 s.1)
      (rw (
        collect-items k h (record { head_ptr = p; tail_ptr = l.tail_ptr; curr_ptr = head_of xs }) xs
          s.3 refl (omega arith)))

count_from_head :
    (k : ℕ) (weight : Node → ℕ) (f : Entry → ℕ)
    → ((e : Entry) (q : Ptr) → weight (node e q) ≡ f e)
    → (h : Heap Node) (p : Ptr) (xs : Cells) → p ≡ head_of xs
    → IsSeg h.cell xs
    → length xs < k
    → count_loop k weight p 0 h ≡ ok (sum_by f (entries xs)) h
count_from_head k weight f w h p xs at_xs s fuel =
    rw at_xs (count_loop-sum_by k weight f w h xs 0 s fuel ∙ ap (λ n. ok n h) (omega arith))

module _ {h : Heap Node} {l : NvList} {xs : Cells} (is : Holds h l xs) (k : ℕ)
    (fuel : length xs < k) where
  -- With fuel for every node `allCount` is the number of entries, `mem` the total length of the
  -- values, and `mem_all` the total length of values and names. None of the three changes the
  -- heap.
  pub counts :
      (all_count k l h ≡ ok (length xs) h)
      × (mem k l h ≡ ok (sum_by value_len (entries xs)) h)
      × (mem_all k l h ≡ ok (sum_by (λ e. value_len e + length e.name) (entries xs)) h)
  unfolding all_count mem mem_all
  counts = (
    rw (← length-entries xs)
        (count_from_head k (λ n. 1) (λ e. 1) (λ e q. refl) h l.head_ptr xs is.head is.chain fuel),
    count_from_head k (λ n. strlen_or_zero n.value) value_len (λ e q. refl) h l.head_ptr xs is.head
        is.chain fuel,
    count_from_head k (λ n. strlen_or_zero n.value + strlen_or_zero n.name)
        (λ e. value_len e + length e.name) (λ e q. refl) h l.head_ptr xs is.head is.chain fuel,
  )

  -- With fuel for every node a loop by `get_fitem` and `get_nitem` visits every entry once, in
  -- order, and stops at -3; it changes no node.
  pub visit-items : visit k l h ≡ ok (items (entries xs)) h
  visit-items = visit-items' k h l xs is.chain is.head fuel
