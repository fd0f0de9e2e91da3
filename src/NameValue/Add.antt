-- ===== src/NameValue/Add.antt =====
-- The two `add` methods of src/namevalue.cpp.
use mathlib.Core.Option
use dbsqlapi.Prelude.{
  suc, ◌<◌, ◌≡◌, ◌≢◌, refl, sym, ap, ◌∙◌, true, false, Option, none, some, [], ◌∷◌, ◌++◌, ℤ, pos,
  negsuc, arith, CStr,
}
use dbsqlapi.Heap.{Ptr, null, Heap, Run, Cmd, ok, pure, ◌>>=◌, ◌>>◌, write, put_cell, modify, alloc}
use dbsqlapi.NameValue.{Node, NvList, blank, link, add_type, add_value}
use dbsqlapi.NameValue.Entries.{Entry, Cells, last_from, has, has-append}
use dbsqlapi.NameValue.Chain.{
  node, Cellmap, IsSeg, Below, Holds, SameOutside, modify-ok, ne_null, write_ne, write_self,
  ne_of_has, has-last_from, first_ne_last, fresh-not_has,
}

last_from-snoc : (q p : Ptr) (e : Entry) (xs : Cells) → last_from q (xs ++ (p, e) ∷ []) ≡ p
last_from-snoc q p e [] = refl
last_from-snoc q p e ((r, f) ∷ xs) = last_from-snoc r p e xs

Below-snoc :
    (n m p : Ptr) (e : Entry) (xs : Cells)
    → Below n xs
    → n < m
    → p < m
    → Below m (xs ++ (p, e) ∷ [])
Below-snoc n m p e [] b h k = (k, tt)
Below-snoc n m p e ((r, f) ∷ xs) b h k = (omega arith, Below-snoc n m p e xs b.1 h k)

has-snoc :
    (a p : Ptr) (e : Entry) (xs : Cells)
    → has a xs ≡ false
    → a ≢ p
    → has a (xs ++ (p, e) ∷ []) ≡ false
has-snoc a p e xs out ne = rw (has-append a xs ((p, e) ∷ []), out) (ground arith)

IsSeg-last :
    (c : Cellmap) (q : Ptr) (b : Entry) (ys : Cells)
    → IsSeg c ((q, b) ∷ ys)
    → (n : Node) × (c (last_from q ys) ≡ some n) × (last_from q ys ≢ null)
IsSeg-last c q b [] s = (node b null, s.1, s.0)
IsSeg-last c q b ((r, f) ∷ ys) s = IsSeg-last c r f ys s.3

module _ (c d : Cellmap) (p : Ptr) (e : Entry) (holds : d p ≡ some (node e null))
    (ne : p ≢ null) where
  -- The chain with a node more, behind the node that was the last.
  IsSeg-snoc :
      (q : Ptr) (b : Entry) (ys : Cells)
      → IsSeg c ((q, b) ∷ ys)
      → has p ((q, b) ∷ ys) ≡ false
      → ((n : Node)
          → c (last_from q ys) ≡ some n
          → d (last_from q ys) ≡ some (record n { next = p }))
      → ((a : Ptr) → has a ((q, b) ∷ ys) ≡ true → a ≢ last_from q ys → d a ≡ c a)
      → IsSeg d ((q, b) ∷ (ys ++ (p, e) ∷ []))
  IsSeg-snoc q b [] s out linked same =
      (s.0, linked (node b null) s.1, ground arith, (ne, holds, refl, tt))
  IsSeg-snoc q b ((r, f) ∷ ys) s out linked same = (
    s.0,
    same q (ground arith) (first_ne_last q r f ys s.2) ∙ s.1,
    has-snoc q p e ((r, f) ∷ ys) s.2 (ground arith),
    IsSeg-snoc r f ys s.3 (ground arith) linked (λ a i ne'. same a (ground arith) ne'),
  )

-- The two methods differ in the last assignments to the node.
abbrev assign : (Node → Node) → Ptr → NvList → Cmd Node (ℤ × NvList)
assign f ptr l = do modify ptr (λ n. record n { next = null }); modify ptr f; pure (pos 0, l)

abbrev add_with : NvList → (Node → Node) → Cmd Node (ℤ × NvList)
add_with l f = do ptr ← alloc blank; l' ← link l ptr; assign f ptr l'

-- What an `add` that got the entry `e` leaves behind: a node at the end of the list, and no other
-- object touched.
pub record Added (h : Heap Node) (xs : Cells) (e : Entry) (g : Heap Node) (l : NvList)
    : Type 0 where
  pub list : Holds g l (xs ++ (h.next, e) ∷ [])
  pub bumped : g.next ≡ suc h.next
  pub same : SameOutside xs h.next h.cell g.cell

module _ (f : Node → Node) (e : Entry) (made : f blank ≡ node e null) where
  -- The heap after the assignments to the new node.
  abbrev finished : Heap Node → Ptr → Heap Node
  finished h p = put_cell (put_cell h p (some blank)) p (some (node e null))

  finish :
      (h : Heap Node) (p : Ptr) (l : NvList)
      → p ≢ null
      → h.cell p ≡ some blank
      → assign f p l h ≡ ok (pos 0, l) (finished h p)
  finish h p l ne new = rw (modify-ok h p blank (λ n. record n { next = null }) ne new) (
      rw (
        modify-ok (put_cell h p (some blank)) p blank f ne (write_self h.cell p (some blank)),
        made,
      ))

  module _ {h : Heap Node} {l : NvList} where
    add_with-nil :
        Holds h l []
        → (g : Heap Node) × (l' : NvList) × (add_with l f h ≡ ok (pos 0, l') g) × Added h [] e g l'
    unfolding link alloc
    add_with-nil is = (
      finished (record { cell = write h.cell h.next (some blank); next = suc h.next }) h.next,
      record { curr_ptr = h.next; head_ptr = h.next; tail_ptr = h.next },
      rw is.head
          (finish _ h.next _ (omega (arith, is.some_next)) (write_self h.cell h.next (some blank))),
      record {
        list = record {
          head = refl;
          tail = refl;
          chain = (
            omega (arith, is.some_next),
            write_self (write (write h.cell h.next (some blank)) h.next (some blank)) h.next
                (some (node e null)),
            refl,
            tt,
          );
          below = omega arith;
          some_next = omega arith;
        };
        bumped = refl;
        same = λ a o b. ground arith;
      },
    )

    add_with-cons :
        (q : Ptr) (b : Entry) (ys : Cells)
        → Holds h l ((q, b) ∷ ys)
        → (g : Heap Node) × (l' : NvList) × (add_with l f h ≡ ok (pos 0, l') g)
          × Added h ((q, b) ∷ ys) e g l'
    unfolding link alloc
    add_with-cons q b ys is = (
      finished h2 p,
      record l { tail_ptr = p },
      rw (is.head, ne_null q is.chain.0, is.tail)
          (rw
            (modify-ok h1 t n (λ n. record n { next = p }) ne_t (write_ne h.cell p t _ t_ne ∙ at_t))
            (finish h2 p _ p_ne
              (write_ne h1.cell t p _ (ne_of_has p t xs i out) ∙ write_self h.cell p _))),
      record {
        list = record {
          head = is.head;
          tail = sym (last_from-snoc q p e ys);
          chain =
              IsSeg-snoc h.cell d p e
                (write_self (write h2.cell p (some blank)) p (some (node e null))) p_ne q b ys
                is.chain out linked (λ a j ne'. elsewhere a ne' (ne_of_has' a j));
          below = Below-snoc h.next (suc p) p e xs is.below (omega arith) (omega arith);
          some_next = omega arith;
        };
        bumped = refl;
        same = λ a o lt. elsewhere a (ne_of_has a t xs i o) (omega arith);
      },
    )
      where
        p : Ptr
        p = h.next

        xs : Cells
        xs = (q, b) ∷ ys

        t : Ptr
        t = last_from q ys

        last : (n : Node) × (h.cell t ≡ some n) × (t ≢ null)
        last = IsSeg-last h.cell q b ys is.chain

        n : Node
        n = last.0

        at_t : h.cell t ≡ some n
        at_t = last.1

        ne_t : t ≢ null
        ne_t = last.2

        p_ne : p ≢ null
        p_ne = omega (arith, is.some_next)

        out : has p xs ≡ false
        out = fresh-not_has p p xs is.below (omega arith)

        i : has t xs ≡ true
        i = has-last_from null q b ys

        t_ne : t ≢ p
        t_ne = λ e'. ne_of_has p t xs i out (sym e')

        h1 : Heap Node
        h1 = record { cell = write h.cell p (some blank); next = suc p }

        h2 : Heap Node
        h2 = put_cell h1 t (some (record n { next = p }))

        d : Cellmap
        d = (finished h2 p).cell

        not_p : (a : Ptr) → a ≢ p → d a ≡ h2.cell a
        not_p a ne =
            write_ne (write h2.cell p (some blank)) p a (some (node e null)) ne
            ∙ write_ne h2.cell p a (some blank) ne

        elsewhere : (a : Ptr) → a ≢ t → a ≢ p → d a ≡ h.cell a
        elsewhere a nt np =
            not_p a np
            ∙ write_ne h1.cell t a (some (record n { next = p })) nt
            ∙ write_ne h.cell p a (some blank) np

        ne_of_has' : (a : Ptr) → has a xs ≡ true → a ≢ p
        ne_of_has' a j = λ e'. ne_of_has p a xs j out (sym e')

        linked : (m : Node) → h.cell t ≡ some m → d t ≡ some (record m { next = p })
        linked m e' =
            not_p t t_ne
            ∙ write_self h1.cell t (some (record n { next = p }))
            ∙ ap (Option.map {A = Node} {B = Node} (λ k. record k { next = p })) (sym at_t ∙ e')

abbrev pub Adds : Heap Node → Cells → Entry → Run Node (ℤ × NvList) → Type 0
Adds h xs e r = (g : Heap Node) × (l' : NvList) × (r ≡ ok (pos 0, l') g) × Added h xs e g l'

add_with-Adds :
    (f : Node → Node) (e : Entry)
    → f blank ≡ node e null
    → (h : Heap Node) (l : NvList) (xs : Cells) → Holds h l xs
    → Adds h xs e (add_with l f h)
add_with-Adds f e made h l [] is = add_with-nil f e made is
add_with-Adds f e made h l ((q, b) ∷ ys) is = add_with-cons f e made q b ys is

module _ {h : Heap Node} {l : NvList} {xs : Cells} (is : Holds h l xs) (name : CStr) where
  -- On a well-formed list `add(name, dataType)` with a name puts a node with that name and type
  -- and no value at the end, returns 0, and touches no other object.
  pub add_type-Adds :
      (data_type : ℤ)
      → Adds h xs
          (record { name = name; value = none; data_type = data_type })
          (add_type l (some name) data_type h)
  unfolding add_type
  add_type-Adds data_type = add_with-Adds _ _ refl h l xs is

  -- On a well-formed list `add(name, value)` with a name puts a node with that name and value and
  -- type -1 at the end, returns 0, and touches no other object.
  pub add_value-Adds :
      (value : Option CStr)
      → Adds h xs
          (record { name = name; value = value; data_type = negsuc 0 })
          (add_value l (some name) value h)
  unfolding add_value
  add_value-Adds value = add_with-Adds _ _ refl h l xs is
