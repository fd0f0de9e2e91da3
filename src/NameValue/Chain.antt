-- ===== src/NameValue/Chain.antt =====
-- When the heap holds a list of src/namevalue.cpp: from `head_ptr` the `next` pointers lead through
-- the cells, at distinct addresses, to NULL.
use dbsqlapi.Prelude.{suc, ◌<◌, ◌≡◌, ◌≢◌, refl, true, false, Option, some, [], ◌∷◌, arith}
use dbsqlapi.Heap.{Ptr, null, Heap, write}
pub use dbsqlapi.Heap.Rules.{ne_null, write_ne, write_self, load-ok, modify-ok, delete-ok}
use dbsqlapi.NameValue.{Node, NvList}
use dbsqlapi.NameValue.Entries.{Entry, Cells, head_of, last_from, last_of, has}

abbrev pub node : Entry → Ptr → Node
node e q = record { name = some e.name; value = e.value; data_type = e.data_type; next = q }

abbrev pub Cellmap : Type 0
Cellmap = Ptr → Option Node

-- A cell and the place after it.
abbrev pub IsSeg : Cellmap → Cells → Type 0
IsSeg c [] = Unit {0}
IsSeg c ((p, e) ∷ xs) =
    (p ≢ null) × (c p ≡ some (node e (head_of xs))) × (has p xs ≡ false) × IsSeg c xs

-- All nodes come from `new`.
abbrev pub Below : Ptr → Cells → Type 0
Below n [] = Unit {0}
Below n ((p, e) ∷ xs) = (p < n) × Below n xs

-- The list object `l` holds the cells `xs`.
pub record Holds (h : Heap Node) (l : NvList) (xs : Cells) : Type 0 where
  pub head : l.head_ptr ≡ head_of xs
  pub tail : l.tail_ptr ≡ last_of xs
  pub chain : IsSeg h.cell xs
  pub below : Below h.next xs
  pub some_next : null < h.next

abbrev pub Disjoint : Cells → Cells → Type 0
Disjoint xs ys = (a : Ptr) → has a xs ≡ true → has a ys ≡ false

-- `d` differs from `c` at most at the addresses of `xs` and from `n` on.
abbrev pub SameOutside : Cells → Ptr → Cellmap → Cellmap → Type 0
SameOutside xs n c d = (a : Ptr) → has a xs ≡ false → a < n → d a ≡ c a

pub IsSeg-frame :
    (c d : Cellmap) (xs : Cells)
    → ((a : Ptr) → has a xs ≡ true → d a ≡ c a)
    → IsSeg c xs
    → IsSeg d xs
IsSeg-frame c d [] same s = tt
IsSeg-frame c d ((p, e) ∷ xs) same s =
    (s.0, ground (arith, same p), s.2, IsSeg-frame c d xs (λ a i. ground (arith, same a)) s.3)

pub IsSeg-write :
    (c : Cellmap) (xs : Cells) (p : Ptr) (v : Option Node)
    → has p xs ≡ false
    → IsSeg c xs
    → IsSeg (write c p v) xs
IsSeg-write c xs p v out s = IsSeg-frame c (write c p v) xs (λ a i. ground arith) s

pub Below-mono : (m n : Ptr) (xs : Cells) → m < suc n → Below m xs → Below n xs
Below-mono m n [] h b = tt
Below-mono m n ((p, e) ∷ xs) h b = (omega arith, Below-mono m n xs h b.1)

pub lt_of_has : (n : Ptr) (xs : Cells) → Below n xs → (a : Ptr) → has a xs ≡ true → a < n
lt_of_has n [] b a i = cc
lt_of_has n ((p, e) ∷ xs) b a i = ground (arith, lt_of_has n xs b.1 a)

pub fresh-not_has : (n m : Ptr) (xs : Cells) → Below n xs → n < suc m → has m xs ≡ false
fresh-not_has n m [] b h = refl
fresh-not_has n m ((p, e) ∷ xs) b h = ground (arith, fresh-not_has n m xs b.1)

pub null-not_has : (c : Cellmap) (xs : Cells) → IsSeg c xs → has null xs ≡ false
null-not_has c [] s = refl
null-not_has c ((p, e) ∷ xs) s = ground (arith, null-not_has c xs s.3)

-- The last address of a list is one of its addresses.
pub has-last_from :
    (p q : Ptr) (e : Entry) (xs : Cells) → has (last_from p ((q, e) ∷ xs)) ((q, e) ∷ xs) ≡ true
has-last_from p q e [] = ground arith
has-last_from p q e ((r, f) ∷ xs) = ground (arith, has-last_from q r f xs)

-- So the first cell is not the last one of a longer list.
pub first_ne_last :
    (p q : Ptr) (e : Entry) (xs : Cells)
    → has p ((q, e) ∷ xs) ≡ false
    → p ≢ last_from p ((q, e) ∷ xs)
first_ne_last p q e xs out = ground (arith, has-last_from p q e xs)

-- An address of the list is none outside it.
pub ne_of_has : (a p : Ptr) (xs : Cells) → has p xs ≡ true → has a xs ≡ false → a ≢ p
ne_of_has a p [] i o = cc
ne_of_has a p ((q, e) ∷ xs) i o = ground (arith, ne_of_has a p xs)
