-- ===== src/Heap.antt =====
-- The C++ heap as the linked lists of the program use it (src/namevalue.cpp, src/mysqlapi.h):
-- objects of one node type at addresses, and commands that read and write them.
pub mod Rules
use dbsqlapi.Prelude.{ℕ, suc, Bool, Option, none, some, ◌==◌, if◌then◌else◌}

abbrev pub Ptr : Type 0
Ptr = ℕ

abbrev pub null : Ptr
null = 0

-- `new` hands out the address `next`, and never an address twice.
pub record Heap (N : Type 0) : Type 0 where
  pub cell : Ptr → Option N
  pub next : Ptr

-- `fault` is undefined behaviour: an access through NULL or to an object that was deleted.
pub data Run (N A : Type 0) : Type 0 where
  ok : A → Heap N → Run N A
  fault : Run N A
  out_of_fuel : Run N A

abbrev pub Cmd : Type 0 → Type 0 → Type 0
Cmd N A = Heap N → Run N A

abbrev pub pure : {N A : Type 0} → A → Cmd N A
pure a h = ok a h

module _ {N A B : Type 0} where
  abbrev pub and_then : Run N A → (A → Cmd N B) → Run N B
  and_then (ok a h) k = k a h
  and_then fault k = fault
  and_then out_of_fuel k = out_of_fuel

  infixl 5 ◌>>=◌
  abbrev pub ◌>>=◌ : Cmd N A → (A → Cmd N B) → Cmd N B
  ◌>>=◌ m k h = and_then (m h) k

infixl 5 ◌>>◌
abbrev pub ◌>>◌ : {N B : Type 0} → Cmd N (Unit {0}) → Cmd N B → Cmd N B
m >> k = m >>= λ _. k

-- A test that chooses between two commands.
infix 1 when◌run◌otherwise◌
abbrev pub when◌run◌otherwise◌ : {N A : Type 0} → Bool → Cmd N A → Cmd N A → Cmd N A
when◌run◌otherwise◌ b m k h = if b then m h else k h

module _ {N : Type 0} where
  abbrev pub write : (Ptr → Option N) → Ptr → Option N → Ptr → Option N
  write c p v a = if a == p then v else c a

  abbrev pub put_cell : Heap N → Ptr → Option N → Heap N
  put_cell h p v = record h { cell = write h.cell p v }

  -- `*p`
  unfoldable pub load : Ptr → Cmd N N
  load p h = if p == null then fault else elim (h.cell p) [ none ↦ fault | some n ↦ ok n h ]

  -- `*p = f(*p)`
  unfoldable pub modify : Ptr → (N → N) → Cmd N (Unit {0})
  unfolding load
  modify p f = do n ← load p; λ h. ok tt (put_cell h p (some (f n)))

  -- `delete p`, for a `p` that is not NULL
  unfoldable pub delete : Ptr → Cmd N (Unit {0})
  unfolding load
  delete p = do n ← load p; λ h. ok tt (put_cell h p none)

  -- `new N`, with the value that its fields get first
  unfoldable pub alloc : N → Cmd N Ptr
  alloc n h = ok h.next (record { cell = write h.cell h.next (some n); next = suc h.next })
