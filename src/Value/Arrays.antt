-- ===== src/Value/Arrays.antt =====
-- Character arrays in the heap, and the functions of string.h on them. An access beyond the end of
-- an array is a fault.
pub mod Rules
use dbsqlapi.Prelude.{
  ℕ, zero, suc, ◌+◌, Option, none, some, List, [], ◌∷◌, ◌++◌, Bool, ◌==◌, leb, if◌then◌else◌,
  length, take, drop, replicate,
}
use dbsqlapi.Heap.{
  Ptr, null, Heap, Cmd, ok, fault, pure, ◌>>=◌, ◌>>◌, when◌run◌otherwise◌, load, modify, alloc,
}

abbrev pub Chars : Type 0
Chars = List ℕ

-- The position of the first NUL.
unfoldable pub nul_at : Chars → Option ℕ
nul_at [] = none
nul_at (c ∷ cs) =
    if c == 0 then some 0 else elim (nul_at cs) [ none ↦ none | some n ↦ some (suc n) ]

abbrev pub or_fault : Option ℕ → Cmd Chars ℕ
or_fault none = λ _. fault
or_fault (some n) = pure n

unfoldable pub strlen : Ptr → Cmd Chars ℕ
unfolding load nul_at
strlen p = do cs ← load p; or_fault (nul_at cs)

-- `new char[len]`
unfoldable pub new_chars : ℕ → Cmd Chars Ptr
unfolding alloc
new_chars len = alloc (replicate len 0)

-- `len` bytes from the front of one array to the front of another.
abbrev pub overwrite : Chars → Chars → ℕ → Chars
overwrite to from len = take len from ++ drop len to

unfoldable pub memcpy : Ptr → Ptr → ℕ → Cmd Chars (Unit {0})
unfolding load modify
memcpy dst src len = do
  from ← load src
  to ← load dst
  when leb len (length from)
      run (when leb len (length to)
          run modify dst (λ cs. overwrite cs from len)
          otherwise (λ _. fault))
      otherwise (λ _. fault)

-- `strcpy` copies the bytes up to the NUL, and the NUL.
unfoldable pub strcpy : Ptr → Ptr → Cmd Chars (Unit {0})
strcpy dst src = do n ← strlen src; memcpy dst src (suc n)
