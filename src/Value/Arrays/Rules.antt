-- ===== src/Value/Arrays/Rules.antt =====
-- What strlen, memcpy and strcpy do where they are defined (string.h, as src/dbsql.cpp uses it).
use mathlib.Core.List.{append-nil}
use dbsqlapi.Prelude.{
  ℕ, zero, suc, ◌<◌, ◌≤◌, ◌≡◌, ◌≢◌, refl, ap, true, false, none, some, [], ◌∷◌, arith, ◌==◌, leb,
  length, take, drop, replicate, length-replicate,
}
use dbsqlapi.Heap.{null, Heap, ok, fault, put_cell, load}
use dbsqlapi.Value.Arrays.{Chars, nul_at, strlen, overwrite, memcpy, strcpy, or_fault}

pub nul_at-lt : (cs : Chars) (n : ℕ) → nul_at cs ≡ some n → n < length cs
unfolding nul_at
nul_at-lt [] n e = cc
nul_at-lt (c ∷ cs) zero e = omega arith
nul_at-lt (c ∷ cs) (suc n) e = ground (arith, nul_at-lt cs n)

pub nul_at-take-suc : (cs : Chars) (n : ℕ) → nul_at cs ≡ some n → nul_at (take (suc n) cs) ≡ some n
unfolding nul_at
nul_at-take-suc [] n e = cc
nul_at-take-suc (c ∷ cs) zero e = ground arith
nul_at-take-suc (c ∷ cs) (suc n) e = ground (arith, nul_at-take-suc cs n)

pub nul_at-take : (cs : Chars) (n : ℕ) → nul_at cs ≡ some n → nul_at (take n cs) ≡ none
unfolding nul_at
nul_at-take [] n e = cc
nul_at-take (c ∷ cs) zero e = refl
nul_at-take (c ∷ cs) (suc n) e = ground (arith, nul_at-take cs n)

drop-replicate : (n : ℕ) (c : ℕ) → drop n (replicate n c) ≡ []
drop-replicate zero c = refl
drop-replicate (suc n) c = drop-replicate n c

-- A new array that is filled from the front.
overwrite_new : (cs : Chars) (n : ℕ) → overwrite (replicate n 0) cs n ≡ take n cs
overwrite_new cs n = rw (drop-replicate n 0) (append-nil (take n cs))

pub memcpy-ok :
    (h : Heap Chars) (dst src len : ℕ) (from : Chars)
    → dst ≢ null
    → src ≢ null
    → h.cell src ≡ some from
    → h.cell dst ≡ some (replicate len 0)
    → len ≤ length from
    → memcpy dst src len h ≡ ok tt (put_cell h dst (some (take len from)))
unfolding memcpy
memcpy-ok h dst src len from nd ns at_src at_dst fits =
    let dst_ne : (dst == null) ≡ false = ground arith in
    let src_ne : (src == null) ≡ false = ground arith in
    let fits_src : leb len (length from) ≡ true = ground arith in
    let fits_dst : leb len (length {A = ℕ} (replicate len 0)) ≡ true =
      ground (arith, length-replicate {0} {A = ℕ} len 0) in
    rw (src_ne, at_src)
      (rw (dst_ne, at_dst)
        (rw (fits_src, fits_dst, dst_ne, at_dst)
          (ap (λ cs. ok tt (put_cell h dst (some cs))) (overwrite_new from len))))

pub strlen-ok :
    (h : Heap Chars) (src n : ℕ) (from : Chars)
    → src ≢ null
    → h.cell src ≡ some from
    → nul_at from ≡ some n
    → strlen src h ≡ ok n h
unfolding strlen
strlen-ok h src n from ne at e =
    let src_ne : (src == null) ≡ false = ground arith in rw (src_ne, at) (rw (e, or_fault))

-- Without a NUL the search runs off the end.
pub strlen-fault :
    (h : Heap Chars) (src : ℕ) (from : Chars)
    → src ≢ null
    → h.cell src ≡ some from
    → nul_at from ≡ none
    → strlen src h ≡ fault
unfolding strlen
strlen-fault h src from ne at e =
    let src_ne : (src == null) ≡ false = ground arith in rw (src_ne, at) (rw (e, or_fault))

pub strcpy-ok :
    (h : Heap Chars) (dst src n : ℕ) (from : Chars)
    → dst ≢ null
    → src ≢ null
    → h.cell src ≡ some from
    → h.cell dst ≡ some (replicate (suc n) 0)
    → nul_at from ≡ some n
    → strcpy dst src h ≡ ok tt (put_cell h dst (some (take (suc n) from)))
unfolding strcpy
strcpy-ok h dst src n from nd ns at_src at_dst e =
    rw (strlen-ok h src n from ns at_src e)
      (memcpy-ok h dst src (suc n) from nd ns at_src at_dst (nul_at-lt from n e))

-- An array that was deleted, or never made, cannot be read.
pub strcpy-gone : (h : Heap Chars) (dst src : ℕ) → h.cell src ≡ none → strcpy dst src h ≡ fault
unfolding strcpy strlen load
strcpy-gone h dst src at = ground arith
