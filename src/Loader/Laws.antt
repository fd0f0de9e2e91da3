-- ===== src/Loader/Laws.antt =====
-- When `loadLibrary` of src/dbhandle.cpp leaves a handle that can be used.
use Prim.Native.String.{String}
use dbsqlapi.Prelude.{
  ◌≡◌, refl, sym, ap, ◌∙◌, ◌⊎◌, inl, inr, true, false, List, [], ◌∷◌, ◌++◌, Bool-cases,
}
use mathlib.Core.List.{append_assoc, append-nil}
use mathlib.Core.Bool.{false≢true}
use dbsqlapi.Errors.{dlopen_error, dlsym_error}
use dbsqlapi.Loader.{
  Linker, Handle, Ending, done, raises, blocks, load_db_func, load_library, new_handle,
}
use dbsqlapi.Loader.Symbols.{
  all_named, mysql_functions, called_functions, oracle_functions, called_oracle, HandleClass,
  mysql_handle, ora_handle, functions_of, called_of,
}

-- The linker finds all functions.
abbrev pub FindsAll : Linker → List String → Type 0
FindsAll dl [] = Unit {0}
FindsAll dl (n ∷ ns) = (dl.finds n ≡ true) × FindsAll dl ns

load_db_func-all :
    (dl : Linker) (ns got : List String)
    → FindsAll dl ns
    → load_db_func dl ns got ≡ (done, got ++ ns)
unfolding load_db_func
load_db_func-all dl [] got f = rw (append-nil got)
load_db_func-all dl (n ∷ ns) got f = rw f.0 (
    load_db_func-all dl ns (got ++ n ∷ []) f.1
    ∙ ap {B = Ending × List String} (λ l. (done, l)) (append_assoc got (n ∷ []) ns))

-- The first function that is missing makes the search throw, whatever comes after it.
load_db_func-missing :
    (dl : Linker) (ns : List String) (n : String) (ms got : List String)
    → FindsAll dl ns
    → dl.finds n ≡ false
    → load_db_func dl (ns ++ n ∷ ms) got ≡ (raises dlsym_error, got ++ ns)
unfolding load_db_func
load_db_func-missing dl [] n ms got f m = rw (m, append-nil got)
load_db_func-missing dl (k ∷ ns) n ms got f m = rw f.0 (
    load_db_func-missing dl ns n ms (got ++ k ∷ []) f.1 m
    ∙ ap {B = Ending × List String} (λ l. (raises dlsym_error, l)) (append_assoc got (k ∷ []) ns))

-- Loaded, with the lock free and every function found.
abbrev pub loaded : List String → Handle
loaded names = record { names = names; load_handle_flag = true; locked = false; resolved = names }

-- With a library that opens and has every function, `loadLibrary` on a new handle finds them all
-- and gives the lock back; every later call returns at once and changes nothing, whatever the
-- linker does then.
pub load_library-loaded :
    (dl later : Linker) (names : List String)
    → dl.opens ≡ true
    → FindsAll dl names
    → (load_library dl (new_handle names) ≡ (done, loaded names))
      × (load_library later (loaded names) ≡ (done, loaded names))
unfolding load_library
load_library-loaded dl later names o f = (rw (o, load_db_func-all dl names [] f), refl)

-- Where the library does not open, `loadLibrary` throws exception 6 and leaves the handle as new, so
-- that a later call can succeed.
pub load_library-retry :
    (dl later : Linker) (names : List String)
    → dl.opens ≡ false
    → later.opens ≡ true
    → FindsAll later names
    → (load_library dl (new_handle names) ≡ (raises dlopen_error, new_handle names))
      × (load_library later (load_library dl (new_handle names)).1 ≡ (done, loaded names))
unfolding load_library
load_library-retry dl later names shut o f =
    (rw shut, rw (shut, o, load_db_func-all later names [] f))

-- Where the library opens and a function is missing, the first `loadLibrary` throws exception 7
-- with the lock still held, and every later call waits for the lock for ever.
pub load_library-stuck :
    (dl later : Linker) (ns : List String) (n : String) (ms : List String)
    → dl.opens ≡ true
    → FindsAll dl ns
    → dl.finds n ≡ false
    → (h : Handle) × (load_library dl (new_handle (ns ++ n ∷ ms)) ≡ (raises dlsym_error, h))
      × (h.load_handle_flag ≡ false)
      × (h.locked ≡ true)
      × (load_library later h ≡ (blocks, h))
unfolding load_library
load_library-stuck dl later ns n ms o f m = (
  record { names = ns ++ n ∷ ms; load_handle_flag = false; locked = true; resolved = ns },
  rw (o, load_db_func-missing dl ns n ms [] f m),
  refl,
  refl,
  refl,
)

-- Calls one after another, each with the linker as it is then.
unfoldable pub calls : List Linker → Handle → Handle
calls [] h = h
calls (dl ∷ dls) h = calls dls (load_library dl h).1

-- A handle that says it is loaded has all its functions and a free lock; one that neither is loaded
-- nor holds its lock is as new.
pub record Sound (names : List String) (h : Handle) : Type 0 where
  pub same : h.names ≡ names
  pub when_loaded : h.load_handle_flag ≡ true → (h.resolved ≡ names) × (h.locked ≡ false)
  pub when_new : h.load_handle_flag ≡ false → h.locked ≡ false → h.resolved ≡ []

load_db_func-done :
    (dl : Linker) (ns got : List String)
    → (load_db_func dl ns got ≡ (done, got ++ ns))
      ⊎ ((got' : List String) × (load_db_func dl ns got ≡ (raises dlsym_error, got')))
unfolding load_db_func
load_db_func-done dl [] got = inl (rw (append-nil got))
load_db_func-done dl (n ∷ ns) got = elim (Bool-cases (dl.finds n)) [
  | inl found ↦ elim (load_db_func-done dl ns (got ++ n ∷ [])) [
    | inl all ↦ inl (
        rw found
          (all ∙ ap {B = Ending × List String} (λ l. (done, l)) (append_assoc got (n ∷ []) ns)))
    | inr (got', e) ↦ inr (got', rw found e)
  ]
  | inr lost ↦ inr (got, rw lost)
]

load_library-Sound :
    (names : List String) (dl : Linker) (h : Handle)
    → Sound names h
    → Sound names (load_library dl h).1
unfolding load_library
load_library-Sound names dl h s = elim (Bool-cases h.load_handle_flag) [
  | inl l ↦ simp (l) s
  | inr l ↦ elim (Bool-cases h.locked) [
    | inl k ↦ simp (l, k) s
    | inr k ↦ elim (Bool-cases dl.opens) [
      | inr o ↦
          simp (l, k, o)
            (record {
              same = s.same;
              when_loaded = λ c. absurd (false≢true c);
              when_new = λ _ _. s.when_new l k;
            })
      | inl o ↦ elim (load_db_func-done dl h.names h.resolved) [
        | inl all ↦
            simp (l, k, o, all)
              (record {
                same = s.same;
                when_loaded = λ _. (ap (λ g. g ++ h.names) (s.when_new l k) ∙ s.same, refl);
                when_new = λ c _. absurd (false≢true (sym c));
              })
        | inr (got, e) ↦
            simp (l, k, o, e)
              (record {
                same = s.same;
                when_loaded = λ c. absurd (false≢true c);
                when_new = λ _ c. absurd (false≢true (sym c));
              })
      ]
    ]
  ]
]

new_handle-Sound : (names : List String) → Sound names (new_handle names)
new_handle-Sound names = record {
  same = refl;
  when_loaded = λ c. absurd (false≢true c);
  when_new = λ _ _. refl;
}

calls-Sound :
    (names : List String) (dls : List Linker) (h : Handle)
    → Sound names h
    → Sound names (calls dls h)
unfolding calls
calls-Sound names [] h s = s
calls-Sound names (dl ∷ dls) h s =
    calls-Sound names dls (load_library dl h).1 (load_library-Sound names dl h s)

functions_of-named : (c : HandleClass) → all_named (functions_of c) (called_of c) ≡ true
unfolding mysql_functions called_functions oracle_functions called_oracle functions_of called_of
functions_of-named mysql_handle = refl
functions_of-named ora_handle = refl

-- Whatever the linker does in a sequence of calls, a handle for MySQL or for Oracle that says it is loaded
-- has found every function that its driver calls, and its lock is free.
pub calls_resolve :
    (c : HandleClass) (dls : List Linker)
    → (calls dls (new_handle (functions_of c))).load_handle_flag ≡ true
    → (all_named (calls dls (new_handle (functions_of c))).resolved (called_of c) ≡ true)
      × ((calls dls (new_handle (functions_of c))).locked ≡ false)
calls_resolve c dls l =
    let s =
      calls-Sound (functions_of c) dls (new_handle (functions_of c))
        (new_handle-Sound (functions_of c)) in
    let all = s.when_loaded l in
    (ap (λ ns. all_named ns (called_of c)) all.0 ∙ functions_of-named c, all.1)
