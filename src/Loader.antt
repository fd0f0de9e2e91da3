-- ===== src/Loader.antt =====
-- src/dbhandle.cpp: class dbHandle, which opens a database's client library and looks its functions
-- up when they are first needed. The dynamic linker is a parameter: whether `dlopen` finds the
-- library and whether `dlsym` finds a function.
pub mod Symbols
pub mod Laws
mod Tests
use Prim.Native.String.{String}
use dbsqlapi.Prelude.{ℕ, Bool, true, false, List, [], ◌∷◌, ◌++◌, if◌then◌else◌}
use dbsqlapi.Errors.{dlopen_error, dlsym_error}

pub record Linker : Type 0 where
  pub opens : Bool
  pub finds : String → Bool

-- `names` are the functions that the subclass's `loadDBFunc` looks up.
pub record Handle : Type 0 where
  pub names : List String
  pub load_handle_flag : Bool
  pub locked : Bool
  pub resolved : List String

-- dbHandle::dbHandle()
abbrev pub new_handle : List String → Handle
new_handle names = record { names = names; load_handle_flag = false; locked = false; resolved = [] }

-- How a call ends. `blocks` waits for a lock that nobody gives back.
pub data Ending : Type 0 where
  done : Ending
  raises : ℕ → Ending
  blocks : Ending

-- The calls of `loadFunc`; the first that fails throws, and those before it have set their pointers.
pub load_db_func : Linker → List String → List String → Ending × List String
load_db_func dl [] got = (done, got)
load_db_func dl (n ∷ ns) got =
    let rest = load_db_func dl ns (got ++ n ∷ []) in
    if dl.finds n then rest else (raises dlsym_error, got)

-- What `loadLibrary` does with the lock in hand. An exception of `loadDBFunc` passes by the unlock.
abbrev pub finish : Handle → Ending × List String → Ending × Handle
finish h (done, got) = (done, record h { load_handle_flag = true; locked = false; resolved = got })
finish h (raises e, got) = (raises e, record h { locked = true; resolved = got })
finish h (blocks, got) = (blocks, record h { locked = true; resolved = got })

pub load_library : Linker → Handle → Ending × Handle
unfolding load_db_func
load_library dl h =
    if h.load_handle_flag
    then (done, h)
    else if h.locked
    then (blocks, h)
    else if dl.opens
    then finish h (load_db_func dl h.names h.resolved)
    else (raises dlopen_error, record h { locked = false })
