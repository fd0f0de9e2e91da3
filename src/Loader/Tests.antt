-- ===== src/Loader/Tests.antt =====
-- The laws of src/dbhandle.cpp at concrete linkers.
use text.Mathlib.Text.{◌==◌ as str_eq}
use dbsqlapi.Prelude.{◌≡◌, refl, true, false, not, [], ◌∷◌}
use dbsqlapi.Errors.{dlsym_error}
use dbsqlapi.Loader.{Linker, Handle, raises, blocks, load_library, new_handle}
use dbsqlapi.Loader.Symbols.{all_named, oracle_functions, ora_handle, functions_of, called_of}
use dbsqlapi.Loader.Laws.{load_library-stuck, calls, calls_resolve}

-- No library; a library with everything; one that lacks mysql_ping.
abbrev absent : Linker
absent = record { opens = false; finds = λ s. false }

abbrev present : Linker
present = record { opens = true; finds = λ s. true }

abbrev lacking : Linker
lacking = record { opens = true; finds = λ s. not (str_eq s "mysql_ping") }

load_library-stuck_example :
    (h : Handle) × (load_library lacking
        (new_handle ("mysql_init" ∷ "mysql_ping" ∷ "mysql_stat" ∷ []))
      ≡ (raises dlsym_error, h))
    × (h.load_handle_flag ≡ false)
    × (h.locked ≡ true)
    × (load_library present h ≡ (blocks, h))
load_library-stuck_example =
    load_library-stuck lacking present ("mysql_init" ∷ []) "mysql_ping" ("mysql_stat" ∷ []) refl
      (refl, tt) refl

calls_resolve_example :
    (all_named
        (calls (absent ∷ present ∷ []) (new_handle (functions_of ora_handle))).resolved
        (called_of ora_handle)
      ≡ true)
    × ((calls (absent ∷ present ∷ []) (new_handle (functions_of ora_handle))).locked ≡ false)
unfolding calls load_library oracle_functions functions_of
calls_resolve_example = calls_resolve ora_handle (absent ∷ present ∷ []) refl
