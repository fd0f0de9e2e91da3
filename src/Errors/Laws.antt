-- ===== src/Errors/Laws.antt =====
-- What an exception of src/dbsql.cpp says, and what is left of it in a copy.
use dbsqlapi.Prelude.{ℕ, ◌<◌, ◌≤◌, true, ◌≡◌, refl, none, some, arith, CStr, length, ltb}
use dbsqlapi.Errors.{
  Exception, sql_library_error, sql_dbms_api_error, max_err_msg, library_error, dbms_error,
  copy_exception, get_err_no, get_native_err_no, get_err_info,
}

-- A message that fits the array makes an exception with the given numbers and text, by either
-- constructor.
pub errors_fit :
    (n native_no : ℕ) (info : CStr)
    → length info < max_err_msg
    → ((e : Exception) × (library_error n info ≡ some e)
        × (get_err_no e ≡ n)
        × (get_native_err_no e ≡ 0)
        × (get_err_info e ≡ info))
      × ((e : Exception) × (dbms_error native_no n info ≡ some e)
          × (get_err_no e ≡ n)
          × (get_native_err_no e ≡ native_no)
          × (get_err_info e ≡ info))
unfolding library_error dbms_error get_err_no get_native_err_no get_err_info
errors_fit n native_no info h =
    let fits : ltb (length info) max_err_msg ≡ true = ground arith in
    (
      (
        record {
          sql_error_type = sql_library_error;
          sql_err_no = n;
          native_err_no = 0;
          sql_err_info = info;
        },
        rw fits,
        refl,
        refl,
        refl,
      ),
      (
        record {
          sql_error_type = sql_dbms_api_error;
          sql_err_no = n;
          native_err_no = native_no;
          sql_err_info = info;
        },
        rw fits,
        refl,
        refl,
        refl,
      ),
    )

-- A longer message overruns the array, whichever constructor is used.
pub errors_overrun :
    (n native_no : ℕ) (info : CStr)
    → max_err_msg ≤ length info
    → (library_error n info ≡ none) × (dbms_error native_no n info ≡ none)
unfolding library_error dbms_error
errors_overrun n native_no info h = ground arith

-- The copy of a library error keeps the text, and has 0 both as its native number and as its error
-- number, whatever the number of the original.
pub copy-library_error :
    (n : ℕ) (info : CStr) (e : Exception)
    → library_error n info ≡ some e
    → (get_err_no (copy_exception e) ≡ 0)
      × (get_native_err_no (copy_exception e) ≡ 0)
      × (get_err_info (copy_exception e) ≡ info)
unfolding library_error copy_exception get_err_no get_native_err_no get_err_info
copy-library_error n info e made = ground arith

-- So a copy has the number of the original only where the two numbers agree.
pub copy-same_err_no :
    (e : Exception)
    → get_err_no (copy_exception e) ≡ get_err_no e
    → get_native_err_no e ≡ get_err_no e
unfolding copy_exception get_err_no get_native_err_no
copy-same_err_no e same = same
