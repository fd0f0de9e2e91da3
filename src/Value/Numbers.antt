-- ===== src/Value/Numbers.antt =====
-- Numbers in a TValue (src/dbsql.cpp).
use dbsqlapi.Prelude.{ℕ, ◌^◌, ◌<◌, ◌≡◌, arith}
use dbsqlapi.Value.{
  Value, as_int, as_uint, as_llong, as_ulong, as_double, as_float, set_int, set_uint, set_float,
  set_double, set_llong, set_ulong,
}

-- Each getter returns the bits that the setter of its type was given, whatever the value held.
pub numbers_read_back :
    (v : Value) (x y : ℕ)
    → x < 2 ^ 32
    → y < 2 ^ 64
    → (as_int (set_int v x) ≡ x)
      × (as_uint (set_uint v x) ≡ x)
      × (as_float (set_float v x) ≡ x)
      × (as_double (set_double v y) ≡ y)
      × (as_llong (set_llong v y) ≡ y)
      × (as_ulong (set_ulong v y) ≡ y)
unfolding as_int as_uint as_llong as_ulong as_double as_float set_int set_uint set_float set_double
    set_llong set_ulong
numbers_read_back v x y h k =
    (omega arith, omega arith, omega arith, omega arith, omega arith, omega arith)
