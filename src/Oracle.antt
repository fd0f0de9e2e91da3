-- ===== src/Oracle.antt =====
-- The Oracle driver of src/oracleapi.cpp, as far as it is modelled.
pub mod Connection
pub mod Parms
pub mod Retry
