-- ===== src/Mysql.antt =====
-- The MySQL driver, src/mysqlapi.cpp and src/mysqlapi.h.
pub mod Prepared
pub mod Connection
pub mod Client
pub mod Cursor
pub mod Api
pub mod Output
pub mod CursorList
pub mod Queries
