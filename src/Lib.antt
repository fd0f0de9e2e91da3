-- ===== src/Lib.antt =====
-- A verification library of DBSQLAPI, a C++ interface to relational databases.
--
-- An application makes a `dbsql` for a client and calls its methods. The object drives a subclass of
-- `dbapi`, one for each database, which looks up the functions of the database's client library when
-- they are first needed (`dbHandle`). Rows come back in a `TFieldList`, an array of `TField`, each with
-- a name and a `TValue`. Errors of the library itself are thrown as a `TException`. `NameValueList` and
-- `TSTRUTILS` are helpers.
--
--   Prelude: the numbers, lists and byte strings that the other modules share.
--   State: methods as functions that return a value and the new state.
--   Heap: objects of one type at addresses, and the commands that read and write them. An access
--     through NULL or to a deleted object ends in `fault`.
--   StrUtils: TSTRUTILS of src/dbpub.cpp.
--   NameValue: NameValueList of src/namevalue.cpp, one definition for each method. A loop over the nodes
--     runs on fuel; Chain says when the heap holds a list, and the theorems hold for any fuel that exceeds
--     the number of its nodes.
--   Value: TValue of src/dbsql.cpp. The union is one 64-bit word, and the character arrays stand in a
--     heap; Owned says when a value owns its array.
--   Errors: src/dbsqlapierror.h and TException of src/dbsql.cpp.
--   Fields: TField and TFieldList of src/dbsql.cpp, with values that own arrays.
--   Loader: dbHandle of src/dbhandle.cpp and the symbols of src/mysqlhandle.cpp and
--     src/orahandle.cpp. The dynamic linker is a parameter, and may answer each call differently.
--   Facade: dbsql of src/dbsql.cpp and dbapi of src/dbapi.cpp. A driver is a parameter.
--   Mysql: the MySQL driver of src/mysqlapi.cpp. Prepared has the statements with parameters, Connection
--     the connection and its retry loop, CursorList the list of open queries, and Queries
--     query, fetch, getCurRec and closeQuery over that list, with fuel for the walk along it; the methods
--     of mysql_cursor are an interface there, which Queries/Cursors fills. Client stands for the statements
--     of the client library: it answers each call by the calls so far, whatever it likes, and Protocol has
--     the rules for its use. Cursor is class mysql_cursor, Api class mysqlapi with the methods that use
--     one statement, with getErr, getErrInfo and the calls on the connection alone in Errors, and Output
--     turns a row into fields, with getSysDate in SysDate. A write of these outside an array is recorded
--     among the calls.
--   Oracle: class db_connect of src/oracleapi.cpp. The Oracle client library answers each call by the calls so
--     far; Handles has the rules for its handles. Parms has the parameters of a statement of
--     class oracleapi, and Retry its checkConStatus, by recursion on the number of rounds.
--
-- Not modelled: db_cursor, the other methods of class oracleapi and the failover callback of
-- src/oracleapi.cpp, printFldList, which only prints, mysqlEnvInit of the MySQL driver, which sets up
-- the process, fetchBlobColumn and _getBindMetaInfo, which nothing calls, the message and the kind of
-- the last operation that its queries keep for getErrInfo, and the client libraries with their headers
-- under rdb-inc. `new` never fails here, and a string that a node owns is a value of the node. Names
-- and values are strings of bytes, and a NULL string is `none`.
pub mod Prelude
pub mod StrUtils
pub mod Heap
pub mod State
pub mod NameValue
pub mod Value
pub mod Errors
pub mod Fields
pub mod Loader
pub mod Facade
pub mod Mysql
pub mod Oracle
