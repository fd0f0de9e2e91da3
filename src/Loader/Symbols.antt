-- ===== src/Loader/Symbols.antt =====
-- src/mysqlhandle.cpp and src/orahandle.cpp: the functions of the client library that `loadDBFunc` looks up, in order, and
-- those that src/mysqlapi.cpp and src/oracleapi.cpp call.
use Prim.Native.String.{String}
use text.Mathlib.Text.{◌==◌ as str_eq}
use dbsqlapi.Prelude.{List, [], ◌∷◌, Bool, true, false, ◌||◌, ◌&&◌}

abbrev pub has_name : List String → String → Bool
has_name [] s = false
has_name (n ∷ ns) s = str_eq n s || has_name ns s

abbrev pub all_named : List String → List String → Bool
all_named ns [] = true
all_named ns (s ∷ ss) = has_name ns s && all_named ns ss

unfoldable pub mysql_functions : List String
mysql_functions =
    "mysql_num_rows" ∷ "mysql_num_fields" ∷ "mysql_eof" ∷ "mysql_fetch_field_direct"
    ∷ "mysql_fetch_fields" ∷ "mysql_row_tell" ∷ "mysql_field_tell" ∷ "mysql_field_count"
    ∷ "mysql_affected_rows" ∷ "mysql_insert_id" ∷ "mysql_errno" ∷ "mysql_error" ∷ "mysql_info"
    ∷ "mysql_thread_id" ∷ "mysql_character_set_name" ∷ "mysql_init" ∷ "mysql_ssl_set"
    ∷ "mysql_change_user" ∷ "mysql_close" ∷ "mysql_next_result" ∷ "mysql_select_db" ∷ "mysql_query"
    ∷ "mysql_send_query" ∷ "mysql_read_query_result" ∷ "mysql_real_query" ∷ "mysql_shutdown"
    ∷ "mysql_dump_debug_info" ∷ "mysql_refresh" ∷ "mysql_kill" ∷ "mysql_ping" ∷ "mysql_stat"
    ∷ "mysql_get_server_info" ∷ "mysql_get_client_info" ∷ "mysql_get_host_info"
    ∷ "mysql_get_proto_info" ∷ "mysql_list_dbs" ∷ "mysql_list_tables" ∷ "mysql_list_fields"
    ∷ "mysql_list_processes" ∷ "mysql_store_result" ∷ "mysql_use_result" ∷ "mysql_options"
    ∷ "mysql_free_result" ∷ "mysql_data_seek" ∷ "mysql_row_seek" ∷ "mysql_field_seek"
    ∷ "mysql_fetch_row" ∷ "mysql_fetch_lengths" ∷ "mysql_fetch_field" ∷ "mysql_escape_string"
    ∷ "mysql_real_escape_string" ∷ "mysql_debug" ∷ "mysql_thread_init" ∷ "mysql_thread_end"
    ∷ "mysql_thread_safe" ∷ "mysql_server_end" ∷ "mysql_set_character_set" ∷ "mysql_stmt_init"
    ∷ "mysql_stmt_prepare" ∷ "mysql_stmt_execute" ∷ "mysql_stmt_fetch" ∷ "mysql_stmt_fetch_column"
    ∷ "mysql_stmt_store_result" ∷ "mysql_stmt_param_count" ∷ "mysql_stmt_attr_set"
    ∷ "mysql_stmt_attr_get" ∷ "mysql_stmt_bind_param" ∷ "mysql_stmt_bind_result"
    ∷ "mysql_stmt_close" ∷ "mysql_stmt_reset" ∷ "mysql_stmt_free_result"
    ∷ "mysql_stmt_send_long_data" ∷ "mysql_stmt_result_metadata" ∷ "mysql_stmt_param_metadata"
    ∷ "mysql_stmt_errno" ∷ "mysql_stmt_error" ∷ "mysql_stmt_sqlstate" ∷ "mysql_stmt_row_seek"
    ∷ "mysql_stmt_row_tell" ∷ "mysql_stmt_data_seek" ∷ "mysql_stmt_num_rows"
    ∷ "mysql_stmt_affected_rows" ∷ "mysql_stmt_insert_id" ∷ "mysql_stmt_field_count"
    ∷ "mysql_commit" ∷ "mysql_server_init" ∷ "mysql_real_connect" ∷ "mysql_rollback" ∷ []

-- Under DEBUG, `mysql_library_init` is called too; mysql.h defines it as `mysql_server_init`.
unfoldable pub called_functions : List String
called_functions =
    "mysql_close" ∷ "mysql_commit" ∷ "mysql_debug" ∷ "mysql_errno" ∷ "mysql_error"
    ∷ "mysql_fetch_field" ∷ "mysql_free_result" ∷ "mysql_init" ∷ "mysql_server_init"
    ∷ "mysql_num_fields" ∷ "mysql_num_rows" ∷ "mysql_options" ∷ "mysql_real_connect"
    ∷ "mysql_real_query" ∷ "mysql_refresh" ∷ "mysql_rollback" ∷ "mysql_select_db"
    ∷ "mysql_stmt_affected_rows" ∷ "mysql_stmt_bind_param" ∷ "mysql_stmt_bind_result"
    ∷ "mysql_stmt_close" ∷ "mysql_stmt_errno" ∷ "mysql_stmt_error" ∷ "mysql_stmt_execute"
    ∷ "mysql_stmt_fetch" ∷ "mysql_stmt_fetch_column" ∷ "mysql_stmt_init" ∷ "mysql_stmt_param_count"
    ∷ "mysql_stmt_param_metadata" ∷ "mysql_stmt_prepare" ∷ "mysql_stmt_result_metadata"
    ∷ "mysql_stmt_send_long_data" ∷ "mysql_stmt_store_result" ∷ []

unfoldable pub oracle_functions : List String
oracle_functions =
    "OCIInitialize" ∷ "OCIHandleAlloc" ∷ "OCIHandleFree" ∷ "OCIDescriptorAlloc"
    ∷ "OCIDescriptorFree" ∷ "OCIEnvInit" ∷ "OCIServerAttach" ∷ "OCIServerDetach" ∷ "OCISessionBegin"
    ∷ "OCISessionEnd" ∷ "OCILogon" ∷ "OCILogoff" ∷ "OCIPasswordChange" ∷ "OCIStmtPrepare"
    ∷ "OCIBindByPos" ∷ "OCIBindByName" ∷ "OCIBindObject" ∷ "OCIBindDynamic" ∷ "OCIBindArrayOfStruct"
    ∷ "OCIStmtGetPieceInfo" ∷ "OCIStmtSetPieceInfo" ∷ "OCIStmtExecute" ∷ "OCIDefineByPos"
    ∷ "OCIDefineObject" ∷ "OCIDefineDynamic" ∷ "OCIDefineArrayOfStruct" ∷ "OCIStmtFetch"
    ∷ "OCIStmtGetBindInfo" ∷ "OCIDescribeAny" ∷ "OCIParamGet" ∷ "OCIParamSet" ∷ "OCITransStart"
    ∷ "OCITransDetach" ∷ "OCITransCommit" ∷ "OCITransRollback" ∷ "OCITransPrepare"
    ∷ "OCITransForget" ∷ "OCIErrorGet" ∷ "OCILobAppend" ∷ "OCILobAssign" ∷ "OCILobCharSetForm"
    ∷ "OCILobCharSetId" ∷ "OCILobCopy" ∷ "OCILobDisableBuffering" ∷ "OCILobEnableBuffering"
    ∷ "OCILobErase" ∷ "OCILobFileClose" ∷ "OCILobFileCloseAll" ∷ "OCILobFileExists"
    ∷ "OCILobFileGetName" ∷ "OCILobFileIsOpen" ∷ "OCILobFileOpen" ∷ "OCILobFileSetName"
    ∷ "OCILobFlushBuffer" ∷ "OCILobGetLength" ∷ "OCILobIsEqual" ∷ "OCILobLoadFromFile"
    ∷ "OCILobLocatorIsInit" ∷ "OCILobRead" ∷ "OCILobTrim" ∷ "OCILobWrite" ∷ "OCIBreak" ∷ "OCIReset"
    ∷ "OCIServerVersion" ∷ "OCIAttrGet" ∷ "OCIAttrSet" ∷ "OCISvcCtxToLda" ∷ "OCILdaToSvcCtx"
    ∷ "OCIResultSetToStmt" ∷ "OCIEnvCreate" ∷ "OCIEnvNlsCreate" ∷ "OCIDurationBegin"
    ∷ "OCIDurationEnd" ∷ "OCILobCreateTemporary" ∷ "OCILobFreeTemporary" ∷ "OCILobIsTemporary"
    ∷ "OCIAQEnq" ∷ "OCIAQDeq" ∷ "OCIAQListen" ∷ "OCISubscriptionRegister" ∷ "OCISubscriptionPost"
    ∷ "OCISubscriptionUnRegister" ∷ "OCISubscriptionDisable" ∷ "OCISubscriptionEnable"
    ∷ "OCIDateTimeConstruct" ∷ "OCIDateTimeGetDate" ∷ "OCIDateTimeGetTime" ∷ "OCINumberToInt" ∷ []

unfoldable pub called_oracle : List String
called_oracle =
    "OCIAttrGet" ∷ "OCIAttrSet" ∷ "OCIBindByPos" ∷ "OCIDefineByPos" ∷ "OCIEnvInit" ∷ "OCIErrorGet"
    ∷ "OCIHandleAlloc" ∷ "OCIHandleFree" ∷ "OCIInitialize" ∷ "OCINumberToInt" ∷ "OCIParamGet"
    ∷ "OCIServerAttach" ∷ "OCIServerDetach" ∷ "OCISessionBegin" ∷ "OCISessionEnd" ∷ "OCIStmtExecute"
    ∷ "OCIStmtFetch" ∷ "OCIStmtGetPieceInfo" ∷ "OCIStmtPrepare" ∷ "OCIStmtSetPieceInfo"
    ∷ "OCITransCommit" ∷ "OCITransRollback" ∷ []

-- The subclasses of dbHandle.
pub data HandleClass : Type 0 where
  mysql_handle ora_handle : HandleClass

unfoldable pub functions_of : HandleClass → List String
functions_of mysql_handle = mysql_functions
functions_of ora_handle = oracle_functions

-- What the driver calls through the handle.
unfoldable pub called_of : HandleClass → List String
called_of mysql_handle = called_functions
called_of ora_handle = called_oracle
