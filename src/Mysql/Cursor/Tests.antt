-- ===== src/Mysql/Cursor/Tests.antt =====
-- A cursor of src/mysqlapi.cpp whose msgbuf holds an older message.
use dbsqlapi.Prelude.{false, ◌≡◌, refl, [], ◌++◌, CStr, codes, arith, replicate, drop}
use dbsqlapi.Mysql.Client.{Client}
use dbsqlapi.Mysql.Cursor.{Traced, fresh_cursor}
use dbsqlapi.Mysql.Cursor.Message.{get_stmt_err_info}
use dbsqlapi.Mysql.Cursor.Messages.{get_stmt_err_info-mixes}

abbrev refusing : Client
refusing = record {
  new_stmt = λ h. 9;
  closes_badly = λ h. false;
  answer = λ op h. 1064;
  error_text = λ h. codes "gone";
  metadata = λ h. 0;
  num_fields = λ h. 0;
  num_rows = λ h. 0;
  fields = λ h. [];
  row = λ h. [];
}

abbrev older : CStr
older = codes "no key"

abbrev failing : Traced
failing = record {
  cur = record fresh_cursor { stmtp = 9; msgbuf = older ++ replicate 20 0 };
  calls = [];
}

get_stmt_err_info-mixes_example :
    (get_stmt_err_info refusing failing).0 ≡ codes "gone" ++ drop 4 older
get_stmt_err_info-mixes_example =
    get_stmt_err_info-mixes refusing failing older 20 (omega arith) (omega arith) refl
      (refl, (refl, (refl, (refl, (refl, (refl, tt)))))) (refl, (refl, (refl, (refl, tt))))
      (omega arith)
