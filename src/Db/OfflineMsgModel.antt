-- ===== src/Db/OfflineMsgModel.antt =====
-- src/server/model/offlinemessagemodel.cpp
use my_chat_project.Prelude.{List, [], ◌++◌, ℤ, Str, codes, c_str, to_string, if◌then◌else◌}
use my_chat_project.Exec.{Exec, pure, ◌>>=◌, ◌>>◌}
use my_chat_project.Externals.{MysqlLib}
use my_chat_project.Db.{sprintf, column, fetch_all, connect, query, run_update}

unfoldable pub insert_sql : ℤ → Str → Str
insert_sql userid msg =
    codes "insert into offlinemessage values("
    ++ (to_string userid ++ (codes ", '" ++ (c_str msg ++ codes "')")))

unfoldable pub remove_sql : ℤ → Str
remove_sql userid = codes "delete from offlinemessage where userid = " ++ to_string userid

unfoldable pub query_sql : ℤ → Str
query_sql userid = codes "select message from offlinemessage where userid = " ++ to_string userid

module _ {Db : Type 0} (m : MysqlLib Db) where
  -- offlineMsgModel::insert
  unfoldable pub insert : ℤ → Str → Exec Db (Unit {0})
  unfolding sprintf run_update
  insert userid msg = do sql ← sprintf (insert_sql userid msg); run_update m sql; pure tt

  -- offlineMsgModel::remove
  unfoldable pub remove : ℤ → Exec Db (Unit {0})
  unfolding sprintf run_update
  remove userid = do sql ← sprintf (remove_sql userid); run_update m sql; pure tt

  -- offlineMsgModel::query
  unfoldable pub query_messages : ℤ → Exec Db (List Str)
  unfolding sprintf connect query fetch_all column
  query_messages userid = do
    sql ← sprintf (query_sql userid)
    up ← connect m
    if up then (do res ← query m sql; fetch_all (column 0) res) else pure []
