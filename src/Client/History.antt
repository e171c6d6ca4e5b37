-- ===== src/Client/History.antt =====
-- src/server/model/chathistory.cpp: the client's chat history in SQLite.
use my_chat_project.Prelude.{
  ℕ, Bool, false, ◌++◌, ℤ, pos, Str, codes, c_str, to_string, take, if◌then◌else◌,
}
use my_chat_project.Exec.{Exec, pure}
use my_chat_project.Externals.{SqliteLib}

abbrev pub create_table_sql : Str
create_table_sql =
    codes "CREATE TABLE IF NOT EXISTS chathistory("
    ++ (codes "id INTEGER PRIMARY KEY AUTOINCREMENT, "
        ++ (codes "sendid INT, "
            ++ (codes "recvid INT, "
                ++ (codes "msgcontent TEXT, "
                    ++ (codes "sendtime INT, " ++ codes "msgtype INT);")))))

-- snprintf into 2048 bytes: the text is cut, and a NUL stands behind it.
unfoldable pub insert_sql : Str → ℤ → ℤ → ℕ → ℕ → Str
insert_sql content send_id receive_id now msg_type = take 2047 (
    codes "INSERT INTO chathistory(sendid, recvid, msgcontent, sendtime, msgtype) VALUES("
    ++ (to_string send_id
        ++ (codes ", "
            ++ (to_string receive_id
                ++ (codes ", '"
                    ++ (c_str content
                        ++ (codes "', "
                            ++ (to_string (pos now)
                                ++ (codes ", " ++ (to_string (pos msg_type) ++ codes ");"))))))))))

module _ {Q : Type 0} (q : SqliteLib Q) where
  -- Open the file, run a statement, and close it.
  unfoldable pub with_file : Str → Exec Q Bool
  with_file sql h =
      let (opened, h') = q.open_file h in
      let run = q.exec_sql sql h' in if opened then pure run.0 run.1 else pure false h'

  -- sqliteInit
  unfoldable pub sqlite_init : Exec Q Bool
  unfolding with_file
  sqlite_init = with_file create_table_sql

  -- insertChatHistory, at the time `now` in seconds
  unfoldable pub insert_chat_history : Str → ℤ → ℤ → ℕ → ℕ → Exec Q Bool
  unfolding with_file
  insert_chat_history content send_id receive_id msg_type now =
      with_file (insert_sql content send_id receive_id now msg_type)
