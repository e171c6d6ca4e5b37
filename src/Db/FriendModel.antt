-- ===== src/Db/FriendModel.antt =====
-- src/server/model/friendmodel.cpp
use my_chat_project.Prelude.{List, [], ◌++◌, ℤ, Str, codes, to_string, atoi, if◌then◌else◌}
use my_chat_project.Exec.{Exec, pure, ◌>>=◌, ◌>>◌}
use my_chat_project.Externals.{MysqlLib, Row}
use my_chat_project.Model.{User, default_user}
use my_chat_project.Db.{sprintf, column, fetch_all, connect, update, query}

unfoldable pub insert_sql : ℤ → ℤ → Str
insert_sql a b =
    codes "insert into friend values("
    ++ (to_string a ++ (codes ", " ++ (to_string b ++ codes ")")))

unfoldable pub query_sql : ℤ → Str
query_sql userid =
    codes
      "select a.id, a.name, a.state from user a inner join friend b on b.friendid = a.id where b.userid = "
    ++ to_string userid

-- A row of id, name and state; the password stays empty.
unfoldable pub read_friend : {S : Type 0} → Row → Exec S User
unfolding column
read_friend row = do
  id ← column 0 row
  name ← column 1 row
  state ← column 2 row
  pure (record default_user { id = atoi id; name = name; state = state })

module _ {Db : Type 0} (m : MysqlLib Db) where
  -- friendModel::insert: both directions, whatever the first update returns.
  unfoldable pub insert : ℤ → ℤ → Exec Db (Unit {0})
  unfolding sprintf connect update
  insert userid friendid = do
    sql1 ← sprintf (insert_sql userid friendid)
    sql2 ← sprintf (insert_sql friendid userid)
    up ← connect m
    if up then (do update m sql1; update m sql2; pure tt) else pure tt

  -- friendModel::query
  unfoldable pub query_friends : ℤ → Exec Db (List User)
  unfolding sprintf connect query fetch_all read_friend
  query_friends userid = do
    sql ← sprintf (query_sql userid)
    up ← connect m
    if up then (do res ← query m sql; fetch_all read_friend res) else pure []
