-- ===== src/Db/UserModel.antt =====
-- src/server/model/usermodel.cpp
use my_chat_project.Prelude.{
  to_int, Bool, true, false, Option, none, some, List, [], ◌∷◌, ◌++◌, ℤ, Str, codes, c_str,
  to_string, atoi, if◌then◌else◌,
}
use my_chat_project.Exec.{Exec, pure, gets, ◌>>=◌, ◌>>◌}
use my_chat_project.Externals.{MysqlLib, Row}
use my_chat_project.Model.{User, default_user}
use my_chat_project.Db.{sprintf, column, connect, query, run_update}

unfoldable pub insert_sql : User → Str
insert_sql user =
    codes "insert into user(name, password, state) values('"
    ++ (c_str user.name
        ++ (codes "', '"
            ++ (c_str user.password ++ (codes "', '" ++ (c_str user.state ++ codes "')")))))

unfoldable pub query_sql : ℤ → Str
query_sql id = codes "select * from user where id = " ++ to_string id

unfoldable pub update_state_sql : User → Str
update_state_sql user =
    codes "update user set state = '"
    ++ (c_str user.state ++ (codes "' where id = " ++ to_string user.id))

abbrev pub reset_state_sql : Str
reset_state_sql = codes "update user set state = 'Offline' where state = 'Online'"

-- One row of `select *`.
unfoldable pub read_user : {S : Type 0} → Row → Exec S User
unfolding column
read_user row = do
  id ← column 0 row
  name ← column 1 row
  password ← column 2 row
  state ← column 3 row
  pure (record { id = atoi id; name = name; password = password; state = state })

-- The first row, if there is a result set and a row in it.
unfoldable pub first_user : {S : Type 0} → Option (List Row) → Exec S User
unfolding read_user
first_user none = pure default_user
first_user (some []) = pure default_user
first_user (some (row ∷ rows)) = read_user row

module _ {Db : Type 0} (m : MysqlLib Db) where
  -- UserModel::insert: the user comes back with its id set, an int, and whether it was inserted.
  unfoldable pub insert : User → Exec Db (Bool × User)
  unfolding sprintf run_update
  insert user = do
    sql ← sprintf (insert_sql user)
    done ← run_update m sql
    id ← gets m.insert_id
    pure (if done then (true, record user { id = to_int id }) else (false, user))

  -- UserModel::query
  unfoldable pub query_user : ℤ → Exec Db User
  unfolding sprintf connect query first_user
  query_user id = do
    sql ← sprintf (query_sql id)
    up ← connect m
    if up then (do res ← query m sql; first_user res) else pure default_user

  -- UserModel::updateState
  unfoldable pub update_state : User → Exec Db Bool
  unfolding sprintf run_update
  update_state user = do sql ← sprintf (update_state_sql user); run_update m sql

  -- UserModel::resetState
  unfoldable pub reset_state : Exec Db (Unit {0})
  unfolding run_update
  reset_state = do run_update m reset_state_sql; pure tt
