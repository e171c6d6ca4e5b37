-- ===== src/Db/GroupModel.antt =====
-- src/server/model/groupmodel.cpp
use my_chat_project.Prelude.{
  to_int, Bool, true, false, List, [], ◌∷◌, ◌++◌, ℤ, Str, codes, c_str, to_string, atoi,
  if◌then◌else◌,
}
use my_chat_project.Exec.{Exec, pure, gets, ◌>>=◌}
use my_chat_project.Externals.{MysqlLib, Row}
use my_chat_project.Model.{GroupUser, Group, default_user}
use my_chat_project.Db.{sprintf, column, fetch_all, connect, query, run_update}

unfoldable pub create_sql : Group → Str
create_sql group =
    codes "insert into allgroup(groupname, groupdesc) values('"
    ++ (c_str group.name ++ (codes "', '" ++ (c_str group.desc ++ codes "')")))

unfoldable pub add_sql : ℤ → ℤ → Str → Str
add_sql userid groupid role =
    codes "insert into groupuser values("
    ++ (to_string groupid
        ++ (codes ", " ++ (to_string userid ++ (codes ", '" ++ (c_str role ++ codes "')")))))

unfoldable pub groups_sql : ℤ → Str
groups_sql userid =
    codes
      "select a.id, a.groupname, a.groupdesc from allgroup a inner join groupuser b on a.id = b.groupid where b.userid = "
    ++ to_string userid

unfoldable pub members_sql : ℤ → Str
members_sql groupid =
    codes
      "select a.id, a.name, a.state, b.grouprole from user a             inner join groupuser b on b.userid = a.id where b.groupid = "
    ++ to_string groupid

unfoldable pub group_users_sql : ℤ → ℤ → Str
group_users_sql userid groupid =
    codes "select userid from groupuser where groupid = "
    ++ (to_string groupid ++ (codes " and userid != " ++ to_string userid))

unfoldable pub read_group : {S : Type 0} → Row → Exec S Group
unfolding column
read_group row = do
  id ← column 0 row
  name ← column 1 row
  desc ← column 2 row
  pure (record { id = atoi id; name = name; desc = desc; users = [] })

unfoldable pub read_member : {S : Type 0} → Row → Exec S GroupUser
unfolding column
read_member row = do
  id ← column 0 row
  name ← column 1 row
  state ← column 2 row
  role ← column 3 row
  pure (record {
    user = record default_user { id = atoi id; name = name; state = state };
    role = role;
  })

unfoldable pub read_id : {S : Type 0} → Row → Exec S ℤ
unfolding column
read_id row = do id ← column 0 row; pure (atoi id)

module _ {Db : Type 0} (m : MysqlLib Db) where
  -- groupModel::createGroup: the group comes back with its id set.
  unfoldable pub create_group : Group → Exec Db (Bool × Group)
  unfolding sprintf run_update
  create_group group = do
    sql ← sprintf (create_sql group)
    done ← run_update m sql
    id ← gets m.insert_id
    pure (if done then (true, record group { id = to_int id }) else (false, group))

  -- groupModel::addGroup
  unfoldable pub add_group : ℤ → ℤ → Str → Exec Db Bool
  unfolding sprintf run_update
  add_group userid groupid role = do sql ← sprintf (add_sql userid groupid role); run_update m sql

  -- The loop over the groups that fills in the members.
  unfoldable pub with_members : List Group → Exec Db (List Group)
  unfolding sprintf query fetch_all read_member
  with_members [] = pure []
  with_members (group ∷ groups) = do
    sql ← sprintf (members_sql group.id)
    res ← query m sql
    users ← fetch_all read_member res
    rest ← with_members groups
    pure (record group { users = group.users ++ users } ∷ rest)

  -- groupModel::queryGroups
  unfoldable pub query_groups : ℤ → Exec Db (List Group)
  unfolding sprintf connect query fetch_all read_group with_members
  query_groups userid = do
    sql ← sprintf (groups_sql userid)
    up ← connect m
    groups ← (if up then (do res ← query m sql; fetch_all read_group res) else pure [])
    with_members groups

  -- groupModel::queryGroupUsers
  unfoldable pub query_group_users : ℤ → ℤ → Exec Db (List ℤ)
  unfolding sprintf connect query fetch_all read_id
  query_group_users userid groupid = do
    sql ← sprintf (group_users_sql userid groupid)
    up ← connect m
    if up then (do res ← query m sql; fetch_all read_id res) else pure []
