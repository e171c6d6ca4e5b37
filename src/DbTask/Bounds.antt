-- ===== src/DbTask/Bounds.antt =====
-- src/server/redis/dbtask.cpp: tasks whose SQL text fits the buffers of the model classes.
use my_chat_project.Prelude.{
  ◌+◌, ◌≤◌, ◌≡◌, true, arith, refl, inl, inr, Bool-cases, List, [], ◌∷◌, ◌++◌, ℤ, IsInt, minus_one,
  Str, codes, c_str, to_string, length, length-append, length-to_string-le, ltb,
}
use my_chat_project.Exec.{for_each, ok}
use my_chat_project.Externals.{MysqlLib}
use my_chat_project.Model.{
  User, Group, DbTaskArgs, DbTaskType, db_task_update_user_state, db_task_insert_offline_msg,
  db_task_add_friend, db_task_create_group, db_task_add_group_user,
}
use my_chat_project.Db.{sprintf, connect, update}
use my_chat_project.Db.Bounds.{insert-short, run_update-ok}
use my_chat_project.Db.UserModel
use my_chat_project.Db.FriendModel
use my_chat_project.Db.GroupModel
use my_chat_project.DbTask.Order.{push_all, work-push_all}
use my_chat_project.DbTask.{perform, perform_as, work}

-- A task whose ids are `int`s and whose texts, up to a NUL, are short enough for their statements.
pub record Fits (t : DbTaskArgs) : Type 0 where
  pub userid_int : IsInt t.userid
  pub friendid_int : IsInt t.friendid
  pub toid_int : IsInt t.toid
  pub groupid_int : IsInt t.groupid
  pub state_short : length (c_str t.state) ≤ 900
  pub msg_short : length (c_str t.msg) ≤ 973
  pub names_short : length (c_str t.name) + length (c_str t.desc) ≤ 900

abbrev pub AllFit : List DbTaskArgs → Type 0
AllFit [] = Unit {0}
AllFit (t ∷ queue) = Fits t × AllFit queue

length-friend_sql :
    (a b : ℤ)
    → length (FriendModel.insert_sql a b) ≡ 29 + length (to_string a) + length (to_string b)
unfolding FriendModel.insert_sql
length-friend_sql a b = omega (
  arith,
  length-append (codes "insert into friend values(")
      (to_string a ++ (codes ", " ++ (to_string b ++ codes ")"))),
  length-append (to_string a) (codes ", " ++ (to_string b ++ codes ")")),
  length-append (codes ", ") (to_string b ++ codes ")"),
  length-append (to_string b) (codes ")"),
)

pub length-create_sql :
    (g : Group)
    → length (GroupModel.create_sql g) ≡ 57 + length (c_str g.name) + length (c_str g.desc)
unfolding GroupModel.create_sql
length-create_sql g = omega (
  arith,
  length-append (codes "insert into allgroup(groupname, groupdesc) values('")
      (c_str g.name ++ (codes "', '" ++ (c_str g.desc ++ codes "')"))),
  length-append (c_str g.name) (codes "', '" ++ (c_str g.desc ++ codes "')")),
  length-append (codes "', '") (c_str g.desc ++ codes "')"),
  length-append (c_str g.desc) (codes "')"),
)

pub length-add_sql :
    (userid groupid : ℤ) (role : Str)
    → length (GroupModel.add_sql userid groupid role)
      ≡ 36 + length (to_string groupid) + length (to_string userid) + length (c_str role)
unfolding GroupModel.add_sql
length-add_sql userid groupid role = omega (
  arith,
  length-append (codes "insert into groupuser values(") (
      to_string groupid
      ++ (codes ", " ++ (to_string userid ++ (codes ", '" ++ (c_str role ++ codes "')"))))),
  length-append (to_string groupid)
      (codes ", " ++ (to_string userid ++ (codes ", '" ++ (c_str role ++ codes "')")))),
  length-append (codes ", ") (to_string userid ++ (codes ", '" ++ (c_str role ++ codes "')"))),
  length-append (to_string userid) (codes ", '" ++ (c_str role ++ codes "')")),
  length-append (codes ", '") (c_str role ++ codes "')"),
  length-append (c_str role) (codes "')"),
)

length-state_sql :
    (user : User)
    → length (UserModel.update_state_sql user)
      ≡ 38 + length (c_str user.state) + length (to_string user.id)
unfolding UserModel.update_state_sql
length-state_sql user = omega (
  arith,
  length-append (codes "update user set state = '")
      (c_str user.state ++ (codes "' where id = " ++ to_string user.id)),
  length-append (c_str user.state) (codes "' where id = " ++ to_string user.id),
  length-append (codes "' where id = ") (to_string user.id),
)

module _ {Db : Type 0} (m : MysqlLib Db) where
  perform_as-ok :
      (type : DbTaskType) (t : DbTaskArgs) (db : Db) → Fits t → (perform_as m type t db).0 ≡ ok tt
  unfolding perform_as FriendModel.insert GroupModel.add_group GroupModel.create_group
      UserModel.update_state sprintf connect update c_str
  perform_as-ok db_task_insert_offline_msg t db f =
      insert-short m t.toid t.msg db f.toid_int f.msg_short
  perform_as-ok db_task_add_friend t db f =
      let a = length-to_string-le t.userid f.userid_int in
      let b = length-to_string-le t.friendid f.friendid_int in
      let fits : ltb (length (FriendModel.insert_sql t.userid t.friendid)) 1024 ≡ true =
        ground (arith, length-friend_sql t.userid t.friendid, a, b) in
      let fits' : ltb (length (FriendModel.insert_sql t.friendid t.userid)) 1024 ≡ true =
        ground (arith, length-friend_sql t.friendid t.userid, a, b) in
      elim (Bool-cases (m.real_connect db).0) [
        | inl up ↦ rw (fits, fits', up) refl
        | inr down ↦ rw (fits, fits', down) refl
      ]
  perform_as-ok db_task_add_group_user t db f =
      let fits : ltb (length (GroupModel.add_sql t.userid t.groupid (codes "normal"))) 1024 ≡ true =
        ground (
          arith,
          length-add_sql t.userid t.groupid (codes "normal"),
          length-to_string-le t.userid f.userid_int,
          length-to_string-le t.groupid f.groupid_int,
        ) in
      rw (fits, (run_update-ok m (GroupModel.add_sql t.userid t.groupid (codes "normal")) db).1)
        refl
  perform_as-ok db_task_create_group t db f =
      let group : Group = record { id = minus_one; name = t.name; desc = t.desc; users = [] } in
      let fits : ltb (length (GroupModel.create_sql group)) 1024 ≡ true =
        ground (arith, length-create_sql group, f.names_short) in
      rw (fits, (run_update-ok m (GroupModel.create_sql group) db).1) refl
  perform_as-ok db_task_update_user_state t db f =
      let user : User = record { id = t.userid; name = []; password = []; state = t.state } in
      let fits : ltb (length (UserModel.update_state_sql user)) 1024 ≡ true =
        ground (
          arith,
          length-state_sql user,
          length-to_string-le t.userid f.userid_int,
          f.state_short,
        ) in
      rw (fits, (run_update-ok m (UserModel.update_state_sql user) db).1) refl

  perform-ok : (t : DbTaskArgs) (db : Db) → Fits t → (perform m t db).0 ≡ ok tt
  unfolding perform
  perform-ok t db f = rw (perform_as-ok t.type t db f) refl

  for_each-ok :
      (tasks : List DbTaskArgs) (db : Db) → AllFit tasks → (for_each tasks (perform m) db).0 ≡ ok tt
  unfolding for_each
  for_each-ok [] db f = refl
  for_each-ok (t ∷ tasks) db (f, fs) =
      rw (perform-ok t db f) (for_each-ok tasks (perform m t db).1 fs)

  -- Tasks of every kind whose ids are `int`s and whose texts are short enough (a state of 900
  -- bytes, a message of 973, a group's name and description of 900 together) are all performed, in
  -- the order of the pushes, without a write past a buffer, whatever the database answers; tasks
  -- that were pushed later stay in the queue.
  pub work-AllFit :
      (tasks later : List DbTaskArgs) (db : Db)
      → AllFit tasks
      → work m (length tasks) (record { queue = push_all later (push_all tasks []); db = db })
        ≡ (ok tt, record { queue = later; db = (for_each tasks (perform m) db).1 })
  work-AllFit tasks later db f = work-push_all m tasks later db (for_each-ok tasks db f)
