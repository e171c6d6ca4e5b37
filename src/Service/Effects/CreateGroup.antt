-- ===== src/Service/Effects/CreateGroup.antt =====
-- src/server/chatservice.cpp, createGroup, with src/server/redis/dbtask.cpp: the statements of a new
-- group.
use my_chat_project.Prelude.{
  ℕ, ◌≤◌, ◌≡◌, ap, refl, arith, true, some, [], ◌∷◌, ◌++◌, ◌+◌, ℤ, pos, minus_one, to_int,
  to_int-IsInt, to_string, digits, Bool, length, length-to_string-le, c_str, codes, Str, ltb,
}
use my_chat_project.Exec.{ok}
use my_chat_project.Externals.{Externals, num, txt}
use my_chat_project.Protocol.Header.{create_group_msg_ack}
use my_chat_project.Model.{Group, DbTaskArgs, new_task, db_task_create_group}
use my_chat_project.Db.{sprintf, run_update}
use my_chat_project.Db.GroupModel
use my_chat_project.Db.Bounds.{run_update-ok}
use my_chat_project.DbTask.{push, perform, perform_as}
use my_chat_project.DbTask.Bounds.{length-add_sql, length-create_sql}
use my_chat_project.Service.Texts.{group_created}
use my_chat_project.Service.{Server, respond, ack_to_client, ack_json, code_field}
use my_chat_project.Service.Group.{create_group}

module _ {Json Db Rs G Ctx : Type 0} (x : Externals Json Db Rs G Ctx) where
  abbrev pub group_task : Str → Str → DbTaskArgs
  group_task name desc = record (new_task db_task_create_group) { name = name; desc = desc }

  abbrev pub created_json : ℤ → Json
  created_json msg_id = x.json.object (
      ("msgid", code_field x create_group_msg_ack)
      ∷ ("errno", num (pos 0))
      ∷ ("desc", txt group_created)
      ∷ ("msgId", num msg_id)
      ∷ [])

  -- The statement that makes the creator a member.
  abbrev pub creator_sql : ℤ → Str
  creator_sql userid =
      codes "insert into groupuser values(-1, " ++ (to_string userid ++ codes ", 'creator')")

  creator_sql_lem :
      (userid : ℤ) → GroupModel.add_sql userid minus_one (codes "creator") ≡ creator_sql userid
  unfolding GroupModel.add_sql to_string digits c_str
  creator_sql_lem userid = refl

  added :
      (userid : ℤ) (db : Db)
      → (r : Bool) × (GroupModel.add_group x.mysql (to_int userid) minus_one (codes "creator") db
          ≡ (ok r, (run_update x.mysql (creator_sql (to_int userid)) db).1))
  unfolding GroupModel.add_group sprintf c_str
  added userid db =
      let fits : ltb (length (GroupModel.add_sql (to_int userid) minus_one (codes "creator"))) 1024
          ≡ true =
        ground (
          arith,
          length-add_sql (to_int userid) minus_one (codes "creator"),
          length-to_string-le minus_one (omega arith),
          length-to_string-le (to_int userid) (to_int-IsInt userid),
        ) in
      let (b, done) = run_update-ok x.mysql (creator_sql (to_int userid)) db in
      (
        b,
        rw (fits, creator_sql_lem (to_int userid))
            (ap (λ r. (r, (run_update x.mysql (creator_sql (to_int userid)) db).1)) done),
      )

  -- createGroup stores the creator as a member of the group -1, and queues one task. That task,
  -- performed on any database, runs the statement that inserts the group and no other, so that the
  -- creator is not made a member of the group that it inserts. The fields of the request can be read
  -- and both answers dumped; the group's name and description have at most 900 bytes together.
  pub create_group-creator :
      (conn : ℕ) (js : Json) (userid msg_id : ℤ) (name desc text ack_text : Str)
      (s : Server Db Rs G) (later : Db)
      → x.json.number js "id" ≡ some userid
      → x.json.text js "groupname" ≡ some name
      → x.json.text js "groupdesc" ≡ some desc
      → x.json.number js "msgId" ≡ some msg_id
      → x.json.dump (created_json (to_int msg_id)) ≡ some text
      → x.json.dump (ack_json x (to_int msg_id)) ≡ some ack_text
      → length (c_str name) + length (c_str desc) ≤ 900
      → ((create_group x conn js s).1.db
          ≡ (run_update x.mysql (creator_sql (to_int userid)) s.db).1)
        × ((create_group x conn js s).1.tasks ≡ s.tasks ++ group_task name desc ∷ [])
        × ((perform x.mysql (group_task name desc) later).1
            ≡ (run_update x.mysql
                (GroupModel.create_sql
                  (record { id = minus_one; name = name; desc = desc; users = [] }))
                later).1)
  unfolding create_group push respond ack_to_client perform perform_as GroupModel.create_group
      sprintf
  create_group-creator conn js userid msg_id name desc text ack_text s later e1 e2 e3 e4 d a short =
      let (b, done) = added userid s.db in
      let group : Group = record { id = minus_one; name = name; desc = desc; users = [] } in
      let fits : ltb (length (GroupModel.create_sql group)) 1024 ≡ true =
        ground (arith, length-create_sql group) in
      (
        rw (e1, e2, e3, e4, done, d, a) refl,
        rw (e1, e2, e3, e4, done, d, a) refl,
        rw (fits, (run_update-ok x.mysql (GroupModel.create_sql group) later).1) refl,
      )
