-- ===== src/Service/Group.antt =====
-- src/server/chatservice.cpp: createGroup and addGroup. The branches under `if (1)` are the ones
-- that run.
use my_chat_project.Prelude.{ℕ, [], ◌∷◌, pos, minus_one, codes}
use my_chat_project.Exec.{Exec, ◌>>=◌, ◌>>◌}
use my_chat_project.Externals.{Externals, num, txt}
use my_chat_project.Protocol.Header.{create_group_msg_ack, add_group_msg_ack}
use my_chat_project.Model.{new_task, db_task_create_group, db_task_add_group_user}
use my_chat_project.Db.GroupModel
use my_chat_project.Service.Texts.{group_created, group_joined}
use my_chat_project.Service.{
  Server, push_task, on_db, get_int, get_text, respond, code_field, ack_to_client,
}

module _ {Json Db Rs G Ctx : Type 0} (x : Externals Json Db Rs G Ctx) where
  -- ChatService::createGroup: the group object keeps the id -1 that it was made with.
  unfoldable pub create_group : ℕ → Json → Exec (Server Db Rs G) (Unit {0})
  create_group conn js = do
    userid ← get_int x js "id"
    name ← get_text x js "groupname"
    desc ← get_text x js "groupdesc"
    msg_id ← get_int x js "msgId"
    push_task (record (new_task db_task_create_group) { name = name; desc = desc })
    on_db (GroupModel.add_group x.mysql userid minus_one (codes "creator"))
    respond x conn
        (x.json.object (
          ("msgid", code_field x create_group_msg_ack)
          ∷ ("errno", num (pos 0))
          ∷ ("desc", txt group_created)
          ∷ ("msgId", num msg_id)
          ∷ []))
        msg_id
    ack_to_client x conn msg_id

  -- ChatService::addGroup
  unfoldable pub add_group : ℕ → Json → Exec (Server Db Rs G) (Unit {0})
  add_group conn js = do
    userid ← get_int x js "id"
    groupid ← get_int x js "groupid"
    msg_id ← get_int x js "msgId"
    push_task (record (new_task db_task_add_group_user) { userid = userid; groupid = groupid })
    respond x conn
        (x.json.object (
          ("msgid", code_field x add_group_msg_ack)
          ∷ ("errno", num (pos 0))
          ∷ ("desc", txt group_joined)
          ∷ ("msgId", num msg_id)
          ∷ []))
        msg_id
    ack_to_client x conn msg_id
