-- ===== src/ChatServer/Threads/Tasks.antt =====
-- src/server/chatservice.cpp: addFriend, createGroup and addGroup in steps, and a round of dbWork of
-- src/server/redis/dbtask.cpp.
use my_chat_project.Prelude.{ℕ, Option, none, some, List, [], ◌∷◌, pos, minus_one, codes}
use my_chat_project.Exec.{Exec, pure}
use my_chat_project.Exec.Threads.{Thread, atomic, return, ◌>>=◌, ◌>>◌}
use my_chat_project.Externals.{Externals, num, txt}
use my_chat_project.Protocol.Header.{create_group_msg_ack, add_group_msg_ack}
use my_chat_project.Model.{
  DbTaskArgs, new_task, db_task_add_friend, db_task_create_group, db_task_add_group_user,
}
use my_chat_project.Db.GroupModel
use my_chat_project.DbTask
use my_chat_project.Service.Texts.{group_created, group_joined}
use my_chat_project.Service.{
  Server, push_task, on_db, get_int, get_text, respond, code_field, ack_to_client,
}

-- What a pop leaves of the queue.
unfoldable pub popped :
    {Db Rs G : Type 0}
    → Option (DbTaskArgs × List DbTaskArgs)
    → Exec (Server Db Rs G) (Option DbTaskArgs)
popped none s = pure none s
popped (some (t, queue)) s = pure (some t) (record s { tasks = queue })

module _ {Json Db Rs G Ctx : Type 0} (x : Externals Json Db Rs G Ctx) where
  -- ChatService::addFriend
  unfoldable pub add_friend_thread : ℕ → Json → Thread (Server Db Rs G) (Unit {0})
  add_friend_thread conn js = do
    userid ← atomic (get_int x js "id")
    friendid ← atomic (get_int x js "friendid")
    msg_id ← atomic (get_int x js "msgId")
    atomic
        (push_task (record (new_task db_task_add_friend) { userid = userid; friendid = friendid }))
    atomic (ack_to_client x conn msg_id)

  -- ChatService::createGroup
  unfoldable pub create_group_thread : ℕ → Json → Thread (Server Db Rs G) (Unit {0})
  create_group_thread conn js = do
    userid ← atomic (get_int x js "id")
    name ← atomic (get_text x js "groupname")
    desc ← atomic (get_text x js "groupdesc")
    msg_id ← atomic (get_int x js "msgId")
    atomic (push_task (record (new_task db_task_create_group) { name = name; desc = desc }))
    atomic (on_db (GroupModel.add_group x.mysql userid minus_one (codes "creator")))
    atomic (
        respond x conn
          (x.json.object (
            ("msgid", code_field x create_group_msg_ack)
            ∷ ("errno", num (pos 0))
            ∷ ("desc", txt group_created)
            ∷ ("msgId", num msg_id)
            ∷ []))
          msg_id)
    atomic (ack_to_client x conn msg_id)

  -- ChatService::addGroup
  unfoldable pub add_group_thread : ℕ → Json → Thread (Server Db Rs G) (Unit {0})
  add_group_thread conn js = do
    userid ← atomic (get_int x js "id")
    groupid ← atomic (get_int x js "groupid")
    msg_id ← atomic (get_int x js "msgId")
    atomic (
        push_task (record (new_task db_task_add_group_user) { userid = userid; groupid = groupid }))
    atomic (
        respond x conn
          (x.json.object (
            ("msgid", code_field x add_group_msg_ack)
            ∷ ("errno", num (pos 0))
            ∷ ("desc", txt group_joined)
            ∷ ("msgId", num msg_id)
            ∷ []))
          msg_id)
    atomic (ack_to_client x conn msg_id)

  -- DbTaskQueue::pop, under the queue's mutex; `none` where the thread waits.
  unfoldable pub pop_task : Exec (Server Db Rs G) (Option DbTaskArgs)
  unfolding popped
  pop_task s = popped (DbTask.pop s.tasks) s

  unfoldable pub perform_thread : Option DbTaskArgs → Thread (Server Db Rs G) (Unit {0})
  perform_thread none = return tt
  perform_thread (some t) = atomic (on_db (DbTask.perform x.mysql t))

  -- A round of dbWork: the task is performed after the mutex has been released.
  unfoldable pub db_thread : Thread (Server Db Rs G) (Unit {0})
  unfolding pop_task perform_thread
  db_thread = do task ← atomic pop_task; perform_thread task
