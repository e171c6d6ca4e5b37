-- ===== src/ChatServer/Threads.antt =====
-- src/server/chatservice.cpp and src/server/redis/dbtask.cpp as threads: the handlers that muduo's
-- threads run at the same time, the thread that listens to redis and the database thread. A section
-- under `_connMutex` or under the queue's mutex is one step, and so is each other call; between
-- two steps of a thread the others may run.
pub mod Account
pub mod Chat
pub mod Tasks
pub mod Alone
pub mod Guards
pub mod Safety
pub mod Missed
pub mod Lost
use my_chat_project.Prelude.{
  String, ℕ, Bool, true, false, Option, none, some, List, [], ◌∷◌, ℤ, pos, minus_one, eq_int,
  eq_str, Str, codes, to_string, if◌then◌else◌,
}
use my_chat_project.Exec
use my_chat_project.Exec.{Exec, Outcome, pure, gets, for_each}
use my_chat_project.Exec.Threads.{Thread, done, act, atomic, return, resume, ◌>>=◌, ◌>>◌}
use my_chat_project.Externals.{Externals, JsonValue, num, txt}
use my_chat_project.Protocol.Header.{
  msg_code, group_chat_msg, create_group_msg_ack, add_group_msg_ack,
}
use my_chat_project.Model.{
  User, DbTaskArgs, new_task, default_user, online, offline, db_task_add_friend,
  db_task_create_group, db_task_add_group_user,
}
use my_chat_project.Db.UserModel
use my_chat_project.Db.FriendModel
use my_chat_project.Db.GroupModel
use my_chat_project.Db.OfflineMsgModel
use my_chat_project.DbTask
use my_chat_project.Redis
use my_chat_project.Service.Conns
use my_chat_project.Service.Texts.{already_online, wrong_password, group_created, group_joined}
use my_chat_project.Service.{
  Server, send, push_task, set_conns, on_db, on_redis, get_int, get_text, dump, respond, code_field,
  encrypt_frame, ack_to_client, state_task, offline_task,
}
use my_chat_project.Service.Account.{
  dump_all, is_empty, credentials_match, closed_user, erase_user, friend_json, group_json,
  answer_fields, refuse_login, reg_answer, client_close_exception,
}
use my_chat_project.Service.Chat.{deliver, handle_redis_subscribe_message}
use my_chat_project.Service.Dispatch.{
  Handler, login_handler, reg_handler, one_chat_handler, add_friend_handler, create_group_handler,
  add_group_handler, group_chat_handler, logout_handler, run_handler,
}
use my_chat_project.ChatServer.Events.{db_work}
use my_chat_project.ChatServer.Threads.Account.{
  login_thread, reg_thread, logout_thread, close_thread,
}
use my_chat_project.ChatServer.Threads.Chat.{one_chat_thread, group_chat_thread}
use my_chat_project.ChatServer.Threads.Tasks.{
  add_friend_thread, create_group_thread, add_group_thread, db_thread,
}

-- What the threads of the server are begun with: a request at its handler, a connection that was
-- closed, a message from redis, and a round of the database thread.
pub data Call (Json : Type 0) : Type 0 where
  request : Handler → ℕ → Json → Call Json
  closed : ℕ → Call Json
  published : ℤ → Str → Call Json
  db_round : Call Json

module _ {Json Db Rs G Ctx : Type 0} (x : Externals Json Db Rs G Ctx) where
  unfoldable pub handler_thread : Handler → ℕ → Json → Thread (Server Db Rs G) (Unit {0})
  handler_thread login_handler conn js = login_thread x conn js
  handler_thread reg_handler conn js = reg_thread x conn js
  handler_thread one_chat_handler conn js = one_chat_thread x conn js
  handler_thread add_friend_handler conn js = add_friend_thread x conn js
  handler_thread create_group_handler conn js = create_group_thread x conn js
  handler_thread add_group_handler conn js = add_group_thread x conn js
  handler_thread group_chat_handler conn js = group_chat_thread x conn js
  handler_thread logout_handler conn js = logout_thread x conn js

  -- handleRedisSubscribeMessage holds the mutex from its first line to its last.
  unfoldable pub thread_of : Call Json → Thread (Server Db Rs G) (Unit {0})
  unfolding handler_thread
  thread_of (request h conn js) = handler_thread h conn js
  thread_of (closed conn) = close_thread x conn
  thread_of (published userid msg) = atomic (handle_redis_subscribe_message x userid msg)
  thread_of db_round = db_thread x

  -- The same in one go.
  unfoldable pub code_of : Call Json → Exec (Server Db Rs G) (Unit {0})
  code_of (request h conn js) = run_handler x (some h) conn js
  code_of (closed conn) = client_close_exception x conn
  code_of (published userid msg) = handle_redis_subscribe_message x userid msg
  code_of db_round = db_work x
