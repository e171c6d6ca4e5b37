-- ===== src/ChatServer/Threads/Account.antt =====
-- src/server/chatservice.cpp: login, reg, logout and clientCloseException in steps.
use my_chat_project.Prelude.{
  String, ℕ, Option, List, ℤ, pos, minus_one, eq_int, eq_str, Str, to_string, if◌then◌else◌,
}
use my_chat_project.Exec
use my_chat_project.Exec.{Exec, Outcome, pure, gets, for_each}
use my_chat_project.Exec.Threads.{Thread, atomic, return, ◌>>=◌, ◌>>◌}
use my_chat_project.Externals.{Externals, JsonValue}
use my_chat_project.Model.{User, default_user, online, offline}
use my_chat_project.Db.UserModel
use my_chat_project.Db.FriendModel
use my_chat_project.Db.GroupModel
use my_chat_project.Db.OfflineMsgModel
use my_chat_project.Redis
use my_chat_project.Service.Conns
use my_chat_project.Service.Texts.{already_online, wrong_password}
use my_chat_project.Service.{
  Server, push_task, set_conns, on_db, on_redis, get_int, get_text, respond, ack_to_client,
  state_task,
}
use my_chat_project.Service.Account.{
  dump_all, is_empty, credentials_match, closed_user, erase_user, friend_json, group_json,
  answer_fields, refuse_login, reg_answer,
}

module _ {Json Db Rs G Ctx : Type 0} (x : Externals Json Db Rs G Ctx) where
  -- The offline messages are deleted by a statement of its own.
  unfoldable pub take_offline_thread : ℤ → Thread (Server Db Rs G) (List Str)
  take_offline_thread id = do
    messages ← atomic (on_db (OfflineMsgModel.query_messages x.mysql id))
    (if is_empty messages then return tt else atomic (on_db (OfflineMsgModel.remove x.mysql id)))
    return messages

  -- The reads of the friends and the groups, and the fields of the answer.
  unfoldable pub read_lists_thread :
      User → ℤ → ℤ → List Str → Thread (Server Db Rs G) (List (String × JsonValue))
  read_lists_thread user id msg_id messages = do
    friends ← atomic (on_db (FriendModel.query_friends x.mysql id))
    friend_texts ← atomic (dump_all x (friend_json x) friends)
    groups ← atomic (on_db (GroupModel.query_groups x.mysql id))
    group_texts ← atomic (dump_all x (group_json x) groups)
    return (answer_fields x user msg_id messages friend_texts group_texts)

  unfoldable pub login_fields_thread :
      User → ℤ → ℤ → Thread (Server Db Rs G) (List (String × JsonValue))
  unfolding take_offline_thread read_lists_thread
  login_fields_thread user id msg_id = do
    messages ← take_offline_thread id
    read_lists_thread user id msg_id messages

  unfoldable pub accept_login_thread : ℕ → User → ℤ → ℤ → Thread (Server Db Rs G) (Unit {0})
  unfolding login_fields_thread
  accept_login_thread conn user id msg_id = do
    atomic (set_conns (Conns.insert id conn))
    atomic (on_redis (Redis.subscribe x.redis id))
    atomic (on_redis (Redis.set x.redis (to_string id) (to_string (pos 0)) 120))
    atomic (push_task (state_task x user.id online))
    fields ← login_fields_thread user id msg_id
    atomic (respond x conn (x.json.object fields) msg_id)

  -- ChatService::login
  unfoldable pub login_thread : ℕ → Json → Thread (Server Db Rs G) (Unit {0})
  unfolding accept_login_thread
  login_thread conn js = do
    id ← atomic (get_int x js "id")
    pwd ← atomic (get_text x js "password")
    msg_id ← atomic (get_int x js "msgId")
    user ← atomic (on_db (UserModel.query_user x.mysql id))
    (if credentials_match user id pwd
        then if eq_str user.state online
          then atomic (refuse_login x conn 2 already_online msg_id)
          else accept_login_thread conn user id msg_id
        else atomic (refuse_login x conn 1 wrong_password msg_id))
    atomic (ack_to_client x conn msg_id)

  -- ChatService::reg
  unfoldable pub reg_thread : ℕ → Json → Thread (Server Db Rs G) (Unit {0})
  reg_thread conn js = do
    name ← atomic (get_text x js "name")
    pwd ← atomic (get_text x js "password")
    msg_id ← atomic (get_int x js "msgId")
    inserted ←
        atomic
          (on_db (UserModel.insert x.mysql (record default_user { name = name; password = pwd })))
    atomic (respond x conn (reg_answer x inserted.0 inserted.1 js msg_id) msg_id)
    atomic (ack_to_client x conn msg_id)

  -- ChatService::logout
  unfoldable pub logout_thread : ℕ → Json → Thread (Server Db Rs G) (Unit {0})
  logout_thread conn js = do
    userid ← atomic (get_int x js "id")
    msg_id ← atomic (get_int x js "msgId")
    atomic (set_conns (Conns.erase userid))
    atomic (on_redis (Redis.unsubscribe x.redis userid))
    atomic (on_redis (Redis.delete x.redis (to_string userid)))
    atomic (push_task (state_task x userid offline))
    atomic (ack_to_client x conn msg_id)

  -- The section of clientCloseException under the mutex: the search and the erasure.
  unfoldable pub erase_connection : ℕ → Exec (Server Db Rs G) (Option ℤ)
  erase_connection conn s =
      let found = Conns.user_of conn s.conns in
      Exec.◌>>◌ (set_conns (erase_user found)) (pure found) s

  -- The rest of clientCloseException.
  unfoldable pub forget_user_thread : ℤ → Thread (Server Db Rs G) (Unit {0})
  forget_user_thread id = do
    atomic (on_redis (Redis.unsubscribe x.redis id))
    atomic (on_redis (Redis.delete x.redis (to_string id)))
    if eq_int id minus_one then return tt else atomic (push_task (state_task x id offline))

  -- ChatService::clientCloseException
  unfoldable pub close_thread : ℕ → Thread (Server Db Rs G) (Unit {0})
  unfolding erase_connection forget_user_thread
  close_thread conn = do
    found ← atomic (erase_connection conn)
    forget_user_thread (closed_user found)
