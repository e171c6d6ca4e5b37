-- ===== src/Service/Chat.antt =====
-- src/server/chatservice.cpp: oneChat, groupChat, addFriend and handleRedisSubscribeMessage.
use my_chat_project.Prelude.{
  ℕ, Option, none, some, ℤ, eq_str, Str, to_string, to_u32, if◌then◌else◌,
}
use my_chat_project.Exec.{Exec, json_exception, pure, gets, or_throw, for_each, ◌>>=◌, ◌>>◌}
use my_chat_project.Externals.{Externals}
use my_chat_project.Protocol.Header.{group_chat_msg, msg_code}
use my_chat_project.Model.{new_task, online, db_task_add_friend}
use my_chat_project.Db.UserModel
use my_chat_project.Db.GroupModel
use my_chat_project.Db.OfflineMsgModel
use my_chat_project.Redis
use my_chat_project.Service.Conns
use my_chat_project.Service.{
  Server, send, push_task, on_db, on_redis, get_int, dump, encrypt_frame, ack_to_client,
  on_heart_beat, offline_task,
}

module _ {Json Db Rs G Ctx : Type 0} (x : Externals Json Db Rs G Ctx) where
  -- oneChat's end, where the user is on no connection of this server: publish if redis or the
  -- database says that the user is online, and queue the message otherwise.
  unfoldable pub chat_to_database : ℕ → ℤ → ℤ → Str → Exec (Server Db Rs G) (Unit {0})
  chat_to_database conn toid msg_id text = do
    user ← on_db (UserModel.query_user x.mysql toid)
    if eq_str user.state online
        then (do on_redis (Redis.publish x.redis toid text); pure tt)
        else (do push_task (offline_task x user.id text); ack_to_client x conn msg_id)

  unfoldable pub chat_remote : ℕ → ℤ → ℤ → Str → Option Str → Exec (Server Db Rs G) (Unit {0})
  chat_remote conn toid msg_id text (some value) = do
    on_redis (Redis.publish x.redis toid text)
    pure tt
  chat_remote conn toid msg_id text none = chat_to_database conn toid msg_id text

  unfoldable pub chat_route : ℕ → ℤ → ℤ → Str → Str → Option ℕ → Exec (Server Db Rs G) (Unit {0})
  chat_route conn toid msg_id text bytes (some peer) = do
    send peer bytes
    ack_to_client x conn msg_id
  chat_route conn toid msg_id text bytes none = do
    value ← on_redis (Redis.get x.redis (to_string toid))
    chat_remote conn toid msg_id text value

  -- ChatService::oneChat
  unfoldable pub one_chat : ℕ → Json → Exec (Server Db Rs G) (Unit {0})
  one_chat conn js = do
    toid ← get_int x js "toid"
    msg_id ← get_int x js "msgId"
    text ← dump x js
    bytes ← encrypt_frame x text (msg_code group_chat_msg) msg_id
    peer ← gets (λ s. Conns.find toid s.conns)
    chat_route conn toid msg_id text bytes peer

  -- The body of groupChat's loop.
  unfoldable pub deliver_to : Str → Str → ℤ → Option ℕ → Exec (Server Db Rs G) (Unit {0})
  deliver_to text bytes id (some peer) = send peer bytes
  deliver_to text bytes id none = do
    user ← on_db (UserModel.query_user x.mysql id)
    if eq_str user.state online
        then (do on_redis (Redis.publish x.redis id text); pure tt)
        else push_task (offline_task x id text)

  unfoldable pub deliver : Str → Str → ℤ → Exec (Server Db Rs G) (Unit {0})
  deliver text bytes id = do peer ← gets (λ s. Conns.find id s.conns); deliver_to text bytes id peer

  -- ChatService::groupChat
  unfoldable pub group_chat : ℕ → Json → Exec (Server Db Rs G) (Unit {0})
  group_chat conn js = do
    userid ← get_int x js "id"
    groupid ← get_int x js "groupid"
    msg_id ← get_int x js "msgId"
    text ← dump x js
    bytes ← encrypt_frame x text (msg_code group_chat_msg) msg_id
    members ← on_db (GroupModel.query_group_users x.mysql userid groupid)
    for_each members (deliver text bytes)
    ack_to_client x conn msg_id

  -- ChatService::addFriend
  unfoldable pub add_friend : ℕ → Json → Exec (Server Db Rs G) (Unit {0})
  add_friend conn js = do
    userid ← get_int x js "id"
    friendid ← get_int x js "friendid"
    msg_id ← get_int x js "msgId"
    push_task (record (new_task db_task_add_friend) { userid = userid; friendid = friendid })
    ack_to_client x conn msg_id

  -- The part of handleRedisSubscribeMessage for a user on a connection of this server. The header
  -- gets the message's own type, a number that need be no enumerator's.
  unfoldable pub forward : ℤ → Str → ℕ → Exec (Server Db Rs G) (Unit {0})
  forward userid msg peer = do
    on_heart_beat x userid
    js ← or_throw (x.json.parse msg) json_exception
    msg_id ← get_int x js "msgId"
    msgid ← or_throw (x.json.number js "msgid") json_exception
    text ← dump x js
    bytes ← encrypt_frame x text (to_u32 msgid) msg_id
    send peer bytes

  unfoldable pub forward_or_store : ℤ → Str → Option ℕ → Exec (Server Db Rs G) (Unit {0})
  forward_or_store userid msg (some peer) = forward userid msg peer
  forward_or_store userid msg none = on_db (OfflineMsgModel.insert x.mysql userid msg)

  -- ChatService::handleRedisSubscribeMessage
  unfoldable pub handle_redis_subscribe_message : ℤ → Str → Exec (Server Db Rs G) (Unit {0})
  handle_redis_subscribe_message userid msg = do
    peer ← gets (λ s. Conns.find userid s.conns)
    forward_or_store userid msg peer
