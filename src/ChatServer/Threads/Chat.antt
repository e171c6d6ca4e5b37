-- ===== src/ChatServer/Threads/Chat.antt =====
-- src/server/chatservice.cpp: oneChat and groupChat in steps.
use my_chat_project.Prelude.{
  ℕ, Bool, true, false, Option, none, some, ℤ, eq_str, Str, to_string, if◌then◌else◌,
}
use my_chat_project.Exec
use my_chat_project.Exec.{Exec, Outcome, pure, gets, for_each}
use my_chat_project.Exec.Threads.{Thread, atomic, return, ◌>>=◌, ◌>>◌}
use my_chat_project.Externals.{Externals}
use my_chat_project.Protocol.Header.{msg_code, group_chat_msg}
use my_chat_project.Model.{online}
use my_chat_project.Db.UserModel
use my_chat_project.Db.GroupModel
use my_chat_project.Redis
use my_chat_project.Service.Conns
use my_chat_project.Service.{
  Server, send, push_task, on_db, on_redis, get_int, dump, encrypt_frame, ack_to_client,
  offline_task,
}
use my_chat_project.Service.Chat.{deliver}

module _ {Json Db Rs G Ctx : Type 0} (x : Externals Json Db Rs G Ctx) where
  -- The section of oneChat under the mutex: whether the receiver is on a connection here, which
  -- then gets the message and the sender the ACK.
  unfoldable pub answer_here : ℕ → ℤ → Str → Option ℕ → Exec (Server Db Rs G) Bool
  answer_here conn msg_id bytes (some peer) =
      Exec.◌>>◌ (send peer bytes) (Exec.◌>>◌ (ack_to_client x conn msg_id) (pure true))
  answer_here conn msg_id bytes none = pure false

  unfoldable pub send_here : ℕ → ℤ → ℤ → Str → Exec (Server Db Rs G) Bool
  unfolding answer_here
  send_here conn toid msg_id bytes s = answer_here conn msg_id bytes (Conns.find toid s.conns) s

  unfoldable pub chat_to_database_thread : ℕ → ℤ → ℤ → Str → Thread (Server Db Rs G) (Unit {0})
  chat_to_database_thread conn toid msg_id text = do
    user ← atomic (on_db (UserModel.query_user x.mysql toid))
    if eq_str user.state online
        then (do atomic (on_redis (Redis.publish x.redis toid text)); return tt)
        else (do
          atomic (push_task (offline_task x user.id text))
          atomic (ack_to_client x conn msg_id))

  unfoldable pub chat_remote_thread :
      ℕ → ℤ → ℤ → Str → Option Str → Thread (Server Db Rs G) (Unit {0})
  unfolding chat_to_database_thread
  chat_remote_thread conn toid msg_id text (some value) = do
    atomic (on_redis (Redis.publish x.redis toid text))
    return tt
  chat_remote_thread conn toid msg_id text none = chat_to_database_thread conn toid msg_id text

  -- ChatService::oneChat
  unfoldable pub one_chat_thread : ℕ → Json → Thread (Server Db Rs G) (Unit {0})
  unfolding send_here chat_remote_thread
  one_chat_thread conn js = do
    toid ← atomic (get_int x js "toid")
    msg_id ← atomic (get_int x js "msgId")
    text ← atomic (dump x js)
    bytes ← atomic (encrypt_frame x text (msg_code group_chat_msg) msg_id)
    found ← atomic (send_here conn toid msg_id bytes)
    if found then return tt else (do
      value ← atomic (on_redis (Redis.get x.redis (to_string toid)))
      chat_remote_thread conn toid msg_id text value)

  -- ChatService::groupChat; the mutex is held from the loop on.
  unfoldable pub group_chat_thread : ℕ → Json → Thread (Server Db Rs G) (Unit {0})
  group_chat_thread conn js = do
    userid ← atomic (get_int x js "id")
    groupid ← atomic (get_int x js "groupid")
    msg_id ← atomic (get_int x js "msgId")
    text ← atomic (dump x js)
    bytes ← atomic (encrypt_frame x text (msg_code group_chat_msg) msg_id)
    members ← atomic (on_db (GroupModel.query_group_users x.mysql userid groupid))
    atomic (Exec.◌>>◌ (for_each members (deliver x text bytes)) (ack_to_client x conn msg_id))
