-- ===== src/Service.antt =====
-- src/server/chatservice.cpp: the state of ChatService and what its handlers share. A handler below
-- runs in one go; ChatServer/Threads has them in steps.
pub mod Conns
pub mod Texts
pub mod Account
pub mod Chat
pub mod Group
pub mod Dispatch
pub mod Invariant
pub mod Effects
use my_chat_project.Prelude.{
  ℕ, Bool, true, false, Option, none, some, List, [], ◌∷◌, ◌++◌, ℤ, pos, minus_one, to_int, to_u32,
  Str, String, codes, to_string, if◌then◌else◌,
}
use my_chat_project.Exec.{
  Exec, Outcome, ok, throws, undefined, json_exception, pure, gets, modify, or_throw, zoom,
  continue, ◌>>=◌, ◌>>◌,
}
use my_chat_project.Externals.{Externals, JsonLib, JsonValue, num, txt, MysqlLib, RedisLib, EvpLib}
use my_chat_project.Protocol.Header.{EnMsgType, group_chat_msg, ack_msg, msg_code}
use my_chat_project.Protocol.Frame.{encrypted_message_svr}
use my_chat_project.Model.{
  User, DbTaskArgs, new_task, db_task_update_user_state, db_task_insert_offline_msg,
}
use my_chat_project.DbTask
use my_chat_project.Redis
use Conns.{ConnMap}

-- `sent` are the calls of `conn->send`, `shut` those of `conn->shutdown`, oldest first; a
-- connection is the number that stands for its shared pointer.
pub record Server (Db Rs G : Type 0) : Type 0 where
  pub conns : ConnMap
  pub db : Db
  pub redis : Rs
  pub rng : G
  pub tasks : List DbTaskArgs
  pub sent : List (ℕ × Str)
  pub shut : List ℕ

module _ {Db Rs G : Type 0} where
  -- conn->send(bytes)
  abbrev pub send : ℕ → Str → Exec (Server Db Rs G) (Unit {0})
  send conn bytes = modify λ s. record s { sent = s.sent ++ (conn, bytes) ∷ [] }

  -- conn->shutdown()
  abbrev pub shutdown : ℕ → Exec (Server Db Rs G) (Unit {0})
  shutdown conn = modify λ s. record s { shut = s.shut ++ conn ∷ [] }

  -- DbTaskQueue::GetInstance().push(t)
  abbrev pub push_task : DbTaskArgs → Exec (Server Db Rs G) (Unit {0})
  push_task t = modify λ s. record s { tasks = DbTask.push t s.tasks }

  abbrev pub set_conns : (ConnMap → ConnMap) → Exec (Server Db Rs G) (Unit {0})
  set_conns f = modify λ s. record s { conns = f s.conns }

  abbrev pub on_db : {A : Type 0} → Exec Db A → Exec (Server Db Rs G) A
  on_db = zoom (λ s. s.db) (λ db s. record s { db = db })

  -- A call of the redis object.
  abbrev pub on_redis : {A : Type 0} → (Rs → A × Rs) → Exec (Server Db Rs G) A
  on_redis f s = let (a, rs) = f s.redis in (ok a, record s { redis = rs })

  abbrev pub on_rng : {A : Type 0} → Exec G A → Exec (Server Db Rs G) A
  on_rng = zoom (λ s. s.rng) (λ g s. record s { rng = g })

module _ {Json Db Rs G Ctx : Type 0} (x : Externals Json Db Rs G Ctx) where
  -- js[key].get<int>() and js[key].get<string>()
  abbrev pub get_int : Json → String → Exec (Server Db Rs G) ℤ
  get_int js key = do n ← or_throw (x.json.number js key) json_exception; pure (to_int n)

  abbrev pub get_text : Json → String → Exec (Server Db Rs G) Str
  get_text js key = or_throw (x.json.text js key) json_exception

  -- js.dump()
  abbrev pub dump : Json → Exec (Server Db Rs G) Str
  dump js = or_throw (x.json.dump js) json_exception

  -- encryptedMessage_Svr with the number of a message type, whose message id is a uint32_t made
  -- from an int.
  abbrev pub encrypt_frame : Str → ℕ → ℤ → Exec (Server Db Rs G) Str
  encrypt_frame text msg_type msg_id s =
      let (bytes, g) = encrypted_message_svr x.evp text msg_type (to_u32 msg_id) s.rng in
      (ok bytes, record s { rng = g })

  -- Dump a response, encrypt it and send it; every response goes out as GROUP_CHAT_MSG.
  unfoldable pub respond : ℕ → Json → ℤ → Exec (Server Db Rs G) (Unit {0})
  respond conn response msg_id = do
    text ← dump response
    bytes ← encrypt_frame text (msg_code group_chat_msg) msg_id
    send conn bytes

  -- A number of the program as a field.
  abbrev pub code_field : EnMsgType → JsonValue
  code_field t = num (pos (msg_code t))

  -- The response of ACKToClient.
  abbrev pub ack_json : ℤ → Json
  ack_json msg_id = x.json.object (("msgId", num msg_id) ∷ ("msgid", code_field ack_msg) ∷ [])

  -- ChatService::ACKToClient
  unfoldable pub ack_to_client : ℕ → ℤ → Exec (Server Db Rs G) (Unit {0})
  ack_to_client conn msg_id = respond conn (ack_json msg_id) msg_id

  -- ChatService::OnHeartBeat: 120 seconds more.
  unfoldable pub on_heart_beat : ℤ → Exec (Server Db Rs G) (Unit {0})
  on_heart_beat id = do on_redis (Redis.set x.redis (to_string id) (to_string (pos 0)) 120); pure tt

  -- The task that stores a user's state.
  abbrev pub state_task : ℤ → Str → DbTaskArgs
  state_task id state = record (new_task db_task_update_user_state) { userid = id; state = state }

  -- The task that stores a message.
  abbrev pub offline_task : ℤ → Str → DbTaskArgs
  offline_task id text = record (new_task db_task_insert_offline_msg) { toid = id; msg = text }
