-- ===== src/Tests/Server.antt =====
-- The server at concrete inputs.
use my_chat_project.Prelude.{to_u32}
use my_chat_project.Externals.{Externals}
use my_chat_project.ChatServer.Requests.{on_message-encrypted_message}
use my_chat_project.Protocol.Cipher.{aes256_cbc_encrypt, aes256_cbc_decrypt, my_aes_key}
use my_chat_project.Protocol.Frame.{encrypted_message_svr}
use my_chat_project.Service.Dispatch.{get_handler}
use my_chat_project.Tests.Toys.{evp, evp-EvpLaws, zeros}
use my_chat_project.Prelude.{drop}
use my_chat_project.Prelude.{
  eq_int, atoi, digits, ℕ, ◌≡◌, ◌≢◌, refl, arith, pos, to_int, to_string, false, ◌&&◌, not, Str,
  codes, c_str, eq_str, ◌++◌, some, [], ◌∷◌, if◌then◌else◌,
}
use my_chat_project.Exec.{ok, throws, runtime_error, json_exception}
use my_chat_project.Externals.{num, txt}
use my_chat_project.Model.{User, DbTaskArgs, online, offline, new_task, db_task_add_friend}
use my_chat_project.Protocol.Header.{header_size, header_bytes, read_header}
use my_chat_project.Db.UserModel
use my_chat_project.Db.GroupModel
use my_chat_project.Redis
use my_chat_project.Service.Conns
use my_chat_project.Service.Conns.{IsMap}
use my_chat_project.Service.{Server}
use my_chat_project.Service.Account.{login, credentials_match}
use my_chat_project.Service.Chat.{one_chat, group_chat}
use my_chat_project.Service.Dispatch.{login_handler, run_handler}
use my_chat_project.Service.Effects.OneChat.{
  Effect, route_sent, route_tasks, route_redis, choose_route, one_chat-Effect,
}
use my_chat_project.Service.Effects.GroupChat.{
  Delivered, local_sent, offline_tasks, published_for, group_chat-Delivered,
}
use my_chat_project.Service.Effects.Login.{conns-login}
use my_chat_project.ChatServer.{on_message}
use my_chat_project.ChatServer.Messages.{on_message-no_throw, on_message-throws}
use my_chat_project.ChatServer.Events.Connections.{find-run_handler}
use my_chat_project.Tests.Toys.{
  Fields, value_of, as_number, as_text, mysql, redis, server_libraries,
}

abbrev pub ann : User
ann = record { id = pos 2; name = codes "ann"; password = codes "pw"; state = offline }

-- User 3 is on connection 30.
abbrev pub start : Server Str ℕ ℕ
start = record {
  conns = (pos 3, 30) ∷ [];
  db = [];
  redis = 0;
  rng = 0;
  tasks = [];
  sent = [];
  shut = [];
}

abbrev pub private_message : Fields
private_message = ("toid", num (pos 2)) ∷ ("msgId", num (pos 8192)) ∷ []

abbrev group_message : Fields
group_message = ("id", num (pos 1)) ∷ ("groupid", num (pos 4)) ∷ ("msgId", num (pos 8192)) ∷ []

abbrev pub login_request : Fields
login_request =
    ("id", num (pos 2)) ∷ ("password", txt (codes "pw")) ∷ ("msgId", num (pos 8192)) ∷ []

pub ann-found : (db : Str) → (UserModel.query_user mysql (pos 2) db).0 ≡ ok ann
unfolding UserModel.query_user UserModel.query_sql to_string digits atoi c_str
ann-found db = refl

-- The user is on no connection and not Online: the message is stored, and the ACK sent.
one_chat-Effect_example :
    (let route =
        choose_route
          (Conns.find (to_int (pos 2)) start.conns)
          (Redis.get redis (to_string (to_int (pos 2))) 0).0
          ann in
      let (bytes, g) =
        encrypted_message_svr server_libraries.evp
          (2 ∷ [])
          10
          (to_u32 (to_int (pos 8192)))
          start.rng in
      let ack =
        (encrypted_message_svr server_libraries.evp (2 ∷ []) 10 (to_u32 (to_int (pos 8192))) g).0 in
      Effect server_libraries
        (route_sent 10 bytes ack route)
        (route_tasks server_libraries route (2 ∷ []))
        (route_redis server_libraries
          (Conns.find (to_int (pos 2)) start.conns)
          (to_int (pos 2))
          (2 ∷ [])
          route
          start.redis)
        start
        (one_chat server_libraries 10 private_message start))
unfolding value_of as_number to_int eq_str
one_chat-Effect_example =
    one_chat-Effect server_libraries 10 private_message start (pos 2) (pos 8192) (2 ∷ []) (2 ∷ [])
      ann refl refl refl refl (ann-found [])

members-found :
    (GroupModel.query_group_users mysql (to_int (pos 1)) (to_int (pos 4)) []).0
    ≡ ok (pos 2 ∷ pos 3 ∷ [])
unfolding GroupModel.query_group_users GroupModel.group_users_sql to_string to_int digits atoi c_str
members-found = refl

three-found : (db : Str) → (UserModel.query_user mysql (pos 3) db).0 ≡ ok ann
unfolding UserModel.query_user UserModel.query_sql to_string digits atoi c_str
three-found db = refl

group_chat-Delivered_example :
    (let (bytes, g) =
        encrypted_message_svr server_libraries.evp
          (3 ∷ [])
          10
          (to_u32 (to_int (pos 8192)))
          start.rng in
      let ack =
        (encrypted_message_svr server_libraries.evp (2 ∷ []) 10 (to_u32 (to_int (pos 8192))) g).0 in
      Delivered server_libraries
        (local_sent (pos 2 ∷ pos 3 ∷ []) start.conns bytes ++ (10, ack) ∷ [])
        (offline_tasks server_libraries (λ id. ann) (pos 2 ∷ pos 3 ∷ []) start.conns (3 ∷ []))
        (published_for server_libraries
          (λ id. ann)
          (pos 2 ∷ pos 3 ∷ [])
          start.conns
          (3 ∷ [])
          start.redis)
        start
        (group_chat server_libraries 10 group_message start))
unfolding value_of as_number to_int eq_str Conns.find eq_int
group_chat-Delivered_example =
    group_chat-Delivered server_libraries 10 group_message start (pos 1) (pos 4) (pos 8192) (3 ∷ [])
      (2 ∷ []) (pos 2 ∷ pos 3 ∷ []) (λ id. ann) refl refl refl refl refl members-found
      (ann-found _, (tt, tt))

conns-login_example : (login server_libraries 10 login_request start).1.conns ≡ (
    if credentials_match ann (to_int (pos 2)) (codes "pw") && not (eq_str ann.state online)
    then Conns.insert (to_int (pos 2)) 10 start.conns
    else start.conns)
unfolding value_of as_number as_text to_int eq_str
conns-login_example =
    conns-login server_libraries 10 login_request start (pos 2) (pos 8192) (codes "pw") ann refl
      refl refl (ann-found [])

-- The new connection stands behind the others.
login-stored :
    (if credentials_match ann (to_int (pos 2)) (codes "pw") && not (eq_str ann.state online)
      then Conns.insert (to_int (pos 2)) 10 start.conns
      else start.conns)
    ≡ (pos 3, 30) ∷ (pos 2, 10) ∷ []
unfolding credentials_match eq_int to_int eq_str Conns.insert
login-stored = refl

start-IsMap : IsMap start.conns
start-IsMap = (tt, tt)

find-run_handler_example :
    Conns.find
      (pos 3)
      (run_handler server_libraries (some login_handler) 10 login_request start).1.conns
    ≡ some 30
unfolding Conns.find eq_int
find-run_handler_example =
    find-run_handler server_libraries login_handler 10 30 (pos 3) login_request start (λ e. cc) refl

abbrev plain_message : Str
plain_message =
    header_bytes (record { msg_length = 17; msg_type = 6; msg_id = 1; is_encrypted = 0 }) ++ 99 ∷ []

abbrev short_message : Str
short_message =
    header_bytes (record { msg_length = 17; msg_type = 6; msg_id = 1; is_encrypted = 1 }) ++ 99 ∷ []

plain-unmarked : (read_header plain_message).is_encrypted ≢ 1
unfolding read_header header_bytes
plain-unmarked = λ e. omega arith

short-marked : (read_header short_message).is_encrypted ≡ 1
unfolding read_header header_bytes
short-marked = refl

on_message-no_throw_example :
    (on_message server_libraries 10 plain_message start).0 ≢ throws json_exception
on_message-no_throw_example =
    on_message-no_throw server_libraries 10 plain_message start json_exception plain-unmarked

on_message-throws_example :
    on_message server_libraries 10 short_message start ≡ (throws runtime_error, start)
unfolding header_bytes
on_message-throws_example =
    on_message-throws server_libraries 10 short_message start (omega arith) short-marked
      (omega arith)

-- A request for a logout of user 1.
abbrev logout_request : Fields
logout_request = ("msgid", num (pos 2)) ∷ ("id", num (pos 1)) ∷ ("msgId", num (pos 7)) ∷ []

request-sealed : (encrypted_message_svr evp (2 ∷ []) 2 4096 5).0 ≢ []
unfolding encrypted_message_svr aes256_cbc_encrypt header_bytes zeros
request-sealed e = cc

on_message-encrypted_message_example :
    on_message server_libraries 10 (encrypted_message_svr evp (2 ∷ []) 2 4096 5).0 start
    ≡ run_handler server_libraries (get_handler (to_int (pos 2))) 10 logout_request (record start {
      rng =
          (aes256_cbc_decrypt evp
            (drop header_size (encrypted_message_svr evp (2 ∷ []) 2 4096 5).0)
            my_aes_key
            0).1;
    })
unfolding value_of as_number eq_str
on_message-encrypted_message_example =
    on_message-encrypted_message server_libraries 10 logout_request (2 ∷ []) (pos 2) 2 4096 5 tt
      start evp-EvpLaws (omega arith) (omega arith) request-sealed refl (λ e. cc) refl refl

abbrev pub new_friend : DbTaskArgs
new_friend = record (new_task db_task_add_friend) { userid = pos 2; friendid = pos 3 }

-- A redis library that makes no context.
abbrev without_redis : Externals Fields Str ℕ ℕ (Unit {0})
without_redis = record server_libraries {
  redis = record redis { connect_context = λ s. (false, s) };
}

abbrev with_task : Server Str ℕ ℕ
with_task = record start { tasks = new_friend ∷ [] }
