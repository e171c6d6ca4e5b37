-- ===== src/Service/Account.antt =====
-- src/server/chatservice.cpp: login, reg, logout, clientCloseException and reset.
use my_chat_project.Prelude.{
  ℕ, Bool, true, false, ◌&&◌, Option, none, some, List, [], ◌∷◌, ◌++◌, ℤ, pos, minus_one, eq_int,
  eq_str, Str, String, to_string, if◌then◌else◌,
}
use my_chat_project.Exec.{Exec, pure, gets, ◌>>=◌, ◌>>◌}
use my_chat_project.Externals.{Externals, JsonValue, num, txt, txts}
use my_chat_project.Protocol.Header.{login_msg_ack, reg_msg_ack}
use my_chat_project.Model.{User, GroupUser, Group, default_user, online, offline}
use my_chat_project.Db.UserModel
use my_chat_project.Db.FriendModel
use my_chat_project.Db.GroupModel
use my_chat_project.Db.OfflineMsgModel
use my_chat_project.Redis
use my_chat_project.Service.Conns
use my_chat_project.Service.Texts.{already_online, wrong_password}
use my_chat_project.Service.{
  Server, push_task, set_conns, on_db, on_redis, get_int, get_text, dump, respond, code_field,
  ack_to_client, state_task,
}

-- vec.push_back(js.dump()) for each element.
unfoldable pub dump_all :
    {Json Db Rs G Ctx A : Type 0} (x : Externals Json Db Rs G Ctx)
    → (A → Exec (Server Db Rs G) Json)
    → List A
    → Exec (Server Db Rs G) (List Str)
dump_all x f [] = pure []
dump_all x f (a ∷ items) = do
  js ← f a
  text ← dump x js
  rest ← dump_all x f items
  pure (text ∷ rest)

-- A field that is set only if the vector is not empty.
abbrev pub texts_field : String → List Str → List (String × JsonValue)
texts_field key [] = []
texts_field key (t ∷ ts) = (key, txts (t ∷ ts)) ∷ []

unfoldable pub is_empty : List Str → Bool
is_empty [] = true
is_empty (t ∷ ts) = false

-- The fields of a friend, a member and a group in the answer.
abbrev pub friend_fields : User → List (String × JsonValue)
friend_fields user = ("id", num user.id) ∷ ("name", txt user.name) ∷ ("state", txt user.state) ∷ []

abbrev pub member_fields : GroupUser → List (String × JsonValue)
member_fields member =
    ("id", num member.user.id)
    ∷ ("name", txt member.user.name)
    ∷ ("state", txt member.user.state)
    ∷ ("role", txt member.role)
    ∷ []

abbrev pub group_fields : Group → List Str → List (String × JsonValue)
group_fields group users =
    ("id", num group.id)
    ∷ ("groupname", txt group.name)
    ∷ ("groupdesc", txt group.desc)
    ∷ ("users", txts users)
    ∷ []

-- The test of login: the row is there and has the password.
unfoldable pub credentials_match : User → ℤ → Str → Bool
credentials_match user id pwd = eq_int user.id id && eq_str user.password pwd

-- The default id, -1, where no user has the connection.
unfoldable pub closed_user : Option ℤ → ℤ
closed_user none = minus_one
closed_user (some id) = id

unfoldable pub erase_user : Option ℤ → Conns.ConnMap → Conns.ConnMap
erase_user none m = m
erase_user (some id) m = Conns.erase id m

module _ {Json Db Rs G Ctx : Type 0} (x : Externals Json Db Rs G Ctx) where
  unfoldable pub friend_json : User → Exec (Server Db Rs G) Json
  friend_json user = pure (x.json.object (friend_fields user))

  unfoldable pub member_json : GroupUser → Exec (Server Db Rs G) Json
  member_json member = pure (x.json.object (member_fields member))

  unfoldable pub group_json : Group → Exec (Server Db Rs G) Json
  group_json group = do
    users ← dump_all x member_json group.users
    pure (x.json.object (group_fields group users))

  -- The offline messages of a user, deleted once read.
  unfoldable pub take_offline : ℤ → Exec (Server Db Rs G) (List Str)
  take_offline id = do
    messages ← on_db (OfflineMsgModel.query_messages x.mysql id)
    (if is_empty messages then pure tt else on_db (OfflineMsgModel.remove x.mysql id))
    pure messages

  -- The fields of a successful login: the base fields, and what is there of the messages, the
  -- friends and the groups.
  abbrev pub answer_fields : User → ℤ → List Str → List Str → List Str → List (String × JsonValue)
  answer_fields user msg_id messages friend_texts group_texts =
      ("msgid", code_field x login_msg_ack)
      ∷ ("errno", num (pos 0))
      ∷ ("id", num user.id)
      ∷ ("name", txt user.name)
      ∷ ("msgId", num msg_id)
      ∷ (texts_field "offlinemsg" messages
          ++ (texts_field "friends" friend_texts ++ texts_field "groups" group_texts))

  unfoldable pub login_fields : User → ℤ → ℤ → Exec (Server Db Rs G) (List (String × JsonValue))
  login_fields user id msg_id = do
    messages ← take_offline id
    friends ← on_db (FriendModel.query_friends x.mysql id)
    friend_texts ← dump_all x friend_json friends
    groups ← on_db (GroupModel.query_groups x.mysql id)
    group_texts ← dump_all x group_json groups
    pure (answer_fields user msg_id messages friend_texts group_texts)

  -- The branch of login that succeeds, after the connection has been stored.
  unfoldable pub complete_login : ℕ → User → ℤ → ℤ → Exec (Server Db Rs G) (Unit {0})
  complete_login conn user id msg_id = do
    on_redis (Redis.subscribe x.redis id)
    on_redis (Redis.set x.redis (to_string id) (to_string (pos 0)) 120)
    push_task (state_task x user.id online)
    fields ← login_fields user id msg_id
    respond x conn (x.json.object fields) msg_id

  -- The branch of login that succeeds.
  unfoldable pub accept_login : ℕ → User → ℤ → ℤ → Exec (Server Db Rs G) (Unit {0})
  accept_login conn user id msg_id = do
    set_conns (Conns.insert id conn)
    complete_login conn user id msg_id

  -- The two branches that refuse.
  unfoldable pub refuse_login : ℕ → ℕ → Str → ℤ → Exec (Server Db Rs G) (Unit {0})
  refuse_login conn errno errmsg msg_id =
      respond x conn
        (x.json.object (
          ("msgid", code_field x login_msg_ack)
          ∷ ("errno", num (pos errno))
          ∷ ("errmsg", txt errmsg)
          ∷ ("msgId", num msg_id)
          ∷ []))
        msg_id

  -- ChatService::login
  unfoldable pub login : ℕ → Json → Exec (Server Db Rs G) (Unit {0})
  login conn js = do
    id ← get_int x js "id"
    pwd ← get_text x js "password"
    msg_id ← get_int x js "msgId"
    user ← on_db (UserModel.query_user x.mysql id)
    (if credentials_match user id pwd
        then if eq_str user.state online
          then refuse_login conn 2 already_online msg_id
          else accept_login conn user id msg_id
        else refuse_login conn 1 wrong_password msg_id)
    ack_to_client x conn msg_id

  -- The answer to a registration. Where it failed the code makes a response with errno 1 and sends
  -- the request `js` itself.
  unfoldable pub reg_answer : Bool → User → Json → ℤ → Json
  reg_answer true user js msg_id = x.json.object (
      ("msgid", code_field x reg_msg_ack)
      ∷ ("errno", num (pos 0))
      ∷ ("id", num user.id)
      ∷ ("msgId", num msg_id)
      ∷ [])
  reg_answer false user js msg_id = js

  -- ChatService::reg
  unfoldable pub reg : ℕ → Json → Exec (Server Db Rs G) (Unit {0})
  reg conn js = do
    name ← get_text x js "name"
    pwd ← get_text x js "password"
    msg_id ← get_int x js "msgId"
    inserted ←
        on_db (UserModel.insert x.mysql (record default_user { name = name; password = pwd }))
    respond x conn (reg_answer inserted.0 inserted.1 js msg_id) msg_id
    ack_to_client x conn msg_id

  -- ChatService::logout
  unfoldable pub logout : ℕ → Json → Exec (Server Db Rs G) (Unit {0})
  logout conn js = do
    userid ← get_int x js "id"
    msg_id ← get_int x js "msgId"
    set_conns (Conns.erase userid)
    on_redis (Redis.unsubscribe x.redis userid)
    on_redis (Redis.delete x.redis (to_string userid))
    push_task (state_task x userid offline)
    ack_to_client x conn msg_id

  -- ChatService::clientCloseException
  unfoldable pub client_close_exception : ℕ → Exec (Server Db Rs G) (Unit {0})
  client_close_exception conn = do
    found ← gets (λ s. Conns.user_of conn s.conns)
    set_conns (erase_user found)
    on_redis (Redis.unsubscribe x.redis (closed_user found))
    on_redis (Redis.delete x.redis (to_string (closed_user found)))
    if eq_int (closed_user found) minus_one
        then pure tt
        else push_task (state_task x (closed_user found) offline)

  -- ChatService::reset
  unfoldable pub reset : Exec (Server Db Rs G) (Unit {0})
  reset = on_db (UserModel.reset_state x.mysql)
