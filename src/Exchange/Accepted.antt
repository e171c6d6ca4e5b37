-- ===== src/Exchange/Accepted.antt =====
-- src/server/chatservice.cpp, login, where it accepts, and src/client/main.cpp, readTaskHandler and
-- doLoginResponse: from the request to the client that is logged in.
use my_chat_project.Prelude.{to_string}
use my_chat_project.Redis
use my_chat_project.DbTask
use my_chat_project.Service.{state_task}
use my_chat_project.Service.Conns
use my_chat_project.Prelude.{
  ℕ, ◌≡◌, ap, refl, true, false, some, List, ℤ, pos, to_int, to_u32, eq_str, Str, String, [], ◌∷◌,
  ◌++◌, append_assoc, if◌then◌else◌,
}
use my_chat_project.Exec.{Outcome, ok, pure, ◌>>◌}
use my_chat_project.Externals.{Externals, JsonLaws, JsonValue, num, txt, assigned, or_earlier}
use my_chat_project.Protocol.Header.{msg_code, login_msg}
use my_chat_project.Protocol.Frame.{encrypted_message_svr}
use my_chat_project.Model.{User, Group, online}
use my_chat_project.Db.UserModel
use my_chat_project.Db.FriendModel
use my_chat_project.Db.GroupModel
use my_chat_project.Db.OfflineMsgModel
use my_chat_project.Service.{Server, ack_to_client, respond, ack_json}
use my_chat_project.Service.Account.{
  dump_all, friend_json, group_json, answer_fields, is_empty, take_offline, credentials_match,
  login_fields, complete_login, accept_login, login,
}

-- The object that the client makes of a login.
abbrev pub login_request : ℤ → Str → ℕ → List (String × JsonValue)
login_request id password msg_id =
    ("msgid", num (pos (msg_code login_msg)))
    ∷ ("id", num id)
    ∷ ("password", txt password)
    ∷ ("msgId", num (pos msg_id))
    ∷ []

module _ {Json Db Rs G Ctx : Type 0} (x : Externals Json Db Rs G Ctx) where
  -- What the database gives for a login: the stored messages, which are removed if there are any, the
  -- friends and the groups, one after the other, and the texts that are made of them.
  pub record Rows (id : ℤ) (messages : List Str) (friends : List User) (groups : List Group)
      (friend_texts group_texts : List Str) (db : Db) : Type 0 where
    pub db1 : Db
    pub db2 : Db
    pub db3 : Db
    pub db4 : Db
    pub read : OfflineMsgModel.query_messages x.mysql id db ≡ (ok messages, db1)
    pub removed :
        (if is_empty messages then pure tt else OfflineMsgModel.remove x.mysql id) db1
        ≡ (ok tt, db2)
    pub friends_read : FriendModel.query_friends x.mysql id db2 ≡ (ok friends, db3)
    pub groups_read : GroupModel.query_groups x.mysql id db3 ≡ (ok groups, db4)
    pub friends_dumped :
        (s : Server Db Rs G) → dump_all x (friend_json x) friends s ≡ (ok friend_texts, s)
    pub groups_dumped :
        (s : Server Db Rs G) → dump_all x (group_json x) groups s ≡ (ok group_texts, s)

  take_offline-read :
      (id : ℤ) (messages : List Str) (db1 db2 : Db) (s : Server Db Rs G)
      → OfflineMsgModel.query_messages x.mysql id s.db ≡ (ok messages, db1)
      → (if is_empty messages then pure tt else OfflineMsgModel.remove x.mysql id) db1
        ≡ (ok tt, db2)
      → take_offline x id s ≡ (ok messages, record s { db = db2 })
  unfolding take_offline is_empty
  take_offline-read id [] db1 db2 s e r =
      rw (e) (ap (λ (p : Outcome (Unit {0}) × Db). (ok [], record s { db = p.1 })) r)
  take_offline-read id (t ∷ messages) db1 db2 s e r = rw (e, r) refl

  login_fields-Rows :
      (user : User) (id msg_id : ℤ) (messages : List Str) (friends : List User)
      (groups : List Group) (friend_texts group_texts : List Str) (s : Server Db Rs G)
      → (r : Rows id messages friends groups friend_texts group_texts s.db)
      → login_fields x user id msg_id s ≡ (
        ok (answer_fields x user msg_id messages friend_texts group_texts),
        record s { db = r.db4 },
      )
  unfolding login_fields
  login_fields-Rows user id msg_id messages friends groups friend_texts group_texts s r =
      rw
        (
          take_offline-read id messages r.db1 r.db2 s r.read r.removed,
          r.friends_read,
          r.friends_dumped (record s { db = r.db3 }),
          r.groups_read,
          r.groups_dumped (record s { db = r.db4 }),
        )
        refl

  complete_login-sent :
      (conn : ℕ) (user : User) (id msg_id : ℤ) (messages : List Str) (friends : List User)
      (groups : List Group) (friend_texts group_texts : List Str) (text ack_text : Str)
      (s : Server Db Rs G)
      → Rows id messages friends groups friend_texts group_texts s.db
      → x.json.dump (x.json.object (answer_fields x user msg_id messages friend_texts group_texts))
        ≡ some text
      → x.json.dump (ack_json x msg_id) ≡ some ack_text
      → (ack : Str) × ((complete_login x conn user id msg_id >> ack_to_client x conn msg_id)
            s).1.sent
          ≡ s.sent
            ++ (conn, (encrypted_message_svr x.evp text 10 (to_u32 msg_id) s.rng).0)
              ∷ (conn, ack)
              ∷ []
  unfolding complete_login respond ack_to_client msg_code
  complete_login-sent conn user id msg_id messages friends groups friend_texts group_texts text
        ack_text s r e a =
      let (bytes, g) = encrypted_message_svr x.evp text 10 (to_u32 msg_id) s.rng in
      let ack = (encrypted_message_svr x.evp ack_text 10 (to_u32 msg_id) g).0 in
      let rs1 = (Redis.subscribe x.redis id s.redis).1 in
      let rs2 = (Redis.set x.redis (to_string id) (to_string (pos 0)) 120 rs1).1 in
      let s1 = record s {
        redis = rs2;
        tasks = DbTask.push (state_task x user.id online) s.tasks;
      } in
      (
        ack,
        rw
            (
              login_fields-Rows user id msg_id messages friends groups friend_texts group_texts s1
                  r,
              e,
              a,
            )
            (append_assoc s.sent ((conn, bytes) ∷ []) ((conn, ack) ∷ [])),
      )

  pub login-sent :
      (conn : ℕ) (user : User) (id : ℤ) (password : Str) (msg_id : ℕ) (messages : List Str)
      (friends : List User) (groups : List Group) (friend_texts group_texts : List Str)
      (text ack_text : Str) (db0 : Db) (s : Server Db Rs G)
      → JsonLaws x.json
      → UserModel.query_user x.mysql (to_int id) s.db ≡ (ok user, db0)
      → credentials_match user (to_int id) password ≡ true
      → eq_str user.state online ≡ false
      → Rows (to_int id) messages friends groups friend_texts group_texts db0
      → x.json.dump (
          x.json.object
            (answer_fields x user (to_int (pos msg_id)) messages friend_texts group_texts))
        ≡ some text
      → x.json.dump (ack_json x (to_int (pos msg_id))) ≡ some ack_text
      → (ack : Str) × ((login x conn (x.json.object (login_request id password msg_id)) s).1.sent
          ≡ s.sent
            ++ (conn, (encrypted_message_svr x.evp text 10 (to_u32 (to_int (pos msg_id))) s.rng).0)
              ∷ (conn, ack)
              ∷ [])
  unfolding login accept_login assigned or_earlier eq_str
  login-sent conn user id password msg_id messages friends groups friend_texts group_texts text
        ack_text db0 s laws q right down r e a =
      let fields = login_request id password msg_id in
      let s0 = record s { db = db0; conns = Conns.insert (to_int id) conn s.conns } in
      let (ack, sent) =
        complete_login-sent conn user (to_int id) (to_int (pos msg_id)) messages friends groups
          friend_texts group_texts text ack_text s0 r e a in
      (
        ack,
        rw
            (
              laws.number_of fields "id" id refl,
              laws.text_of fields "password" password refl,
              laws.number_of fields "msgId" (pos msg_id) refl,
              q,
              right,
              down,
            )
            sent,
      )
