-- ===== src/Exchange/LoggedIn.antt =====
-- src/client/main.cpp, readTaskHandler, on the answer of login (src/server/chatservice.cpp): the
-- whole way of a login that is accepted.
use my_chat_project.Client.Login.{do_login_response}
use my_chat_project.Client.Screen.{user_data}
use my_chat_project.Prelude.{
  ◌≤◌, ℕ, ◌+◌, ◌≡◌, ◌≢◌, ◌∙◌, refl, arith, true, false, some, List, ℤ, pos, to_int, to_u32,
  to_u32-lt, eq_int, eq_str, map, Str, [], ◌∷◌, ◌++◌, length,
}
use my_chat_project.Exec.{ok}
use my_chat_project.Externals.{Externals, ClientExternals, SocketLib, SqliteLib, EvpLaws, JsonLaws}
use my_chat_project.Protocol.Header.{msg_code}
use my_chat_project.Protocol.Frame.{encrypted_message_svr}
use my_chat_project.Model.{User, Group, online}
use my_chat_project.Db.UserModel
use my_chat_project.Service.{Server, ack_json}
use my_chat_project.Service.Account.{answer_fields, credentials_match, login}
use my_chat_project.Client.{Client, Now, Line}
use my_chat_project.Client.Reliable.{on_receive_ack}
use my_chat_project.Client.Receive.{read_task, receive_message, receive_ack, react, acknowledges}
use my_chat_project.Exchange.Texts.{Dumped}
use my_chat_project.Exchange.Rows.{received_friend, received_group}
use my_chat_project.Exchange.Reading.{get_number-object, parse_text-dump}
use my_chat_project.Exchange.Answer.{kept, IsChat}
use my_chat_project.Exchange.Login.{do_login_response-answer}
use my_chat_project.Exchange.Frames.{receive-frame}
use my_chat_project.Exchange.Recv.{beside, read_task-append}
use my_chat_project.Exchange.Chat.{client_side, rng_after}
use my_chat_project.Exchange.Answer.{answer_head}
use my_chat_project.Exchange.Accepted.{login_request, Rows, login-sent}

module _ {Json Db Rs G Ctx G' Ctx' K Q : Type 0} (x : Externals Json Db Rs G Ctx)
    (y : ClientExternals Json G' Ctx' K Q) (laws : JsonLaws y.json) where
  receive_message-answer :
      (user : User) (msg_id : ℤ) (messages friend_texts group_texts : List Str) (text : Str)
      (now : Now) (c logged : Client G' K Q)
      → y.json.dump (y.json.object (answer_fields x user msg_id messages friend_texts group_texts))
        ≡ some text
      → do_login_response y
          (y.json.object (answer_fields x user msg_id messages friend_texts group_texts))
          (on_receive_ack y (to_u32 msg_id) c)
        ≡ (ok tt, logged)
      → receive_message y text now c ≡ (ok tt, record logged { rwsem = logged.rwsem + 1 })
  unfolding receive_message receive_ack react acknowledges msg_code eq_int to_int to_u32
  receive_message-answer user msg_id messages friend_texts group_texts text now c logged e l =
      let fields = answer_fields x user msg_id messages friend_texts group_texts in
      let (t, m, n) = answer_head x user msg_id messages friend_texts group_texts in
      rw
        (
          parse_text-dump y laws (y.json.object fields) text c e,
          get_number-object y laws fields "msgid" (pos 3) c t,
          laws.has_none fields "msg" m,
          laws.number_of fields "msgId" msg_id n,
          l,
        )
        refl

module _ {Json Db Rs G Ctx K Q : Type 0} (x : Externals Json Db Rs G Ctx) (socket : SocketLib K)
    (sqlite : SqliteLib Q) where
  -- The whole way of a login whose row has the id and the password and is not Online. login sends
  -- its answer to the connection in front of the ACK; and the client that receives it, whatever
  -- bytes follow the frame, does onReceiveAck for its request, is logged in as the user of
  -- the row, has the friends and the groups of the database, without passwords, where there are
  -- any, and otherwise those it had, shows what showCurrentUserData prints of that user and those
  -- lists and then the stored messages of the database, and raises the semaphore. The rows can be read and the stored messages are chat messages; the json and cipher
  -- libraries are the same on both sides and behave as documented; the answer and the ACK can be
  -- dumped; the encryption did not fail, the frame has at most 4096 bytes, and a cipher
  -- context can be had.
  pub receive-login :
      (conn : ℕ) (user : User) (id : ℤ) (password : Str) (msg_id : ℕ) (lines : List Line)
      (messages : List Str) (friends : List User) (groups : List Group)
      (friend_texts group_texts : List Str) (text ack_text rest : Str) (db0 : Db) (d : Ctx)
      (now : Now) (s : Server Db Rs G) (c : Client G K Q)
      → JsonLaws x.json
      → EvpLaws x.evp
      → UserModel.query_user x.mysql (to_int id) s.db ≡ (ok user, db0)
      → credentials_match user (to_int id) password ≡ true
      → eq_str user.state online ≡ false
      → Rows x (to_int id) messages friends groups friend_texts group_texts db0
      → Dumped x.json (IsChat x.json) lines messages
      → x.json.dump (
          x.json.object
            (answer_fields x user (to_int (pos msg_id)) messages friend_texts group_texts))
        ≡ some text
      → x.json.dump (ack_json x (to_int (pos msg_id))) ≡ some ack_text
      → (encrypted_message_svr x.evp text 10 (to_u32 (to_int (pos msg_id))) s.rng).0 ≢ []
      → length (encrypted_message_svr x.evp text 10 (to_u32 (to_int (pos msg_id))) s.rng).0 ≤ 4096
      → (x.evp.ctx_new c.rng).0 ≡ some d
      → (bytes ack : Str) × (rng : G) × ((login x conn
            (x.json.object (login_request id password msg_id))
            s).1.sent
          ≡ s.sent ++ (conn, bytes) ∷ (conn, ack) ∷ [])
        × (read_task (client_side x socket sqlite) (bytes ++ rest) now c ≡ (
            let acked =
              on_receive_ack
                (client_side x socket sqlite)
                (to_u32 (to_int (pos msg_id)))
                (record c { rng = rng }) in
            (
              ok true,
              record acked {
                current_user = record acked.current_user { id = to_int user.id; name = user.name };
                friends = kept acked.friends (map received_friend friends);
                groups = kept acked.groups (map received_group groups);
                shown =
                    (acked.shown
                      ++ user_data
                          (record acked.current_user { id = to_int user.id; name = user.name })
                          (kept acked.friends (map received_friend friends))
                          (kept acked.groups (map received_group groups)))
                    ++ lines;
                login_success = true;
                rwsem = acked.rwsem + 1;
              },
            )))
  receive-login conn user id password msg_id lines messages friends groups friend_texts group_texts
        text ack_text rest db0 d now s c laws evp_laws q right down r dm e a sealed short fresh =
      let y = client_side x socket sqlite in
      let id32 = to_u32 (to_int (pos msg_id)) in
      let bytes = (encrypted_message_svr x.evp text 10 id32 s.rng).0 in
      let rng = rng_after x bytes c.rng in
      let acked = on_receive_ack y id32 (record c { rng = rng }) in
      let (ack, sent) =
        login-sent x conn user id password msg_id messages friends groups friend_texts group_texts
          text ack_text db0 s laws q right down r e a in
      let read =
        do_login_response-answer x y user (to_int (pos msg_id)) lines friends groups messages
          friend_texts group_texts acked s s s s laws refl dm (r.friends_dumped s)
          (r.groups_dumped s) in
      (
        bytes,
        ack,
        rng,
        sent,
        read_task-append y bytes rest now c short
            ∙ receive-frame y text (beside bytes rest) 10 id32 s.rng d now c evp_laws (omega arith)
                (to_u32-lt (to_int (pos msg_id))) sealed (omega (arith, short)) fresh
            ∙ rw
                (receive_message-answer x y laws user (to_int (pos msg_id)) messages friend_texts
                  group_texts text now (record c { rng = rng }) _ e read)
                refl,
      )
