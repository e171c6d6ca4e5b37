-- ===== src/Exchange/Registration.antt =====
-- src/server/chatservice.cpp, reg, and src/client/main.cpp, readTaskHandler and doRegResponse: the
-- answer to a registration.
use my_chat_project.Prelude.{
  ℕ, ◌+◌, ◌^◌, ◌<◌, ◌≡◌, ◌≢◌, ◌∙◌, refl, arith, Bool, true, false, some, ℤ, pos, to_int, to_u32,
  to_u32-lt, to_u32-to_int, eq_int, eq_str, Str, String, [], ◌∷◌, List, ◌++◌, append_assoc, length,
}
use my_chat_project.Exec.{ok}
use my_chat_project.Externals.{
  Externals, ClientExternals, SocketLib, SqliteLib, EvpLaws, JsonLaws, JsonValue, num, txt,
  assigned, or_earlier,
}
use my_chat_project.Protocol.Header.{msg_code, reg_msg, reg_msg_ack}
use my_chat_project.Protocol.Frame.{encrypted_message_svr}
use my_chat_project.Model.{User, default_user}
use my_chat_project.Db.UserModel
use my_chat_project.Service.{Server, ack_to_client, respond, ack_json}
use my_chat_project.Service.Account.{reg, reg_answer}
use my_chat_project.Client.{Client, Now}
use my_chat_project.Client.Reliable.{on_receive_ack}
use my_chat_project.Client.Login.{do_reg_response}
use my_chat_project.Client.Receive.{receive, receive_message, receive_ack, react, acknowledges}
use my_chat_project.Exchange.Reading.{get_number-object, parse_text-dump}
use my_chat_project.Exchange.Frames.{receive-frame}
use my_chat_project.Exchange.Chat.{client_side, rng_after}

-- The object that the client makes of a registration.
abbrev pub reg_fields : Str → Str → ℕ → List (String × JsonValue)
reg_fields name password msg_id =
    ("msgid", num (pos (msg_code reg_msg)))
    ∷ ("name", txt name)
    ∷ ("password", txt password)
    ∷ ("msgId", num (pos msg_id))
    ∷ []

-- The object of a registration that went well.
abbrev pub reg_ack_fields : ℤ → ℤ → List (String × JsonValue)
reg_ack_fields id msg_id =
    ("msgid", num (pos (msg_code reg_msg_ack)))
    ∷ ("errno", num (pos 0))
    ∷ ("id", num id)
    ∷ ("msgId", num msg_id)
    ∷ []

module _ {Json G Ctx K Q : Type 0} (y : ClientExternals Json G Ctx K Q)
    (laws : JsonLaws y.json) where
  receive_message-reg :
      (name password text : Str) (msg_id : ℕ) (now : Now) (c : Client G K Q)
      → y.json.dump (y.json.object (reg_fields name password msg_id)) ≡ some text
      → receive_message y text now c ≡ (ok tt, c)
  unfolding receive_message react acknowledges msg_code eq_int to_int to_u32 assigned or_earlier
      eq_str
  receive_message-reg name password text msg_id now c e =
      let fields = reg_fields name password msg_id in
      rw
        (
          parse_text-dump y laws (y.json.object fields) text c e,
          get_number-object y laws fields "msgid" (pos 4) c refl,
          laws.has_none fields "msg" refl,
        )
        refl

  receive_message-reg_ack :
      (id msg_id : ℤ) (text : Str) (now : Now) (c : Client G K Q)
      → y.json.dump (y.json.object (reg_ack_fields id msg_id)) ≡ some text
      → receive_message y text now c ≡ (
          let acked = on_receive_ack y (to_u32 msg_id) c in
          (ok tt, record acked { rwsem = acked.rwsem + 1 }))
  unfolding receive_message receive_ack react do_reg_response acknowledges msg_code eq_int to_int
      assigned or_earlier eq_str
  receive_message-reg_ack id msg_id text now c e =
      let fields = reg_ack_fields id msg_id in
      rw
        (
          parse_text-dump y laws (y.json.object fields) text c e,
          get_number-object y laws fields "msgid" (pos 5) c refl,
          laws.has_none fields "msg" refl,
          laws.number_of fields "msgId" msg_id refl,
          laws.number_of fields "errno" (pos 0) refl,
        )
        refl

module _ {Json Db Rs G Ctx : Type 0} (x : Externals Json Db Rs G Ctx) (laws : JsonLaws x.json) where
  reg-sent :
      (conn : ℕ) (name password text ack_text : Str) (msg_id : ℕ) (done : Bool) (user : User)
      (s : Server Db Rs G)
      → (UserModel.insert x.mysql (record default_user { name = name; password = password }) s.db).0
        ≡ ok (done, user)
      → x.json.dump (
          reg_answer x done user
            (x.json.object (reg_fields name password msg_id))
            (to_int (pos msg_id)))
        ≡ some text
      → x.json.dump (ack_json x (to_int (pos msg_id))) ≡ some ack_text
      → (ack : Str) × ((reg x conn (x.json.object (reg_fields name password msg_id)) s).1.sent
          ≡ s.sent
            ++ (conn, (encrypted_message_svr x.evp text 10 (to_u32 (to_int (pos msg_id))) s.rng).0)
              ∷ (conn, ack)
              ∷ [])
  unfolding reg ack_to_client respond msg_code assigned or_earlier eq_str
  reg-sent conn name password text ack_text msg_id done user s i e a =
      let fields = reg_fields name password msg_id in
      let id32 = to_u32 (to_int (pos msg_id)) in
      let (bytes, g) = encrypted_message_svr x.evp text 10 id32 s.rng in
      let ack = (encrypted_message_svr x.evp ack_text 10 id32 g).0 in
      (
        ack,
        rw
            (
              laws.text_of fields "name" name refl,
              laws.text_of fields "password" password refl,
              laws.number_of fields "msgId" (pos msg_id) refl,
              i,
              e,
              a,
            )
            (append_assoc s.sent ((conn, bytes) ∷ []) ((conn, ack) ∷ [])),
      )

module _ {Json Db Rs G Ctx K Q : Type 0} (x : Externals Json Db Rs G Ctx) (socket : SocketLib K)
    (sqlite : SqliteLib Q) where
  -- Where the insertion of the user fails, reg sends the request back to the connection in front of
  -- the ACK, and the client that receives it, whatever bytes follow in the same recv, does nothing
  -- with it: it counts it as no answer, and nothing that is seen changes. The json and cipher
  -- libraries are the same on both sides and behave as documented; the request and the ACK can be
  -- dumped, the encryption did not fail, the frame is shorter than 2 ^ 32 bytes, and a cipher
  -- context can be had.
  pub receive-reg-refused :
      (conn : ℕ) (name password text ack_text rest : Str) (msg_id : ℕ) (user : User) (d : Ctx)
      (now : Now) (s : Server Db Rs G) (c : Client G K Q)
      → JsonLaws x.json
      → EvpLaws x.evp
      → (UserModel.insert x.mysql (record default_user { name = name; password = password }) s.db).0
        ≡ ok (false, user)
      → x.json.dump (x.json.object (reg_fields name password msg_id)) ≡ some text
      → x.json.dump (ack_json x (to_int (pos msg_id))) ≡ some ack_text
      → (encrypted_message_svr x.evp text 10 (to_u32 (to_int (pos msg_id))) s.rng).0 ≢ []
      → length (encrypted_message_svr x.evp text 10 (to_u32 (to_int (pos msg_id))) s.rng).0 < 2 ^ 32
      → (x.evp.ctx_new c.rng).0 ≡ some d
      → (bytes ack : Str) × (rng : G) × ((reg x conn
            (x.json.object (reg_fields name password msg_id))
            s).1.sent
          ≡ s.sent ++ (conn, bytes) ∷ (conn, ack) ∷ [])
        × (receive (client_side x socket sqlite) (bytes ++ rest) now c
            ≡ (ok true, record c { rng = rng }))
  unfolding reg_answer
  receive-reg-refused conn name password text ack_text rest msg_id user d now s c laws evp_laws i e
        a sealed short fresh =
      let id32 = to_u32 (to_int (pos msg_id)) in
      let bytes = (encrypted_message_svr x.evp text 10 id32 s.rng).0 in
      let rng = rng_after x bytes c.rng in
      let (ack, sent) =
        reg-sent x laws conn name password text ack_text msg_id false user s i e a in
      (
        bytes,
        ack,
        rng,
        sent,
        receive-frame (client_side x socket sqlite) text rest 10 id32 s.rng d now c evp_laws
              (omega arith) (to_u32-lt (to_int (pos msg_id))) sealed short fresh
            ∙ rw
                (receive_message-reg (client_side x socket sqlite) laws name password text msg_id
                  now (record c { rng = rng }) e)
                refl,
      )

  -- Where the insertion goes well, reg sends an answer to the connection in front of the ACK, and
  -- the client that receives it, whatever bytes follow in the same recv, does onReceiveAck with the
  -- id of its request and raises the semaphore, under the same conditions.
  pub receive-reg-accepted :
      (conn : ℕ) (name password text ack_text rest : Str) (msg_id : ℕ) (user : User) (d : Ctx)
      (now : Now) (s : Server Db Rs G) (c : Client G K Q)
      → JsonLaws x.json
      → EvpLaws x.evp
      → (UserModel.insert x.mysql (record default_user { name = name; password = password }) s.db).0
        ≡ ok (true, user)
      → x.json.dump (x.json.object (reg_ack_fields user.id (to_int (pos msg_id)))) ≡ some text
      → x.json.dump (ack_json x (to_int (pos msg_id))) ≡ some ack_text
      → (encrypted_message_svr x.evp text 10 (to_u32 (to_int (pos msg_id))) s.rng).0 ≢ []
      → length (encrypted_message_svr x.evp text 10 (to_u32 (to_int (pos msg_id))) s.rng).0 < 2 ^ 32
      → (x.evp.ctx_new c.rng).0 ≡ some d
      → (bytes ack : Str) × (rng : G) × ((reg x conn
            (x.json.object (reg_fields name password msg_id))
            s).1.sent
          ≡ s.sent ++ (conn, bytes) ∷ (conn, ack) ∷ [])
        × (receive (client_side x socket sqlite) (bytes ++ rest) now c ≡ (
            let acked =
              on_receive_ack
                (client_side x socket sqlite)
                (to_u32 (pos msg_id))
                (record c { rng = rng }) in
            (ok true, record acked { rwsem = acked.rwsem + 1 })))
  unfolding reg_answer
  receive-reg-accepted conn name password text ack_text rest msg_id user d now s c laws evp_laws i e
        a sealed short fresh =
      let id32 = to_u32 (to_int (pos msg_id)) in
      let bytes = (encrypted_message_svr x.evp text 10 id32 s.rng).0 in
      let rng = rng_after x bytes c.rng in
      let (ack, sent) = reg-sent x laws conn name password text ack_text msg_id true user s i e a in
      (
        bytes,
        ack,
        rng,
        sent,
        receive-frame (client_side x socket sqlite) text rest 10 id32 s.rng d now c evp_laws
              (omega arith) (to_u32-lt (to_int (pos msg_id))) sealed short fresh
            ∙ rw
                (
                  receive_message-reg_ack (client_side x socket sqlite) laws user.id
                      (to_int (pos msg_id)) text now (record c { rng = rng }) e,
                  to_u32-to_int (pos msg_id),
                )
                refl,
      )
