-- ===== src/Exchange/Chat.antt =====
-- src/client/main.cpp, chat; src/server/chatserver.cpp, onMessage; src/server/chatservice.cpp,
-- oneChat; src/client/main.cpp, readTaskHandler: a private message from one client to another.
use my_chat_project.Prelude.{
  ◌≤◌, ℕ, ◌^◌, ◌<◌, ◌≡◌, ◌≢◌, ◌∙◌, ap, refl, arith, true, some, ℤ, pos, to_int, to_u32,
  to_u32-to_int, eq_int, eq_str, Str, String, [], ◌∷◌, List, ◌++◌, append_assoc, length, drop,
}
use my_chat_project.Exec.{pure, ◌>>◌}
use my_chat_project.Externals.{
  Externals, ClientExternals, SocketLib, SqliteLib, EvpLaws, JsonLaws, JsonValue, num, txt,
  assigned, or_earlier,
}
use my_chat_project.Protocol.Header.{msg_code, one_chat_msg, header_size}
use my_chat_project.Protocol.Cipher.{aes256_cbc_decrypt, my_aes_key}
use my_chat_project.Protocol.Frame.{encrypted_message_svr}
use my_chat_project.Service.{Server, ack_to_client, respond, ack_json}
use my_chat_project.Service.Conns
use my_chat_project.Service.Chat.{one_chat, chat_route}
use my_chat_project.Service.Dispatch.{get_handler, run_handler}
use my_chat_project.ChatServer.{on_message}
use my_chat_project.ChatServer.Requests.{on_message-encrypted_message}
use my_chat_project.Client.{Client, Now, chat_line}
use my_chat_project.Client.Reliable.{on_receive_ack}
use my_chat_project.Client.Receive.{
  read_task, receive_message, receive_ack, receive_chat, react, acknowledges, store,
}
use my_chat_project.Exchange.Reading.{get_number-object, text_or-object, parse_text-dump}
use my_chat_project.Exchange.Frames.{receive-frame}
use my_chat_project.Exchange.Recv.{beside, read_task-append}

-- The object that the client's chat command makes.
abbrev pub chat_fields : ℤ → Str → ℤ → Str → Str → ℕ → List (String × JsonValue)
chat_fields id name toid msg time msg_id =
    ("msgid", num (pos (msg_code one_chat_msg)))
    ∷ ("id", num id)
    ∷ ("name", txt name)
    ∷ ("toid", num toid)
    ∷ ("msg", txt msg)
    ∷ ("time", txt time)
    ∷ ("msgId", num (pos msg_id))
    ∷ []

pub to_u32-small : (n : ℕ) → n < 2 ^ 32 → to_u32 (pos n) ≡ n
unfolding to_u32
to_u32-small n w = omega arith

module _ {Json G Ctx K Q : Type 0} (y : ClientExternals Json G Ctx K Q)
    (laws : JsonLaws y.json) where
  pub receive_message-chat :
      (id toid : ℤ) (name msg time text : Str) (msg_id : ℕ) (now : Now) (c : Client G K Q)
      → y.json.dump (y.json.object (chat_fields id name toid msg time msg_id)) ≡ some text
      → receive_message y text now c ≡ (
          let acked = on_receive_ack y (to_u32 (pos msg_id)) c in
          store y msg
            (to_int id)
            (to_int toid)
            6
            now
            (record acked { shown = acked.shown ++ chat_line time name msg ∷ [] }))
  unfolding receive_message receive_ack receive_chat react acknowledges msg_code eq_int to_int
      assigned or_earlier eq_str
  receive_message-chat id toid name msg time text msg_id now c e =
      let fields = chat_fields id name toid msg time msg_id in
      rw
        (
          parse_text-dump y laws (y.json.object fields) text c e,
          get_number-object y laws fields "msgid" (pos 6) c refl,
          text_or-object y laws fields "msg" msg [] c refl,
          laws.number_of fields "msgId" (pos msg_id) refl,
          laws.text_of fields "time" time refl,
          laws.text_of fields "name" name refl,
          laws.text_of fields "msg" msg refl,
          laws.number_of fields "id" id refl,
          laws.number_of fields "toid" toid refl,
        )
        refl

module _ {Json Db Rs G Ctx : Type 0} (x : Externals Json Db Rs G Ctx) (laws : JsonLaws x.json) where
  one_chat-sent :
      (conn peer : ℕ) (id toid : ℤ) (name msg time text ack_text : Str) (msg_id : ℕ)
      (s : Server Db Rs G)
      → x.json.dump (x.json.object (chat_fields id name toid msg time msg_id)) ≡ some text
      → x.json.dump (ack_json x (to_int (pos msg_id))) ≡ some ack_text
      → Conns.find (to_int toid) s.conns ≡ some peer
      → (ack : Str) × ((one_chat x conn
            (x.json.object (chat_fields id name toid msg time msg_id))
            s).1.sent
          ≡ s.sent
            ++ (peer, (encrypted_message_svr x.evp text 10 (to_u32 (to_int (pos msg_id))) s.rng).0)
              ∷ (conn, ack)
              ∷ [])
  unfolding one_chat chat_route ack_to_client respond msg_code assigned or_earlier eq_str
  one_chat-sent conn peer id toid name msg time text ack_text msg_id s e a f =
      let fields = chat_fields id name toid msg time msg_id in
      let id32 = to_u32 (to_int (pos msg_id)) in
      let (bytes, g) = encrypted_message_svr x.evp text 10 id32 s.rng in
      let ack = (encrypted_message_svr x.evp ack_text 10 id32 g).0 in
      (
        ack,
        rw
            (
              laws.number_of fields "toid" toid refl,
              laws.number_of fields "msgId" (pos msg_id) refl,
              e,
              f,
              a,
            )
            (append_assoc s.sent ((peer, bytes) ∷ []) ((conn, ack) ∷ [])),
      )

-- The cipher library's state after a frame has been decrypted.
abbrev pub rng_after : {Json Db Rs G Ctx : Type 0} → Externals Json Db Rs G Ctx → Str → G → G
rng_after x bytes g = (aes256_cbc_decrypt x.evp (drop header_size bytes) my_aes_key g).1

module _ {Json Db Rs G Ctx K Q : Type 0} (x : Externals Json Db Rs G Ctx) (socket : SocketLib K)
    (sqlite : SqliteLib Q) where
  -- A client with the libraries of the server.
  abbrev pub client_side : ClientExternals Json G Ctx K Q
  client_side = record { json = x.json; evp = x.evp; socket = socket; sqlite = sqlite }

  -- A client's framed chat command, for a user who is on a connection of this server, makes
  -- onMessage send one frame to that connection and one to the sender. The receiver, whatever bytes
  -- follow the frame, shows the line, tries to store the message, and before that does onReceiveAck
  -- with the id that the sender gave it. The json and cipher libraries are the same on both sides
  -- and behave as documented; the object and that of the ACK can be dumped, neither frame of the
  -- message failed to encrypt, the second has at most 4096 bytes, the id is a uint32_t, and
  -- cipher contexts can be had.
  pub receive-on_message-chat :
      (conn peer : ℕ) (id toid : ℤ) (name msg time text ack_text rest : Str) (msg_id : ℕ) (g : G)
      (d d' : Ctx) (now : Now) (s : Server Db Rs G) (c : Client G K Q)
      → JsonLaws x.json
      → EvpLaws x.evp
      → msg_id < 2 ^ 32
      → x.json.dump (x.json.object (chat_fields id name toid msg time msg_id)) ≡ some text
      → text ≢ []
      → x.json.dump (ack_json x (to_int (pos msg_id))) ≡ some ack_text
      → (encrypted_message_svr x.evp text 6 msg_id g).0 ≢ []
      → (x.evp.ctx_new s.rng).0 ≡ some d
      → Conns.find (to_int toid) s.conns ≡ some peer
      → (encrypted_message_svr x.evp text 10 msg_id
          (rng_after x (encrypted_message_svr x.evp text 6 msg_id g).0 s.rng)).0
        ≢ []
      → length
          (encrypted_message_svr x.evp text 10 msg_id
            (rng_after x (encrypted_message_svr x.evp text 6 msg_id g).0 s.rng)).0
        ≤ 4096
      → (x.evp.ctx_new c.rng).0 ≡ some d'
      → (bytes ack : Str) × (rng : G) × ((on_message x conn
            (encrypted_message_svr x.evp text 6 msg_id g).0
            s).1.sent
          ≡ s.sent ++ (peer, bytes) ∷ (conn, ack) ∷ [])
        × (read_task client_side (bytes ++ rest) now c
            ≡ (store client_side msg (to_int id) (to_int toid) 6 now >> pure true) (
                let acked = on_receive_ack client_side msg_id (record c { rng = rng }) in
                record acked { shown = acked.shown ++ chat_line time name msg ∷ [] }))
  unfolding get_handler run_handler msg_code eq_int to_int assigned or_earlier eq_str
  receive-on_message-chat conn peer id toid name msg time text ack_text rest msg_id g d d' now s c
        laws evp_laws w e ne a sealed fresh f sealed' short fresh' =
      let fields = chat_fields id name toid msg time msg_id in
      let frame = (encrypted_message_svr x.evp text 6 msg_id g).0 in
      let s1 = record s { rng = rng_after x frame s.rng } in
      let bytes = (encrypted_message_svr x.evp text 10 msg_id s1.rng).0 in
      let same : to_u32 (to_int (pos msg_id)) ≡ msg_id =
        to_u32-to_int (pos msg_id) ∙ to_u32-small msg_id w in
      let (ack, sent) =
        one_chat-sent x laws conn peer id toid name msg time text ack_text msg_id s1 e a f in
      let rng = rng_after x bytes c.rng in
      let arrived =
        on_message-encrypted_message x conn (x.json.object fields) text (pos 6) 6 msg_id g d s
          evp_laws (omega arith) w sealed fresh ne (laws.parse_dump (x.json.object fields) text e)
          (laws.number_of fields "msgid" (pos 6) refl) in
      (
        bytes,
        ack,
        rng,
        ap (λ r. r.1.sent) arrived
            ∙ sent
            ∙ ap
                (λ n.
                  s.sent
                  ++ (peer, (encrypted_message_svr x.evp text 10 n s1.rng).0) ∷ (conn, ack) ∷ [])
                same,
        read_task-append client_side bytes rest now c short
            ∙ receive-frame client_side text (beside bytes rest) 10 msg_id s1.rng d' now c evp_laws
                (omega arith) w sealed' (omega (arith, short)) fresh'
            ∙ rw
                (
                  receive_message-chat client_side laws id toid name msg time text msg_id now
                      (record c { rng = rng }) e,
                  to_u32-small msg_id w,
                )
                refl,
      )
