-- ===== src/Exchange/Group.antt =====
-- src/server/chatservice.cpp, groupChat, and src/client/main.cpp, readTaskHandler: a group message on its
-- way to members who are on this server.
use my_chat_project.Prelude.{
  ◌≤◌, ℕ, ◌^◌, ◌<◌, ◌≡◌, ◌≢◌, ◌∙◌, ap, sym, refl, arith, true, some, ℤ, pos, to_int, to_u32,
  to_u32-to_int, eq_int, eq_str, Str, String, List, [], ◌∷◌, ◌++◌, append_assoc, append-nil, length,
}
use my_chat_project.Exec.{ok, pure, for_each, ◌>>◌}
use my_chat_project.Externals.{
  Externals, ClientExternals, SocketLib, SqliteLib, EvpLaws, JsonLaws, JsonValue, num, txt,
  assigned, or_earlier,
}
use my_chat_project.Protocol.Header.{msg_code, group_chat_msg}
use my_chat_project.Protocol.Frame.{encrypted_message_svr}
use my_chat_project.Db.GroupModel
use my_chat_project.Service.{Server, ack_to_client, respond, ack_json}
use my_chat_project.Service.Conns
use my_chat_project.Service.Conns.{ConnMap}
use my_chat_project.Service.Chat.{deliver, deliver_to, group_chat}
use my_chat_project.Client.{Client, Now, group_line}
use my_chat_project.Client.Reliable.{on_receive_ack}
use my_chat_project.Client.Receive.{
  read_task, receive_message, receive_ack, receive_group_chat, react, acknowledges, store,
}
use my_chat_project.Exchange.Reading.{get_number-object, text_or-object, parse_text-dump}
use my_chat_project.Exchange.Frames.{receive-frame}
use my_chat_project.Exchange.Recv.{beside, read_task-append}
use my_chat_project.Exchange.Chat.{client_side, rng_after, to_u32-small}

-- The object that the client's groupchat command makes.
abbrev pub group_chat_fields : ℤ → Str → ℤ → Str → Str → ℕ → List (String × JsonValue)
group_chat_fields id name groupid msg time msg_id =
    ("msgid", num (pos (msg_code group_chat_msg)))
    ∷ ("id", num id)
    ∷ ("name", txt name)
    ∷ ("groupid", num groupid)
    ∷ ("msg", txt msg)
    ∷ ("time", txt time)
    ∷ ("msgId", num (pos msg_id))
    ∷ []

-- Each of these users is on the connection beside it.
abbrev AllHere : ConnMap → List ℤ → List ℕ → Type 0
AllHere m [] [] = Unit {0}
AllHere m (id ∷ ids) (peer ∷ peers) = (Conns.find id m ≡ some peer) × AllHere m ids peers
AllHere m _ _ = ⊥

-- The same bytes for each connection.
abbrev to_all : Str → List ℕ → List (ℕ × Str)
to_all bytes [] = []
to_all bytes (peer ∷ peers) = (peer, bytes) ∷ to_all bytes peers

module _ {Json G Ctx K Q : Type 0} (y : ClientExternals Json G Ctx K Q)
    (laws : JsonLaws y.json) where
  receive_message-group_chat :
      (id groupid : ℤ) (name msg time text : Str) (msg_id : ℕ) (now : Now) (c : Client G K Q)
      → y.json.dump (y.json.object (group_chat_fields id name groupid msg time msg_id)) ≡ some text
      → receive_message y text now c ≡ (
          let acked = on_receive_ack y (to_u32 (pos msg_id)) c in
          store y msg
            (to_int id)
            (to_int groupid)
            10
            now
            (record acked { shown = acked.shown ++ group_line time name msg ∷ [] }))
  unfolding receive_message receive_ack receive_group_chat react acknowledges msg_code eq_int to_int
      assigned or_earlier eq_str
  receive_message-group_chat id groupid name msg time text msg_id now c e =
      let fields = group_chat_fields id name groupid msg time msg_id in
      rw
        (
          parse_text-dump y laws (y.json.object fields) text c e,
          get_number-object y laws fields "msgid" (pos 10) c refl,
          text_or-object y laws fields "msg" msg [] c refl,
          laws.number_of fields "msgId" (pos msg_id) refl,
          laws.text_of fields "time" time refl,
          laws.text_of fields "name" name refl,
          laws.text_of fields "msg" msg refl,
          laws.number_of fields "id" id refl,
          laws.number_of fields "groupid" groupid refl,
        )
        refl

module _ {Json Db Rs G Ctx : Type 0} (x : Externals Json Db Rs G Ctx) where
  deliver-here :
      (text bytes : Str) (ids : List ℤ) (peers : List ℕ) (s : Server Db Rs G)
      → AllHere s.conns ids peers
      → for_each ids (deliver x text bytes) s
        ≡ (ok tt, record s { sent = s.sent ++ to_all bytes peers })
  unfolding for_each deliver deliver_to
  deliver-here text bytes [] [] s h =
      ap (λ sent. (ok tt, record s { sent = sent })) (sym (append-nil s.sent))
  deliver-here text bytes [] (peer ∷ peers) s h = absurd h
  deliver-here text bytes (id ∷ ids) [] s h = absurd h
  deliver-here text bytes (id ∷ ids) (peer ∷ peers) s (f, h) =
      let s1 = record s { sent = s.sent ++ (peer, bytes) ∷ [] } in
      rw (f) (
        deliver-here text bytes ids peers s1 h
        ∙ ap (λ sent. (ok tt, record s { sent = sent }))
            (append_assoc s.sent ((peer, bytes) ∷ []) (to_all bytes peers)))

module _ {Json Db Rs G Ctx : Type 0} (x : Externals Json Db Rs G Ctx) (laws : JsonLaws x.json) where
  group_chat-sent :
      (conn : ℕ) (ids : List ℤ) (peers : List ℕ) (id groupid : ℤ)
      (name msg time text ack_text : Str) (msg_id : ℕ) (db : Db) (s : Server Db Rs G)
      → x.json.dump (x.json.object (group_chat_fields id name groupid msg time msg_id)) ≡ some text
      → x.json.dump (ack_json x (to_int (pos msg_id))) ≡ some ack_text
      → GroupModel.query_group_users x.mysql (to_int id) (to_int groupid) s.db ≡ (ok ids, db)
      → AllHere s.conns ids peers
      → (ack : Str) × ((group_chat x conn
            (x.json.object (group_chat_fields id name groupid msg time msg_id))
            s).1.sent
          ≡ s.sent
            ++ (to_all
                  (encrypted_message_svr x.evp text 10 (to_u32 (to_int (pos msg_id))) s.rng).0
                  peers
                ++ (conn, ack) ∷ []))
  unfolding group_chat ack_to_client respond msg_code assigned or_earlier eq_str
  group_chat-sent conn ids peers id groupid name msg time text ack_text msg_id db s e a q h =
      let fields = group_chat_fields id name groupid msg time msg_id in
      let id32 = to_u32 (to_int (pos msg_id)) in
      let (bytes, g) = encrypted_message_svr x.evp text 10 id32 s.rng in
      let ack = (encrypted_message_svr x.evp ack_text 10 id32 g).0 in
      (
        ack,
        rw
            (
              laws.number_of fields "id" id refl,
              laws.number_of fields "groupid" groupid refl,
              laws.number_of fields "msgId" (pos msg_id) refl,
              e,
              q,
              deliver-here x text bytes ids peers (record s { db = db; rng = g }) h,
              a,
            )
            (append_assoc s.sent (to_all bytes peers) ((conn, ack) ∷ [])),
      )

module _ {Json Db Rs G Ctx K Q : Type 0} (x : Externals Json Db Rs G Ctx) (socket : SocketLib K)
    (sqlite : SqliteLib Q) where
  -- For a group message whose members, as the query of the group's users returns them, are all on
  -- connections of this server, groupChat sends the same frame once to each of those connections,
  -- in the query's order, and then one frame to the sender. A client that receives that frame,
  -- whatever bytes follow the frame, does onReceiveAck with the id that the sender gave it,
  -- shows the line and tries to store the message. The json and cipher libraries are the same on both
  -- sides and behave as documented; the object and that of the ACK can be dumped, the encryption
  -- did not fail, the frame has at most 4096 bytes, the id is a uint32_t, and a cipher
  -- context can be had.
  pub receive-group_chat :
      (conn : ℕ) (ids : List ℤ) (peers : List ℕ) (id groupid : ℤ)
      (name msg time text ack_text rest : Str) (msg_id : ℕ) (d : Ctx) (db : Db) (now : Now)
      (s : Server Db Rs G) (c : Client G K Q)
      → JsonLaws x.json
      → EvpLaws x.evp
      → msg_id < 2 ^ 32
      → x.json.dump (x.json.object (group_chat_fields id name groupid msg time msg_id)) ≡ some text
      → x.json.dump (ack_json x (to_int (pos msg_id))) ≡ some ack_text
      → GroupModel.query_group_users x.mysql (to_int id) (to_int groupid) s.db ≡ (ok ids, db)
      → AllHere s.conns ids peers
      → (encrypted_message_svr x.evp text 10 msg_id s.rng).0 ≢ []
      → length (encrypted_message_svr x.evp text 10 msg_id s.rng).0 ≤ 4096
      → (x.evp.ctx_new c.rng).0 ≡ some d
      → (bytes ack : Str) × (rng : G) × ((group_chat x conn
            (x.json.object (group_chat_fields id name groupid msg time msg_id))
            s).1.sent
          ≡ s.sent ++ (to_all bytes peers ++ (conn, ack) ∷ []))
        × (read_task (client_side x socket sqlite) (bytes ++ rest) now c
            ≡ (store (client_side x socket sqlite) msg (to_int id) (to_int groupid) 10 now
                  >> pure true)
                (let acked =
                    on_receive_ack (client_side x socket sqlite) msg_id (record c { rng = rng }) in
                  record acked { shown = acked.shown ++ group_line time name msg ∷ [] }))
  receive-group_chat conn ids peers id groupid name msg time text ack_text rest msg_id d db now s c
        laws evp_laws w e a q h sealed short fresh =
      let y = client_side x socket sqlite in
      let bytes = (encrypted_message_svr x.evp text 10 msg_id s.rng).0 in
      let rng = rng_after x bytes c.rng in
      let same : to_u32 (to_int (pos msg_id)) ≡ msg_id =
        to_u32-to_int (pos msg_id) ∙ to_u32-small msg_id w in
      let (ack, sent) =
        group_chat-sent x laws conn ids peers id groupid name msg time text ack_text msg_id db s e a
          q h in
      (
        bytes,
        ack,
        rng,
        sent
            ∙ ap
                (λ n.
                  s.sent
                  ++ (to_all (encrypted_message_svr x.evp text 10 n s.rng).0 peers
                      ++ (conn, ack) ∷ []))
                same,
        read_task-append y bytes rest now c short
            ∙ receive-frame y text (beside bytes rest) 10 msg_id s.rng d now c evp_laws
                (omega arith) w sealed (omega (arith, short)) fresh
            ∙ rw
                (
                  receive_message-group_chat y laws id groupid name msg time text msg_id now
                      (record c { rng = rng }) e,
                  to_u32-small msg_id w,
                )
                refl,
      )
