-- ===== src/Exchange/Forward.antt =====
-- src/server/chatservice.cpp, handleRedisSubscribeMessage, and src/client/main.cpp,
-- readTaskHandler: a private message that another server published.
use my_chat_project.Prelude.{
  ◌≤◌, ℕ, ◌^◌, ◌<◌, ◌≡◌, ◌≢◌, ◌∙◌, ap, refl, arith, true, some, ℤ, pos, to_int, to_u32,
  to_u32-to_int, eq_str, Str, [], ◌∷◌, ◌++◌, length,
}
use my_chat_project.Exec.{ok, pure, ◌>>◌}
use my_chat_project.Externals.{
  Externals, SocketLib, SqliteLib, EvpLaws, JsonLaws, assigned, or_earlier,
}
use my_chat_project.Protocol.Header.{msg_code}
use my_chat_project.Protocol.Frame.{encrypted_message_svr}
use my_chat_project.Service.{Server, on_heart_beat}
use my_chat_project.Service.Conns
use my_chat_project.Service.Chat.{forward, forward_or_store, handle_redis_subscribe_message}
use my_chat_project.Client.{Client, Now, chat_line}
use my_chat_project.Client.Reliable.{on_receive_ack}
use my_chat_project.Client.Receive.{read_task, store}
use my_chat_project.Exchange.Frames.{receive-frame}
use my_chat_project.Exchange.Recv.{beside, read_task-append}
use my_chat_project.Exchange.Chat.{
  chat_fields, client_side, rng_after, receive_message-chat, to_u32-small,
}

module _ {Json Db Rs G Ctx : Type 0} (x : Externals Json Db Rs G Ctx) (laws : JsonLaws x.json) where
  forward-sent :
      (peer : ℕ) (userid id toid : ℤ) (name msg time text : Str) (msg_id : ℕ) (s : Server Db Rs G)
      → x.json.dump (x.json.object (chat_fields id name toid msg time msg_id)) ≡ some text
      → Conns.find userid s.conns ≡ some peer
      → ((handle_redis_subscribe_message x userid text s).0 ≡ ok tt)
        × ((handle_redis_subscribe_message x userid text s).1.sent
            ≡ s.sent
              ++ (peer, (encrypted_message_svr x.evp text 6 (to_u32 (to_int (pos msg_id))) s.rng).0)
                ∷ [])
  unfolding handle_redis_subscribe_message forward_or_store forward on_heart_beat msg_code to_u32
      assigned or_earlier eq_str
  forward-sent peer userid id toid name msg time text msg_id s e f =
      let fields = chat_fields id name toid msg time msg_id in
      let p = laws.parse_dump (x.json.object fields) text e in
      let n = laws.number_of fields "msgId" (pos msg_id) refl in
      let t = laws.number_of fields "msgid" (pos 6) refl in
      (rw (f, p, n, t, e) refl, rw (f, p, n, t, e) refl)

module _ {Json Db Rs G Ctx K Q : Type 0} (x : Externals Json Db Rs G Ctx) (socket : SocketLib K)
    (sqlite : SqliteLib Q) where
  -- The text of a client's chat command that arrives over redis for a user who is on a connection
  -- of this server goes out as one frame to that connection, and nothing is thrown; the client
  -- there, whatever bytes follow the frame, does onReceiveAck with the id that the sender
  -- gave it, shows the line and tries to store the message. The json and cipher libraries are the same on
  -- both sides and behave as documented; the object has been dumped by one of them; the encryption
  -- did not fail, the frame has at most 4096 bytes, the id is a uint32_t, and a cipher
  -- context can be had.
  pub receive-handle_redis_subscribe_message :
      (peer : ℕ) (userid id toid : ℤ) (name msg time text rest : Str) (msg_id : ℕ) (d : Ctx)
      (now : Now) (s : Server Db Rs G) (c : Client G K Q)
      → JsonLaws x.json
      → EvpLaws x.evp
      → msg_id < 2 ^ 32
      → x.json.dump (x.json.object (chat_fields id name toid msg time msg_id)) ≡ some text
      → Conns.find userid s.conns ≡ some peer
      → (encrypted_message_svr x.evp text 6 msg_id s.rng).0 ≢ []
      → length (encrypted_message_svr x.evp text 6 msg_id s.rng).0 ≤ 4096
      → (x.evp.ctx_new c.rng).0 ≡ some d
      → (bytes : Str) × (rng : G) × ((handle_redis_subscribe_message x userid text s).0 ≡ ok tt)
        × ((handle_redis_subscribe_message x userid text s).1.sent ≡ s.sent ++ (peer, bytes) ∷ [])
        × (read_task (client_side x socket sqlite) (bytes ++ rest) now c
            ≡ (store (client_side x socket sqlite) msg (to_int id) (to_int toid) 6 now >> pure true)
                (let acked =
                    on_receive_ack (client_side x socket sqlite) msg_id (record c { rng = rng }) in
                  record acked { shown = acked.shown ++ chat_line time name msg ∷ [] }))
  receive-handle_redis_subscribe_message peer userid id toid name msg time text rest msg_id d now s
        c laws evp_laws w e f sealed short fresh =
      let y = client_side x socket sqlite in
      let bytes = (encrypted_message_svr x.evp text 6 msg_id s.rng).0 in
      let rng = rng_after x bytes c.rng in
      let same : to_u32 (to_int (pos msg_id)) ≡ msg_id =
        to_u32-to_int (pos msg_id) ∙ to_u32-small msg_id w in
      let (done, sent) = forward-sent x laws peer userid id toid name msg time text msg_id s e f in
      (
        bytes,
        rng,
        done,
        sent ∙ ap (λ n. s.sent ++ (peer, (encrypted_message_svr x.evp text 6 n s.rng).0) ∷ []) same,
        read_task-append y bytes rest now c short
            ∙ receive-frame y text (beside bytes rest) 6 msg_id s.rng d now c evp_laws (omega arith)
                w sealed (omega (arith, short)) fresh
            ∙ rw
                (
                  receive_message-chat y laws id toid name msg time text msg_id now
                      (record c { rng = rng }) e,
                  to_u32-small msg_id w,
                )
                refl,
      )
