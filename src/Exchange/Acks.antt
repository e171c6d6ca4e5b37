-- ===== src/Exchange/Acks.antt =====
-- src/server/chatservice.cpp, ACKToClient, and src/client/main.cpp, readTaskHandler and
-- onReceiveAck: an acknowledgement on its way from the server to the message that waits for it.
use my_chat_project.Prelude.{
  ℕ, ◌^◌, ◌<◌, ◌≡◌, ◌≢◌, ◌∙◌, subst, refl, arith, true, some, ℤ, pos, to_int, to_u32, to_u32-lt,
  eq_int, eq_str, Str, String, [], ◌∷◌, List, ◌++◌, length, drop,
}
use my_chat_project.Exec.{ok}
use my_chat_project.Externals.{
  Externals, ClientExternals, EvpLaws, JsonLaws, JsonValue, num, assigned, or_earlier,
}
use my_chat_project.Protocol.Header.{msg_code, ack_msg, group_chat_msg, header_size}
use my_chat_project.Protocol.Cipher.{aes256_cbc_decrypt, my_aes_key}
use my_chat_project.Protocol.Frame.{encrypted_message_svr}
use my_chat_project.Service.{Server, ack_to_client, respond, ack_json}
use my_chat_project.Client.{Client, Now}
use my_chat_project.Client.Reliable.{on_receive_ack}
use my_chat_project.Client.Receive.{receive, receive_message, receive_ack, react, acknowledges}
use my_chat_project.Exchange.Reading.{get_number-object, parse_text-dump}
use my_chat_project.Exchange.Frames.{receive-frame}

abbrev pub ack_fields : ℤ → List (String × JsonValue)
ack_fields msg_id = ("msgId", num msg_id) ∷ ("msgid", num (pos (msg_code ack_msg))) ∷ []

module _ {Json G Ctx K Q : Type 0} (y : ClientExternals Json G Ctx K Q)
    (laws : JsonLaws y.json) where
  pub receive_message-ack :
      (msg_id : ℤ) (text : Str) (now : Now) (c : Client G K Q)
      → y.json.dump (y.json.object (ack_fields msg_id)) ≡ some text
      → receive_message y text now c ≡ (ok tt, on_receive_ack y (to_u32 msg_id) c)
  unfolding receive_message receive_ack react acknowledges msg_code eq_int to_int to_u32 assigned
      or_earlier eq_str
  receive_message-ack msg_id text now c e =
      let fields = ack_fields msg_id in
      rw
        (
          parse_text-dump y laws (y.json.object fields) text c e,
          get_number-object y laws fields "msgid" (pos 102) c refl,
          laws.has_none fields "msg" refl,
          laws.number_of fields "msgId" msg_id refl,
        )
        refl

module _ {Json Db Rs G Ctx K Q : Type 0} (x : Externals Json Db Rs G Ctx)
    (y : ClientExternals Json G Ctx K Q) where
  ack_to_client-sent :
      (conn : ℕ) (msg_id : ℤ) (text : Str) (s : Server Db Rs G)
      → x.json.dump (ack_json x msg_id) ≡ some text
      → (ack_to_client x conn msg_id s).1.sent
        ≡ s.sent
          ++ (
            conn,
            (encrypted_message_svr x.evp text (msg_code group_chat_msg) (to_u32 msg_id) s.rng).0,
          )
            ∷ []
  unfolding ack_to_client respond
  ack_to_client-sent conn msg_id text s e = rw (e) refl

  -- ACKToClient sends one frame on the connection, and the client that receives it, whatever bytes
  -- follow in the same recv, does onReceiveAck for that id and nothing else that is seen. Both
  -- sides use the same json and cipher libraries, which behave as documented; the object of the ACK
  -- can be dumped, its encryption did not fail, the frame is shorter than 2 ^ 32 bytes, and a cipher
  -- context can be had.
  pub receive-ack_to_client :
      (conn : ℕ) (msg_id : ℤ) (text rest : Str) (d : Ctx) (now : Now) (s : Server Db Rs G)
      (c : Client G K Q)
      → JsonLaws y.json
      → EvpLaws y.evp
      → x.json ≡ y.json
      → x.evp ≡ y.evp
      → x.json.dump (ack_json x msg_id) ≡ some text
      → (encrypted_message_svr y.evp text (msg_code group_chat_msg) (to_u32 msg_id) s.rng).0 ≢ []
      → length (encrypted_message_svr y.evp text (msg_code group_chat_msg) (to_u32 msg_id) s.rng).0
        < 2 ^ 32
      → (y.evp.ctx_new c.rng).0 ≡ some d
      → (bytes : Str) × (rng : G) × ((ack_to_client x conn msg_id s).1.sent
          ≡ s.sent ++ (conn, bytes) ∷ [])
        × (receive y (bytes ++ rest) now c
            ≡ (ok true, on_receive_ack y (to_u32 msg_id) (record c { rng = rng })))
  unfolding msg_code
  receive-ack_to_client conn msg_id text rest d now s c laws evp_laws same_json same_evp dumped
        sealed short fresh =
      let bytes =
        (encrypted_message_svr y.evp text (msg_code group_chat_msg) (to_u32 msg_id) s.rng).0 in
      let rng = (aes256_cbc_decrypt y.evp (drop header_size bytes) my_aes_key c.rng).1 in
      let e = subst (λ j. j.dump (j.object (ack_fields msg_id)) ≡ some text) same_json dumped in
      (
        bytes,
        rng,
        subst
            (λ e.
              (ack_to_client x conn msg_id s).1.sent
              ≡ s.sent
                ++ (
                  conn,
                  (encrypted_message_svr e text (msg_code group_chat_msg) (to_u32 msg_id) s.rng).0,
                )
                  ∷ [])
            same_evp (ack_to_client-sent conn msg_id text s dumped),
        receive-frame y text rest (msg_code group_chat_msg) (to_u32 msg_id) s.rng d now c evp_laws
              (omega arith) (to_u32-lt msg_id) sealed short fresh
            ∙ rw (receive_message-ack y laws msg_id text now (record c { rng = rng }) e) refl,
      )
