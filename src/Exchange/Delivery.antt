-- ===== src/Exchange/Delivery.antt =====
-- src/server/chatserver.cpp, onMessage, and src/server/chatservice.cpp, oneChat, with what the
-- frames they send do to the clients, where encryption never fails.
use my_chat_project.Prelude.{
  ℕ, ◌^◌, ◌<◌, ◌≤◌, ◌≡◌, ◌≢◌, ◌∙◌, ap, refl, arith, some, ℤ, pos, to_int, to_u32, to_u32-to_int,
  eq_int, eq_str, Str, [], ◌∷◌, ◌++◌, append_assoc, length,
}
use my_chat_project.Exec.{ok}
use my_chat_project.Externals.{Externals, EvpLib, EvpLaws, JsonLaws, assigned, or_earlier}
use my_chat_project.Protocol.Header.{msg_code}
use my_chat_project.Protocol.Frame.{encrypted_message_svr}
use my_chat_project.Service.{Server, ack_to_client, respond, ack_json}
use my_chat_project.Service.Conns
use my_chat_project.Service.Chat.{one_chat, chat_route}
use my_chat_project.Service.Dispatch.{get_handler, run_handler}
use my_chat_project.ChatServer.{on_message}
use my_chat_project.ChatServer.Requests.{on_message-encrypted_message}
use my_chat_project.Exchange.Chat.{chat_fields, rng_after, to_u32-small}

-- A text can always be framed, in at most the 4096 bytes of one recv.
abbrev pub Seals : {G Ctx : Type 0} → EvpLib G Ctx → Str → Type 0
Seals {G} e text =
    (t id : ℕ) (g : G)
    → ((encrypted_message_svr e text t id g).0 ≢ [])
      × (length (encrypted_message_svr e text t id g).0 ≤ 4096)

-- A cipher context can always be had.
abbrev pub Opens : {G Ctx : Type 0} → EvpLib G Ctx → Type 0
Opens {G} {Ctx} e = (g : G) → (d : Ctx) × ((e.ctx_new g).0 ≡ some d)

module _ {Json Db Rs G Ctx : Type 0} (x : Externals Json Db Rs G Ctx) (laws : JsonLaws x.json) where
  -- oneChat for a user on a connection of this server: the state that it leaves.
  one_chat-here :
      (conn peer : ℕ) (id toid : ℤ) (name msg time text ack_text : Str) (msg_id : ℕ)
      (s : Server Db Rs G)
      → x.json.dump (x.json.object (chat_fields id name toid msg time msg_id)) ≡ some text
      → x.json.dump (ack_json x (to_int (pos msg_id))) ≡ some ack_text
      → Conns.find (to_int toid) s.conns ≡ some peer
      → one_chat x conn (x.json.object (chat_fields id name toid msg time msg_id)) s ≡ (
          let id32 = to_u32 (to_int (pos msg_id)) in
          let (bytes, g) = encrypted_message_svr x.evp text 10 id32 s.rng in
          let (ack, g') = encrypted_message_svr x.evp ack_text 10 id32 g in
          (ok tt, record s { rng = g'; sent = s.sent ++ (peer, bytes) ∷ (conn, ack) ∷ [] }))
  unfolding one_chat chat_route ack_to_client respond msg_code assigned or_earlier eq_str
  one_chat-here conn peer id toid name msg time text ack_text msg_id s e a f =
      let fields = chat_fields id name toid msg time msg_id in
      let id32 = to_u32 (to_int (pos msg_id)) in
      let (bytes, g) = encrypted_message_svr x.evp text 10 id32 s.rng in
      let (ack, g') = encrypted_message_svr x.evp ack_text 10 id32 g in
      rw
        (
          laws.number_of fields "toid" toid refl,
          laws.number_of fields "msgId" (pos msg_id) refl,
          e,
          f,
          a,
        )
        (ap (λ sent. (ok tt, record s { rng = g'; sent = sent }))
          (append_assoc s.sent ((peer, bytes) ∷ []) ((conn, ack) ∷ [])))

  -- onMessage on the frame of a chat command, likewise.
  pub on_message-chat :
      (conn peer : ℕ) (id toid : ℤ) (name msg time text ack_text : Str) (msg_id : ℕ) (g : G)
      (s : Server Db Rs G)
      → EvpLaws x.evp
      → msg_id < 2 ^ 32
      → x.json.dump (x.json.object (chat_fields id name toid msg time msg_id)) ≡ some text
      → text ≢ []
      → x.json.dump (ack_json x (to_int (pos msg_id))) ≡ some ack_text
      → Seals x.evp text
      → Opens x.evp
      → Conns.find (to_int toid) s.conns ≡ some peer
      → on_message x conn (encrypted_message_svr x.evp text 6 msg_id g).0 s ≡ (
          let request = (encrypted_message_svr x.evp text 6 msg_id g).0 in
          let (bytes, g1) =
            encrypted_message_svr x.evp text 10 msg_id (rng_after x request s.rng) in
          let (ack, g2) = encrypted_message_svr x.evp ack_text 10 msg_id g1 in
          (ok tt, record s { rng = g2; sent = s.sent ++ (peer, bytes) ∷ (conn, ack) ∷ [] }))
  unfolding get_handler run_handler msg_code eq_int to_int assigned or_earlier eq_str
  on_message-chat conn peer id toid name msg time text ack_text msg_id g s evp_laws w e ne a seals
        opens f =
      let fields = chat_fields id name toid msg time msg_id in
      let request = (encrypted_message_svr x.evp text 6 msg_id g).0 in
      let s1 = record s { rng = rng_after x request s.rng } in
      let same : to_u32 (to_int (pos msg_id)) ≡ msg_id =
        to_u32-to_int (pos msg_id) ∙ to_u32-small msg_id w in
      let (d, fresh) = opens s.rng in
      on_message-encrypted_message x conn (x.json.object fields) text (pos 6) 6 msg_id g d s
        evp_laws (omega arith) w (seals 6 msg_id g).0 fresh ne
        (laws.parse_dump (x.json.object fields) text e) (laws.number_of fields "msgid" (pos 6) refl)
      ∙ one_chat-here conn peer id toid name msg time text ack_text msg_id s1 e a f
      ∙ ap
          (λ n.
            let (bytes, g1) = encrypted_message_svr x.evp text 10 n s1.rng in
            let (ack, g2) = encrypted_message_svr x.evp ack_text 10 n g1 in
            (ok tt, record s { rng = g2; sent = s.sent ++ (peer, bytes) ∷ (conn, ack) ∷ [] }))
          same
