-- ===== src/Exchange/Shown.antt =====
-- src/client/main.cpp, readTaskHandler: what one frame of a private message shows, and what the frame of
-- an ACK does.
use my_chat_project.Prelude.{
  to_u32-to_int, to_u32, ℕ, ◌^◌, ◌<◌, ◌≡◌, ◌∙◌, ap, sym, refl, arith, true, some, ℤ, pos, to_int,
  Str, [], ◌∷◌, ◌++◌, append-nil, Bool-cases, Option-cases, inl, inr,
}
use my_chat_project.Exec.{ok, pure, ◌>>◌}
use my_chat_project.Externals.{Externals, ClientExternals, EvpLaws, JsonLaws, SocketLib, SqliteLib}
use my_chat_project.Protocol.Frame.{encrypted_message_svr}
use my_chat_project.Service.{ack_json}
use my_chat_project.Client.{Client, Now, chat_line}
use my_chat_project.Client.Pending
use my_chat_project.Client.Reliable.{on_receive_ack, forget_if, forget}
use my_chat_project.Client.History.{insert_chat_history, with_file}
use my_chat_project.Client.Receive.{receive, read_task, store}
use my_chat_project.Exchange.Recv.{read_task-frame}
use my_chat_project.Exchange.Frames.{receive-frame}
use my_chat_project.Exchange.Acks.{receive_message-ack}
use my_chat_project.Exchange.Chat.{
  chat_fields, rng_after, to_u32-small, client_side, receive_message-chat,
}
use my_chat_project.Exchange.Delivery.{Seals, Opens}

module _ {Json G Ctx K Q : Type 0} (y : ClientExternals Json G Ctx K Q) where
  shown-on_receive_ack : (id : ℕ) (c : Client G K Q) → (on_receive_ack y id c).shown ≡ c.shown
  unfolding on_receive_ack forget_if forget
  shown-on_receive_ack id c = elim (Option-cases (Pending.find id c.wait_ack)) [
    | inl e ↦ rw (e, on_receive_ack, forget_if) refl
    | inr (b, e) ↦ rw (e, on_receive_ack, forget_if) refl
  ]

  -- The row may or may not be stored; the round goes well.
  shown-store :
      (content : Str) (a b : ℤ) (t : ℕ) (now : Now) (c : Client G K Q)
      → ((store y content a b t now >> pure true) c).1.shown ≡ c.shown
  unfolding store insert_chat_history with_file
  shown-store content a b t now c = elim (Bool-cases (y.sqlite.open_file c.history).0) [
    | inl e ↦ rw e refl
    | inr e ↦ rw e refl
  ]

module _ {Json Db Rs G Ctx K Q : Type 0} (x : Externals Json Db Rs G Ctx) (socket : SocketLib K)
    (sqlite : SqliteLib Q) where
  module _ (laws : JsonLaws x.json) (evp_laws : EvpLaws x.evp) (opens : Opens x.evp) (msg_id : ℕ)
      (w : msg_id < 2 ^ 32) where
    pub receive-chat-shown :
        (id toid : ℤ) (name msg time text : Str) (g : G) (now : Now) (c : Client G K Q)
        → x.json.dump (x.json.object (chat_fields id name toid msg time msg_id)) ≡ some text
        → Seals x.evp text
        → (read_task
            (client_side x socket sqlite)
            (encrypted_message_svr x.evp text 10 msg_id g).0
            now
            c).1.shown
          ≡ c.shown ++ chat_line time name msg ∷ []
    receive-chat-shown id toid name msg time text g now c e seals =
        let y = client_side x socket sqlite in
        let bytes = (encrypted_message_svr x.evp text 10 msg_id g).0 in
        let (d, fresh) = opens c.rng in
        let c1 = record c { rng = rng_after x bytes c.rng } in
        let acked = on_receive_ack y msg_id c1 in
        let shown = record acked { shown = acked.shown ++ chat_line time name msg ∷ [] } in
        let handled : receive y (bytes ++ []) now c
            ≡ (store y msg (to_int id) (to_int toid) 6 now >> pure true) shown =
          receive-frame y text [] 10 msg_id g d now c evp_laws (omega arith) w (seals 10 msg_id g).0
            (omega (arith, (seals 10 msg_id g).1)) fresh
          ∙ rw
              (
                receive_message-chat y laws id toid name msg time text msg_id now c1 e,
                to_u32-small msg_id w,
              )
              refl in
        ap (λ r. r.1.shown) (read_task-frame y bytes now c (seals 10 msg_id g).1)
        ∙ ap (λ b. (receive y b now c).1.shown) (sym (append-nil bytes))
        ∙ ap (λ r. r.1.shown) handled
        ∙ shown-store y msg (to_int id) (to_int toid) 6 now shown
        ∙ ap (λ shown. shown ++ chat_line time name msg ∷ []) (shown-on_receive_ack y msg_id c1)

    pub receive-ack-end :
        (ack_text : Str) (g : G) (now : Now) (a : Client G K Q)
        → x.json.dump (ack_json x (to_int (pos msg_id))) ≡ some ack_text
        → Seals x.evp ack_text
        → read_task
            (client_side x socket sqlite)
            (encrypted_message_svr x.evp ack_text 10 msg_id g).0
            now
            a
          ≡ (
            ok true,
            on_receive_ack (client_side x socket sqlite) msg_id (record a {
              rng = rng_after x (encrypted_message_svr x.evp ack_text 10 msg_id g).0 a.rng;
            }),
          )
    receive-ack-end ack_text g now a dumped seals =
        let y = client_side x socket sqlite in
        let bytes = (encrypted_message_svr x.evp ack_text 10 msg_id g).0 in
        let (d, fresh) = opens a.rng in
        let a1 = record a { rng = rng_after x bytes a.rng } in
        let same : to_u32 (to_int (pos msg_id)) ≡ msg_id =
          to_u32-to_int (pos msg_id) ∙ to_u32-small msg_id w in
        read_task-frame y bytes now a (seals 10 msg_id g).1
        ∙ ap (λ b. receive y b now a) (sym (append-nil bytes))
        ∙ receive-frame y ack_text [] 10 msg_id g d now a evp_laws (omega arith) w
            (seals 10 msg_id g).0 (omega (arith, (seals 10 msg_id g).1)) fresh
        ∙ rw (receive_message-ack y laws (to_int (pos msg_id)) ack_text now a1 dumped, same) refl
