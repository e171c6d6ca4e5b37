-- ===== src/Exchange/Typing.antt =====
-- src/client/main.cpp, mainMenu and chat: from a typed line to the request that is sent.
use my_chat_project.Prelude.{
  length, ◌<◌, ◌≤◌, ◌^◌, true, to_int, to_int-same, IsInt, c_str, take-all,
}
use my_chat_project.Externals.{Externals, SocketLib, SqliteLib, JsonLaws, EvpLaws}
use my_chat_project.Service.{Server, ack_json}
use my_chat_project.Service.Conns
use my_chat_project.ChatServer.{on_message}
use my_chat_project.Client.{chat_line}
use my_chat_project.Client.Reliable.{on_receive_ack}
use my_chat_project.Client.Receive.{read_task, store}
use my_chat_project.Exchange.Chat.{client_side, rng_after, receive-on_message-chat}
use my_chat_project.Prelude.{Bool}
use my_chat_project.Client.Pending.{find}
use my_chat_project.Client.Pending.Lookup.{find-put_self}
use my_chat_project.Client.Reliable.{transmit, track}
use my_chat_project.Protocol.Frame.{frame, encrypted_message_svr}
use my_chat_project.Protocol.Frame.Open.{frame-ne-nil}
use my_chat_project.Protocol.Cipher.{aes256_cbc_encrypt, my_aes_key}
use my_chat_project.Prelude.{
  suc, AllDigits, digits-AllDigits, ℕ, ◌≡◌, ◌≢◌, ◌∙◌, ap, refl, arith, false, some, [], ◌∷◌, ◌++◌,
  ℤ, pos, negsuc, Str, codes, eq_str, to_string, digits, is_digit, atoi-to_string, ◌==◌,
}
use my_chat_project.Exec.{ok, pure, ◌>>◌}
use my_chat_project.Externals.{ClientExternals}
use my_chat_project.Protocol.Header.{msg_code}
use my_chat_project.Protocol.MsgId.{generate_unique_msg_id}
use my_chat_project.Client.{Client, Now}
use my_chat_project.Client.Reliable.{encrypted_message}
use my_chat_project.Exchange.Chat.{chat_fields}
use my_chat_project.Client.Commands.{
  getline, prepend, split_colon, split_line, find_command, chat_command, run_command, menu_line,
}

-- No byte is a colon.
abbrev pub NoColon : Str → Type 0
NoColon [] = Unit {0}
NoColon (c ∷ s) = (c ≢ 58) × NoColon s

split_colon-append : (s t : Str) → NoColon s → split_colon (s ++ 58 ∷ t) ≡ some (s, t)
unfolding split_colon prepend
split_colon-append [] t h = refl
split_colon-append (c ∷ s) t h =
    let other : (c == 58) ≡ false = ground (arith, h.0) in
    rw (other, split_colon-append s t h.1) refl

AllDigits-NoColon : (s : Str) → AllDigits s → NoColon s
unfolding is_digit
AllDigits-NoColon [] h = tt
AllDigits-NoColon (c ∷ s) h = (λ e. ground (arith, h.0), AllDigits-NoColon s h.1)

to_string-NoColon : (z : ℤ) → NoColon (to_string z)
unfolding to_string
to_string-NoColon (pos n) = AllDigits-NoColon (digits (suc n) n) (digits-AllDigits (suc n) n)
to_string-NoColon (negsuc n) = (
  λ e. omega arith,
  AllDigits-NoColon (digits (suc (suc n)) (suc n)) (digits-AllDigits (suc (suc n)) (suc n)),
)

-- The line that is typed for a private message.
abbrev pub chat_line_of : ℤ → Str → Str
chat_line_of toid msg = codes "chat:" ++ (to_string toid ++ 58 ∷ msg)

-- A line that cin.getline takes whole.
abbrev pub IsLine : Str → Type 0
IsLine line = (length line ≤ 4095) × (c_str line ≡ line)

getline-IsLine : (line : Str) → IsLine line → getline line ≡ line
unfolding getline
getline-IsLine line (short, whole) = ap c_str (take-all 4095 line short) ∙ whole

module _ {Json G Ctx K Q : Type 0} (x : ClientExternals Json G Ctx K Q) where
  -- A line `chat:` with a user's id in decimal, a colon and any message, further colons included,
  -- sends the request that has that id and that message, the current user and the time, under a
  -- fresh message id and with the type of a private message. The user's id is an int, the line has
  -- at most 4095 bytes and no NUL, an id can be made and the object can be dumped.
  pub menu_line-chat :
      (toid : ℤ) (msg text : Str) (msg_id : ℕ) (now : Now) (c : Client G K Q)
      → generate_unique_msg_id now.seconds c.client_id ≡ ok msg_id
      → x.json.dump (
          x.json.object
            (chat_fields c.current_user.id c.current_user.name toid msg now.text msg_id))
        ≡ some text
      → IsInt toid
      → IsLine (chat_line_of toid msg)
      → menu_line x (chat_line_of toid msg) now c
        ≡ (encrypted_message x text 6 msg_id now >> pure tt) c
  unfolding menu_line split_line find_command run_command chat_command split_colon prepend eq_str
      msg_code
  menu_line-chat toid msg text msg_id now c e d int fits =
      rw (getline-IsLine (chat_line_of toid msg) fits) (
        rw
          (
            split_colon-append (to_string toid) msg (to_string-NoColon toid),
            atoi-to_string toid,
            to_int-same toid int,
          )
          (rw (e, d) refl))

module _ {Json G Ctx K Q : Type 0} (y : ClientExternals Json G Ctx K Q) where
  transmit-waiting :
      (cipher : Str) (t id millis : ℕ) (c : Client G K Q)
      → cipher ≢ []
      → (b : Bool) × ((transmit y t id millis cipher c).0 ≡ ok b)
        × (find id (transmit y t id millis cipher c).1.wait_ack ≡ some (frame cipher t id))
  unfolding transmit track
  transmit-waiting [] t id millis c h = absurd (h refl)
  transmit-waiting (b ∷ cipher) t id millis c h =
      (_, refl, find-put_self id (frame (b ∷ cipher) t id) c.wait_ack)

  -- What encryptedMessage keeps for resending is the frame.
  pub encrypted_message-waiting :
      (text : Str) (t id : ℕ) (now : Now) (c : Client G K Q)
      → (encrypted_message_svr y.evp text t id c.rng).0 ≢ []
      → find id ((encrypted_message y text t id now >> pure tt) c).1.wait_ack
        ≡ some (encrypted_message_svr y.evp text t id c.rng).0
  unfolding encrypted_message encrypted_message_svr
  encrypted_message-waiting text t id now c h =
      let (cipher, g) = aes256_cbc_encrypt y.evp text my_aes_key c.rng in
      let (b, e, f) =
        transmit-waiting cipher t id now.millis (record c { rng = g })
          (frame-ne-nil y.evp text t id c.rng h) in
      rw (e) f

module _ {Json Db Rs G Ctx K Q : Type 0} (x : Externals Json Db Rs G Ctx) (socket : SocketLib K)
    (sqlite : SqliteLib Q) where
  -- The whole way of a private message. A client that types a chat line with the id of a user keeps
  -- a frame for resending under the id of the message; onMessage, given that frame, sends one frame
  -- to the connection of that user and one to the sender; and the client there, whatever bytes
  -- follow the frame, does onReceiveAck with that id, shows the line with the sender's name and the
  -- time of typing, and tries to store the message, whether that goes well or not. Both clients use the server's json and cipher
  -- libraries, which behave as documented; a message id can be made and is a uint32_t; the object
  -- and that of the ACK can be dumped; neither frame of the message failed to encrypt, and the
  -- second has at most the 4096 bytes of one recv; the user's id is an int, and the line has at most
  -- 4095 bytes and no NUL; the receiver is on a connection of this server; and cipher
  -- contexts can be had.
  pub receive-menu_line-chat :
      (conn peer : ℕ) (toid : ℤ) (msg text ack_text rest : Str) (msg_id : ℕ) (d d' : Ctx)
      (typed arrived : Now) (a b : Client G K Q) (s : Server Db Rs G)
      → JsonLaws x.json
      → EvpLaws x.evp
      → generate_unique_msg_id typed.seconds a.client_id ≡ ok msg_id
      → msg_id < 2 ^ 32
      → x.json.dump (
          x.json.object
            (chat_fields a.current_user.id a.current_user.name toid msg typed.text msg_id))
        ≡ some text
      → text ≢ []
      → x.json.dump (ack_json x (to_int (pos msg_id))) ≡ some ack_text
      → (encrypted_message_svr x.evp text 6 msg_id a.rng).0 ≢ []
      → (x.evp.ctx_new s.rng).0 ≡ some d
      → Conns.find (to_int toid) s.conns ≡ some peer
      → IsInt toid
      → IsLine (chat_line_of toid msg)
      → (encrypted_message_svr x.evp text 10 msg_id
          (rng_after x (encrypted_message_svr x.evp text 6 msg_id a.rng).0 s.rng)).0
        ≢ []
      → length
          (encrypted_message_svr x.evp text 10 msg_id
            (rng_after x (encrypted_message_svr x.evp text 6 msg_id a.rng).0 s.rng)).0
        ≤ 4096
      → (x.evp.ctx_new b.rng).0 ≡ some d'
      → (request bytes ack : Str) × (rng : G) × (find msg_id
            (menu_line (client_side x socket sqlite) (chat_line_of toid msg) typed a).1.wait_ack
          ≡ some request)
        × ((on_message x conn request s).1.sent ≡ s.sent ++ (peer, bytes) ∷ (conn, ack) ∷ [])
        × (read_task (client_side x socket sqlite) (bytes ++ rest) arrived b
            ≡ (store
                    (client_side x socket sqlite)
                    msg
                    (to_int a.current_user.id)
                    (to_int toid)
                    6
                    arrived
                  >> pure true)
                (let acked =
                    on_receive_ack (client_side x socket sqlite) msg_id (record b { rng = rng }) in
                  record acked {
                    shown = acked.shown ++ chat_line typed.text a.current_user.name msg ∷ [];
                  }))
  receive-menu_line-chat conn peer toid msg text ack_text rest msg_id d d' typed arrived a b s laws
        evp_laws fresh_id w e ne ack_dumped sealed fresh f int line sealed' short fresh' =
      let y = client_side x socket sqlite in
      let (bytes, ack, rng, sent, shown) =
        receive-on_message-chat x socket sqlite conn peer a.current_user.id toid a.current_user.name
          msg typed.text text ack_text rest msg_id a.rng d d' arrived s b laws evp_laws w e ne
          ack_dumped sealed fresh f sealed' short fresh' in
      (
        (encrypted_message_svr x.evp text 6 msg_id a.rng).0,
        bytes,
        ack,
        rng,
        ap (λ r. find msg_id r.1.wait_ack)
              (menu_line-chat y toid msg text msg_id typed a fresh_id e int line)
            ∙ encrypted_message-waiting y text 6 msg_id typed a sealed,
        sent,
        shown,
      )
