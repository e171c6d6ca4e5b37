-- ===== src/Client/Receive.antt =====
-- src/client/main.cpp: readTaskHandler. An exception of the thread ends the process.
use my_chat_project.Prelude.{
  ℕ, ◌+◌, ◌-◌, Bool, true, false, ◌||◌, [], ℤ, pos, eq_int, to_u32, Str, length, take, drop, ltb,
  ◌==◌, if◌then◌else◌,
}
use my_chat_project.Exec.{Exec, json_exception, pure, modify, or_throw, zoom, ◌>>=◌, ◌>>◌}
use my_chat_project.Externals.{ClientExternals}
use my_chat_project.Protocol.Header.{
  MsgHeader, header_size, read_header, msg_code, login_msg_ack, reg_msg_ack, one_chat_msg,
  group_chat_msg, ack_msg,
}
use my_chat_project.Protocol.Cipher.{aes256_cbc_decrypt, my_aes_key}
use my_chat_project.Client.{Client, Now, chat_line, group_line, show_line}
use my_chat_project.Client.Reliable.{on_receive_ack}
use my_chat_project.Client.History.{insert_chat_history}
use my_chat_project.Client.Login.{
  get_number, get_text, text_or, parse_text, do_login_response, do_reg_response,
}

-- buf.substr(sizeof(MsgHeader), msgLength - sizeof(MsgHeader)): the difference of two unsigned
-- numbers wraps round, and then all the rest is taken.
unfoldable pub payload_of : Str → MsgHeader → Str
payload_of buf header =
    if ltb header.msg_length header_size
    then drop header_size buf
    else take (header.msg_length - header_size) (drop header_size buf)

-- The types of message that count as an acknowledgement.
unfoldable pub acknowledges : ℤ → Bool
unfolding msg_code
acknowledges t =
    eq_int t (pos (msg_code login_msg_ack))
    || (eq_int t (pos (msg_code reg_msg_ack))
        || (eq_int t (pos (msg_code one_chat_msg))
            || (eq_int t (pos (msg_code group_chat_msg)) || eq_int t (pos (msg_code ack_msg)))))

-- recv(clientfd, buffer, 4096, 0)
abbrev pub recv_size : ℕ
recv_size = 4096

module _ {Json G Ctx K Q : Type 0} (x : ClientExternals Json G Ctx K Q) where
  -- onReceiveAck(js["msgId"].get<uint32_t>())
  unfoldable pub receive_ack : Json → Exec (Client G K Q) (Unit {0})
  unfolding on_receive_ack
  receive_ack js = do
    n ← or_throw (x.json.number js "msgId") json_exception
    modify (on_receive_ack x (to_u32 n))

  -- clientInsertChat, whose result is not used.
  unfoldable pub store : Str → ℤ → ℤ → ℕ → Now → Exec (Client G K Q) (Unit {0})
  unfolding insert_chat_history
  store content send_id receive_id msg_type now = do
    zoom (λ s. s.history) (λ h s. record s { history = h })
        (insert_chat_history x.sqlite content send_id receive_id msg_type now.seconds)
    pure tt

  unfoldable pub receive_chat : Json → Str → Now → Exec (Client G K Q) (Unit {0})
  unfolding store msg_code
  receive_chat js content now = do
    time ← get_text x js "time"
    name ← get_text x js "name"
    msg ← get_text x js "msg"
    show_line (chat_line time name msg)
    send_id ← get_number x js "id"
    receive_id ← get_number x js "toid"
    store content send_id receive_id (msg_code one_chat_msg) now

  unfoldable pub receive_group_chat : Json → Str → Now → Exec (Client G K Q) (Unit {0})
  unfolding store msg_code
  receive_group_chat js content now = do
    time ← get_text x js "time"
    name ← get_text x js "name"
    msg ← get_text x js "msg"
    show_line (group_line time name msg)
    send_id ← get_number x js "id"
    receive_id ← get_number x js "groupid"
    store content send_id receive_id (msg_code group_chat_msg) now

  -- sem_post(&rwsem)
  abbrev pub post : Exec (Client G K Q) (Unit {0})
  post = modify λ s. record s { rwsem = s.rwsem + 1 }

  -- What is done with a message of a type, after the acknowledgement.
  unfoldable pub react : ℤ → Json → Str → Now → Exec (Client G K Q) (Unit {0})
  unfolding receive_chat receive_group_chat do_login_response do_reg_response msg_code
  react t js content now =
      if eq_int t (pos (msg_code one_chat_msg))
      then receive_chat js content now
      else if eq_int t (pos (msg_code group_chat_msg))
      then receive_group_chat js content now
      else if eq_int t (pos (msg_code login_msg_ack))
      then (do do_login_response x js; post)
      else if eq_int t (pos (msg_code reg_msg_ack))
      then (do do_reg_response x js; post)
      else pure tt

  -- A message as text.
  unfoldable pub receive_message : Str → Now → Exec (Client G K Q) (Unit {0})
  unfolding receive_ack react acknowledges
  receive_message message now = do
    js ← parse_text x message
    t ← get_number x js "msgid"
    content ← text_or x js "msg" []
    (if acknowledges t then receive_ack js else pure tt)
    react t js content now

  unfoldable pub open_payload : ℕ → Str → Exec (Client G K Q) Str
  open_payload is_encrypted payload =
      if is_encrypted == 1
      then zoom (λ s. s.rng) (λ g s. record s { rng = g })
          (aes256_cbc_decrypt x.evp payload my_aes_key)
      else pure payload

  -- A round of readTaskHandler after its recv, on the bytes that it gave: whether the loop goes on. It exits on
  -- a closed connection, on less than a header, and on less than the header's length.
  unfoldable pub receive : Str → Now → Exec (Client G K Q) Bool
  unfolding receive_message open_payload payload_of read_header
  receive buf now =
      let header = read_header buf in
      if ltb (length buf) header_size
      then pure false
      else if ltb (length buf) header.msg_length
      then pure false
      else (do
        message ← open_payload header.is_encrypted (payload_of buf header)
        receive_message message now
        pure true)

  -- One round of readTaskHandler, for the bytes that have arrived: recv takes 4096 of them, or all
  -- where there are fewer, and leaves the others for the next round.
  unfoldable pub read_task : Str → Now → Exec (Client G K Q) Bool
  unfolding receive
  read_task arrived now = receive (take recv_size arrived) now
