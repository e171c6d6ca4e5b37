-- ===== src/Client/Session/Actions.antt =====
-- src/client/main.cpp: the operations of the client's threads, each of which keeps the maps of
-- waiting messages together.
use my_chat_project.Prelude.{take, ◌==◌, String, ℕ, Option, none, some, List, [], ◌∷◌, ℤ, Str}
use my_chat_project.Exec.{Exec, Outcome, modify, zoom}
use my_chat_project.Exec.Keeps.{Keeps, Keeps-bind, Keeps-if, Keeps-modify, keeps_rules}
use my_chat_project.Externals.{ClientExternals, JsonValue}
use my_chat_project.Protocol.Header.{EnMsgType}
use my_chat_project.Client.{String, Client, Now}
use my_chat_project.Protocol.Cipher.{aes256_cbc_decrypt, my_aes_key}
use my_chat_project.Client.History.{insert_chat_history}
use my_chat_project.Client.Reliable.{encrypted_message}
use my_chat_project.Client.Login.{
  collect, load_friends, load_groups, read_friend, read_member, read_group, texts_or_none,
  show_offline, show_offline_messages, accept_login, do_login_response, do_reg_response,
}
use my_chat_project.Client.Receive.{
  read_task, receive_ack, store, receive_chat, receive_group_chat, react, receive_message,
  open_payload, receive,
}
use my_chat_project.Client.Retries.{IsTracked, send-IsTracked, ack-IsTracked}
use my_chat_project.Client.Commands.{
  Command, help, chat, addfriend, creategroup, addgroup, groupchat, logout, find_command, getline,
  split_line, split_colon, send_request, request_login, request_reg, addfriend_command,
  addgroup_command, chat_command, groupchat_command, creategroup_command, logout_command,
  run_command, menu_line,
}

-- A value computed from the state.
pub read_state-Keeps : {S A : Type 0} {P : S → Type 0} (f : S → Outcome A) → Keeps P (λ s. (f s, s))
read_state-Keeps f = record { at = λ s h. h }

module _ {Json G Ctx K Q : Type 0} (x : ClientExternals Json G Ctx K Q) where
  -- An update of the other fields.
  modify-IsTracked :
      (f : Client G K Q → Client G K Q)
      → ((s : Client G K Q) → IsTracked s → IsTracked (f s))
      → Keeps {S = Client G K Q} IsTracked (modify f)
  modify-IsTracked f k = Keeps-modify f k

  encrypted_message-IsTracked :
      (msg : Str) (t id : ℕ) (now : Now)
      → Keeps {S = Client G K Q} IsTracked (encrypted_message x msg t id now)
  encrypted_message-IsTracked msg t id now = record {
    at = λ s v. send-IsTracked x msg t id now s v;
  }

  send_request-IsTracked :
      (t : EnMsgType) (fields : List (String × JsonValue)) (now : Now)
      → Keeps {S = Client G K Q} IsTracked (send_request x t fields now)
  unfolding send_request
  send_request-IsTracked t fields now =
      search (keeps_rules, read_state-Keeps, encrypted_message-IsTracked)

  pub request_login-IsTracked :
      (id : ℤ) (pwd : Str) (now : Now)
      → Keeps {S = Client G K Q} IsTracked (request_login x id pwd now)
  unfolding request_login
  request_login-IsTracked id pwd now = search (keeps_rules, send_request-IsTracked)

  pub request_reg-IsTracked :
      (name pwd : Str) (now : Now) → Keeps {S = Client G K Q} IsTracked (request_reg x name pwd now)
  unfolding request_reg
  request_reg-IsTracked name pwd now = search (keeps_rules, send_request-IsTracked)

  chat-IsTracked :
      (found : Option (Str × Str)) (now : Now)
      → Keeps {S = Client G K Q} IsTracked (chat_command x found now)
  unfolding chat_command
  chat-IsTracked none now = search keeps_rules
  chat-IsTracked (some (friend, message)) now = search (keeps_rules, send_request-IsTracked)

  groupchat-IsTracked :
      (found : Option (Str × Str)) (now : Now)
      → Keeps {S = Client G K Q} IsTracked (groupchat_command x found now)
  unfolding groupchat_command
  groupchat-IsTracked none now = search keeps_rules
  groupchat-IsTracked (some (group, message)) now = search (keeps_rules, send_request-IsTracked)

  creategroup-IsTracked :
      (found : Option (Str × Str)) (now : Now)
      → Keeps {S = Client G K Q} IsTracked (creategroup_command x found now)
  unfolding creategroup_command
  creategroup-IsTracked none now = search keeps_rules
  creategroup-IsTracked (some (name, desc)) now = search (keeps_rules, send_request-IsTracked)

  run_command-IsTracked :
      (command : Option Command) (str : Str) (now : Now)
      → Keeps {S = Client G K Q} IsTracked (run_command x command str now)
  unfolding run_command addfriend_command addgroup_command logout_command
  run_command-IsTracked none str now = search keeps_rules
  run_command-IsTracked (some help) str now = search keeps_rules
  run_command-IsTracked (some chat) str now = chat-IsTracked (split_colon str) now
  run_command-IsTracked (some addfriend) str now = search (keeps_rules, send_request-IsTracked)
  run_command-IsTracked (some creategroup) str now = creategroup-IsTracked (split_colon str) now
  run_command-IsTracked (some addgroup) str now = search (keeps_rules, send_request-IsTracked)
  run_command-IsTracked (some groupchat) str now = groupchat-IsTracked (split_colon str) now
  run_command-IsTracked (some logout) str now =
      search (keeps_rules, send_request-IsTracked, modify-IsTracked)

  pub menu_line-IsTracked :
      (text : Str) (now : Now) → Keeps {S = Client G K Q} IsTracked (menu_line x text now)
  unfolding menu_line
  menu_line-IsTracked text now =
      run_command-IsTracked
        (find_command (split_line (getline text) (split_colon (getline text))).0)
        (split_line (getline text) (split_colon (getline text))).1 now

  collect-IsTracked :
      {A B : Type 0} (f : A → Exec (Client G K Q) B) (items : List A)
      → ((a : A) → Keeps {S = Client G K Q} IsTracked (f a))
      → Keeps {S = Client G K Q} IsTracked (collect f items)
  unfolding collect
  collect-IsTracked f [] k = search keeps_rules
  collect-IsTracked f (a ∷ items) k =
      Keeps-bind (f a) _ (k a)
        λ b. Keeps-bind (collect f items) _ (collect-IsTracked f items k) λ rest. search keeps_rules

  read_friend-IsTracked : (text : Str) → Keeps {S = Client G K Q} IsTracked (read_friend x text)
  unfolding read_friend
  read_friend-IsTracked text = search keeps_rules depth 9

  load_friends-IsTracked : (js : Json) → Keeps {S = Client G K Q} IsTracked (load_friends x js)
  unfolding load_friends
  load_friends-IsTracked js = search (keeps_rules, modify-IsTracked, read_friend-IsTracked) depth 9

  read_member-IsTracked : (text : Str) → Keeps {S = Client G K Q} IsTracked (read_member x text)
  unfolding read_member
  read_member-IsTracked text = search keeps_rules depth 9

  read_group-IsTracked : (text : Str) → Keeps {S = Client G K Q} IsTracked (read_group x text)
  unfolding read_group texts_or_none
  read_group-IsTracked text = search (keeps_rules, collect-IsTracked, read_member-IsTracked) depth 9

  load_groups-IsTracked : (js : Json) → Keeps {S = Client G K Q} IsTracked (load_groups x js)
  unfolding load_groups
  load_groups-IsTracked js = search (keeps_rules, modify-IsTracked, read_group-IsTracked) depth 9

  show_offline-IsTracked : (text : Str) → Keeps {S = Client G K Q} IsTracked (show_offline x text)
  unfolding show_offline
  show_offline-IsTracked text = search (keeps_rules, modify-IsTracked) depth 12

  show_offline_messages-IsTracked :
      (js : Json) → Keeps {S = Client G K Q} IsTracked (show_offline_messages x js)
  unfolding show_offline_messages
  show_offline_messages-IsTracked js = search (keeps_rules, show_offline-IsTracked)

  do_login_response-IsTracked :
      (js : Json) → Keeps {S = Client G K Q} IsTracked (do_login_response x js)
  unfolding do_login_response accept_login
  do_login_response-IsTracked js =
      search
        (
          keeps_rules, modify-IsTracked, load_friends-IsTracked, load_groups-IsTracked,
          show_offline_messages-IsTracked,
        )
        depth 12

  receive_ack-IsTracked : (js : Json) → Keeps {S = Client G K Q} IsTracked (receive_ack x js)
  unfolding receive_ack
  receive_ack-IsTracked js = search (keeps_rules, modify-IsTracked, ack-IsTracked)

  history-IsTracked :
      {A : Type 0} (m : Exec Q A)
      → Keeps {S = Client G K Q} IsTracked
          (zoom (λ s. s.history) (λ h s. record s { history = h }) m)
  history-IsTracked m = record { at = λ s h. h }

  rng-IsTracked :
      {A : Type 0} (m : Exec G A)
      → Keeps {S = Client G K Q} IsTracked (zoom (λ s. s.rng) (λ g s. record s { rng = g }) m)
  rng-IsTracked m = record { at = λ s h. h }

  store-IsTracked :
      (content : Str) (send_id receive_id : ℤ) (t : ℕ) (now : Now)
      → Keeps {S = Client G K Q} IsTracked (store x content send_id receive_id t now)
  unfolding store
  store-IsTracked content send_id receive_id t now = search (
    keeps_rules,
    history-IsTracked (insert_chat_history x.sqlite content send_id receive_id t now.seconds),
  )

  receive_chat-IsTracked :
      (js : Json) (content : Str) (now : Now)
      → Keeps {S = Client G K Q} IsTracked (receive_chat x js content now)
  unfolding receive_chat
  receive_chat-IsTracked js content now =
      search (keeps_rules, modify-IsTracked, store-IsTracked) depth 12

  receive_group_chat-IsTracked :
      (js : Json) (content : Str) (now : Now)
      → Keeps {S = Client G K Q} IsTracked (receive_group_chat x js content now)
  unfolding receive_group_chat
  receive_group_chat-IsTracked js content now =
      search (keeps_rules, modify-IsTracked, store-IsTracked) depth 12

  react-IsTracked :
      (t : ℤ) (js : Json) (content : Str) (now : Now)
      → Keeps {S = Client G K Q} IsTracked (react x t js content now)
  unfolding react do_reg_response
  react-IsTracked t js content now =
      search
        (
          keeps_rules, modify-IsTracked, receive_chat-IsTracked, receive_group_chat-IsTracked,
          do_login_response-IsTracked,
        )
        depth 9

  receive_message-IsTracked :
      (message : Str) (now : Now)
      → Keeps {S = Client G K Q} IsTracked (receive_message x message now)
  unfolding receive_message
  receive_message-IsTracked message now =
      search (keeps_rules, receive_ack-IsTracked, react-IsTracked) depth 9

  open_payload-IsTracked :
      (is_encrypted : ℕ) (payload : Str)
      → Keeps {S = Client G K Q} IsTracked (open_payload x is_encrypted payload)
  unfolding open_payload
  open_payload-IsTracked is_encrypted payload =
      Keeps-if (is_encrypted == 1) _ _ (rng-IsTracked (aes256_cbc_decrypt x.evp payload my_aes_key))
        (search keeps_rules)

  pub receive-IsTracked :
      (buf : Str) (now : Now) → Keeps {S = Client G K Q} IsTracked (receive x buf now)
  unfolding receive
  receive-IsTracked buf now =
      search (keeps_rules, open_payload-IsTracked, receive_message-IsTracked) depth 9

  pub read_task-IsTracked :
      (arrived : Str) (now : Now) → Keeps {S = Client G K Q} IsTracked (read_task x arrived now)
  unfolding read_task
  read_task-IsTracked arrived now = receive-IsTracked (take 4096 arrived) now
