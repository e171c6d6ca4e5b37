-- ===== src/Client/Commands.antt =====
-- src/client/main.cpp: mainMenu's command line, the command handlers, and the requests for login
-- and registration. Input lines are arguments; help only prints.
use my_chat_project.Prelude.{
  ℕ, Bool, false, Option, none, some, List, [], ◌∷◌, ◌++◌, ℤ, pos, Str, String, codes, c_str, take,
  to_int, eq_str, atoi, ◌==◌, if◌then◌else◌,
}
use my_chat_project.Exec.{Exec, json_exception, pure, gets, modify, or_throw, ◌>>=◌, ◌>>◌}
use my_chat_project.Externals.{ClientExternals, JsonValue, num, txt}
use my_chat_project.Protocol.Header.{
  EnMsgType, msg_code, login_msg, logout_msg, reg_msg, one_chat_msg, add_friend_msg,
  create_group_msg, add_group_msg, group_chat_msg,
}
use my_chat_project.Protocol.MsgId.{generate_unique_msg_id}
use my_chat_project.Client.{Client, Now}
use my_chat_project.Client.Reliable.{encrypted_message}

unfoldable pub prepend : ℕ → Option (Str × Str) → Option (Str × Str)
prepend c none = none
prepend c (some (s, t)) = some (c ∷ s, t)

-- The text before the first colon and the text behind it: find(":") and two calls of substr.
unfoldable pub split_colon : Str → Option (Str × Str)
unfolding prepend
split_colon [] = none
split_colon (c ∷ s) = let rest = split_colon s in if c == b':' then some ([], s) else prepend c rest

pub data Command : Type 0 where
  help chat addfriend creategroup addgroup groupchat logout : Command

-- commandHandlerMap.find(command)
unfoldable pub find_command : Str → Option Command
find_command s =
    if eq_str s (codes "help")
    then some help
    else if eq_str s (codes "chat")
    then some chat
    else if eq_str s (codes "addfriend")
    then some addfriend
    else if eq_str s (codes "creategroup")
    then some creategroup
    else if eq_str s (codes "addgroup")
    then some addgroup
    else if eq_str s (codes "groupchat")
    then some groupchat
    else if eq_str s (codes "logout")
    then some logout
    else none

-- The command and its argument; a line without a colon is both.
unfoldable pub split_line : Str → Option (Str × Str) → Str × Str
split_line line none = (line, line)
split_line line (some (command, argument)) = (command, argument)

-- cin.getline(buffer, 4096) and string(buffer): at most 4095 bytes, up to the first NUL.
unfoldable pub getline : Str → Str
getline typed = c_str (take 4095 typed)

module _ {Json G Ctx K Q : Type 0} (x : ClientExternals Json G Ctx K Q) where
  -- Make a request with a fresh message id, and send it.
  unfoldable pub send_request :
      EnMsgType → List (String × JsonValue) → Now → Exec (Client G K Q) Bool
  unfolding generate_unique_msg_id encrypted_message msg_code
  send_request msg_type fields now = do
    msg_id ← (λ s. (generate_unique_msg_id now.seconds s.client_id, s))
    text ←
        or_throw
          (x.json.dump (
            x.json.object (
              (("msgid", num (pos (msg_code msg_type))) ∷ fields)
              ++ ("msgId", num (pos msg_id)) ∷ [])))
          json_exception
    encrypted_message x text (msg_code msg_type) msg_id now

  -- Login with the id and password that were typed in; main clears the flag when it has been sent.
  unfoldable pub request_login : ℤ → Str → Now → Exec (Client G K Q) (Unit {0})
  unfolding send_request
  request_login id pwd now = do
    send_request login_msg (("id", num id) ∷ ("password", txt pwd) ∷ []) now
    pure tt

  unfoldable pub request_reg : Str → Str → Now → Exec (Client G K Q) (Unit {0})
  unfolding send_request
  request_reg name pwd now = do
    send_request reg_msg (("name", txt name) ∷ ("password", txt pwd) ∷ []) now
    pure tt

  -- The results of atoi are ints; of a number that is none, C says nothing, and here it wraps round.
  unfoldable pub addfriend_command : Str → Now → Exec (Client G K Q) (Unit {0})
  unfolding send_request
  addfriend_command str now = do
    id ← gets (λ s. s.current_user.id)
    send_request add_friend_msg (("id", num id) ∷ ("friendid", num (to_int (atoi str))) ∷ []) now
    pure tt

  unfoldable pub addgroup_command : Str → Now → Exec (Client G K Q) (Unit {0})
  unfolding send_request
  addgroup_command str now = do
    id ← gets (λ s. s.current_user.id)
    send_request add_group_msg (("id", num id) ∷ ("groupid", num (to_int (atoi str))) ∷ []) now
    pure tt

  -- chat, with what split_colon gives; without a colon the command is invalid.
  unfoldable pub chat_command : Option (Str × Str) → Now → Exec (Client G K Q) (Unit {0})
  unfolding send_request
  chat_command none now = pure tt
  chat_command (some (friend, message)) now = do
    user ← gets (λ s. s.current_user)
    send_request one_chat_msg
        (("id", num user.id)
          ∷ ("name", txt user.name)
          ∷ ("toid", num (to_int (atoi friend)))
          ∷ ("msg", txt message)
          ∷ ("time", txt now.text)
          ∷ [])
        now
    pure tt

  unfoldable pub groupchat_command : Option (Str × Str) → Now → Exec (Client G K Q) (Unit {0})
  unfolding send_request
  groupchat_command none now = pure tt
  groupchat_command (some (group, message)) now = do
    user ← gets (λ s. s.current_user)
    send_request group_chat_msg
        (("id", num user.id)
          ∷ ("name", txt user.name)
          ∷ ("groupid", num (to_int (atoi group)))
          ∷ ("msg", txt message)
          ∷ ("time", txt now.text)
          ∷ [])
        now
    pure tt

  unfoldable pub creategroup_command : Option (Str × Str) → Now → Exec (Client G K Q) (Unit {0})
  unfolding send_request
  creategroup_command none now = pure tt
  creategroup_command (some (name, desc)) now = do
    id ← gets (λ s. s.current_user.id)
    send_request create_group_msg
        (("id", num id) ∷ ("groupname", txt name) ∷ ("groupdesc", txt desc) ∷ []) now
    pure tt

  -- The menu ends when the request has been sent.
  unfoldable pub logout_command : Now → Exec (Client G K Q) (Unit {0})
  unfolding send_request
  logout_command now = do
    id ← gets (λ s. s.current_user.id)
    done ← send_request logout_msg (("id", num id) ∷ []) now
    if done then modify (λ s. record s { menu_running = false }) else pure tt

  unfoldable pub run_command : Option Command → Str → Now → Exec (Client G K Q) (Unit {0})
  unfolding split_colon addfriend_command addgroup_command chat_command groupchat_command
      creategroup_command logout_command
  run_command none str now = pure tt
  run_command (some help) str now = pure tt
  run_command (some chat) str now = chat_command (split_colon str) now
  run_command (some addfriend) str now = addfriend_command str now
  run_command (some creategroup) str now = creategroup_command (split_colon str) now
  run_command (some addgroup) str now = addgroup_command str now
  run_command (some groupchat) str now = groupchat_command (split_colon str) now
  run_command (some logout) str now = logout_command now

  -- One round of mainMenu, for a line of input. After a line of more than 4095 bytes cin fails, and
  -- every later line is empty.
  unfoldable pub menu_line : Str → Now → Exec (Client G K Q) (Unit {0})
  unfolding run_command find_command split_line split_colon getline
  menu_line typed now =
      let line = getline typed in
      let (command, argument) = split_line line (split_colon line) in
      run_command (find_command command) argument now
