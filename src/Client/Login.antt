-- ===== src/Client/Login.antt =====
-- src/client/main.cpp: doLoginResponse and doRegResponse.
use my_chat_project.Prelude.{
  true, false, List, [], ◌∷◌, ◌++◌, ℤ, pos, eq_int, to_int, minus_one, Str, String, if◌then◌else◌,
}
use my_chat_project.Exec.{Exec, json_exception, pure, modify, or_throw, for_each, ◌>>=◌, ◌>>◌}
use my_chat_project.Externals.{ClientExternals}
use my_chat_project.Protocol.Header.{msg_code, one_chat_msg, group_chat_msg}
use my_chat_project.Model.{User, GroupUser, Group, default_user, offline}
use my_chat_project.Client.{Client, chat_line, group_line, show_line}
use my_chat_project.Client.Screen.{show_current_user_data}

-- for (auto &a : xs) vec.push_back(f(a));
unfoldable pub collect : {S A B : Type 0} → (A → Exec S B) → List A → Exec S (List B)
collect f [] = pure []
collect f (a ∷ items) = do b ← f a; rest ← collect f items; pure (b ∷ rest)

module _ {Json G Ctx K Q : Type 0} (x : ClientExternals Json G Ctx K Q) where
  abbrev pub get_number : Json → String → Exec (Client G K Q) ℤ
  get_number js key = do n ← or_throw (x.json.number js key) json_exception; pure (to_int n)

  abbrev pub get_text : Json → String → Exec (Client G K Q) Str
  get_text js key = or_throw (x.json.text js key) json_exception

  -- A field that may be missing or null.
  abbrev pub text_or : Json → String → Str → Exec (Client G K Q) Str
  text_or js key fallback = if x.json.has js key then get_text js key else pure fallback

  abbrev pub number_or : Json → String → ℤ → Exec (Client G K Q) ℤ
  number_or js key fallback = if x.json.has js key then get_number js key else pure fallback

  abbrev pub parse_text : Str → Exec (Client G K Q) Json
  parse_text text = or_throw (x.json.parse text) json_exception

  unfoldable pub read_friend : Str → Exec (Client G K Q) User
  read_friend str = do
    js ← parse_text str
    id ← number_or js "id" minus_one
    name ← text_or js "name" []
    state ← text_or js "state" offline
    pure (record default_user { id = id; name = name; state = state })

  unfoldable pub read_member : Str → Exec (Client G K Q) GroupUser
  read_member str = do
    js ← parse_text str
    id ← number_or js "id" minus_one
    name ← text_or js "name" []
    state ← text_or js "state" offline
    role ← text_or js "role" []
    pure
        (record { user = record default_user { id = id; name = name; state = state }; role = role })

  unfoldable pub texts_or_none : Json → String → Exec (Client G K Q) (List Str)
  texts_or_none js key =
      if x.json.has js key then or_throw (x.json.texts js key) json_exception else pure []

  unfoldable pub read_group : Str → Exec (Client G K Q) Group
  unfolding texts_or_none collect read_member
  read_group str = do
    js ← parse_text str
    id ← number_or js "id" minus_one
    name ← text_or js "groupname" []
    desc ← text_or js "groupdesc" []
    texts ← texts_or_none js "users"
    users ← collect read_member texts
    pure (record { id = id; name = name; desc = desc; users = users })

  -- The friend list is replaced only if the answer has one; it is cleared first.
  unfoldable pub load_friends : Json → Exec (Client G K Q) (Unit {0})
  unfolding for_each read_friend
  load_friends js =
      if x.json.has js "friends"
      then (do
        modify (λ s. record s { friends = [] })
        texts ← or_throw (x.json.texts js "friends") json_exception
        for_each texts (λ text. read_friend text >>= λ user.
            modify (λ s. record s { friends = s.friends ++ user ∷ [] })))
      else pure tt

  unfoldable pub load_groups : Json → Exec (Client G K Q) (Unit {0})
  unfolding for_each read_group
  load_groups js =
      if x.json.has js "groups"
      then (do
        modify (λ s. record s { groups = [] })
        texts ← or_throw (x.json.texts js "groups") json_exception
        for_each texts (λ text. read_group text >>= λ group.
            modify (λ s. record s { groups = s.groups ++ group ∷ [] })))
      else pure tt

  -- One offline message; other types are passed over.
  unfoldable pub show_offline : Str → Exec (Client G K Q) (Unit {0})
  unfolding msg_code
  show_offline str = do
    js ← parse_text str
    msgtype ← number_or js "msgid" (pos 0)
    if eq_int msgtype (pos (msg_code one_chat_msg))
        then (do
          time ← text_or js "time" []
          name ← text_or js "name" []
          msg ← text_or js "msg" []
          show_line (chat_line time name msg))
        else if eq_int msgtype (pos (msg_code group_chat_msg))
        then (do
          time ← text_or js "time" []
          name ← text_or js "name" []
          msg ← text_or js "msg" []
          show_line (group_line time name msg))
        else pure tt

  unfoldable pub show_offline_messages : Json → Exec (Client G K Q) (Unit {0})
  unfolding show_offline for_each
  show_offline_messages js =
      if x.json.has js "offlinemsg"
      then (do
        texts ← or_throw (x.json.texts js "offlinemsg") json_exception
        for_each texts show_offline)
      else pure tt

  -- The branch of doLoginResponse for errno 0.
  unfoldable pub accept_login : Json → Exec (Client G K Q) (Unit {0})
  unfolding load_friends load_groups show_current_user_data show_offline_messages
  accept_login js = do
    id ← get_number js "id"
    modify (λ s. record s { current_user = record s.current_user { id = id } })
    name ← text_or js "name" []
    modify (λ s. record s { current_user = record s.current_user { name = name } })
    load_friends js
    load_groups js
    show_current_user_data
    show_offline_messages js
    modify (λ s. record s { login_success = true })

  -- doLoginResponse
  unfoldable pub do_login_response : Json → Exec (Client G K Q) (Unit {0})
  unfolding accept_login
  do_login_response js = do
    errno ← get_number js "errno"
    if eq_int errno (pos 0)
        then accept_login js
        else modify (λ s. record s { login_success = false })

  -- doRegResponse only prints.
  unfoldable pub do_reg_response : Json → Exec (Client G K Q) (Unit {0})
  do_reg_response js = do get_number js "errno"; pure tt
