-- ===== src/Service/Invariant/Handlers.antt =====
-- The handlers of src/server/chatservice.cpp and the connection map.
use my_chat_project.Prelude.{ℕ, Option, none, some, List, [], ◌∷◌, ℤ, Str}
use my_chat_project.Exec.{Exec}
use my_chat_project.Exec.Keeps.{Keeps, Keeps-bind}
use my_chat_project.Externals.{Externals}
use my_chat_project.DbTask.{push}
use my_chat_project.Model.{DbTaskArgs, User, GroupUser, Group}
use my_chat_project.Service.Conns.{ConnMap, insert, erase}
use my_chat_project.Service.{Server, dump, set_conns}
use my_chat_project.Service.Account.{
  friend_json, member_json, group_json, dump_all, take_offline, login_fields, complete_login,
  accept_login, refuse_login, login, reg, logout, client_close_exception, erase_user,
}
use my_chat_project.Service.Chat.{
  chat_to_database, chat_remote, chat_route, one_chat, deliver_to, deliver, group_chat, add_friend,
  forward, forward_or_store, handle_redis_subscribe_message,
}
use my_chat_project.Service.Group.{create_group, add_group}
use my_chat_project.Service.Invariant.{OnShared, shared_rules}

module _ {Json Db Rs G Ctx : Type 0} (x : Externals Json Db Rs G Ctx)
    (P : ConnMap → List DbTaskArgs → Type 0)
    (pushes : (m : ConnMap) (q : List DbTaskArgs) (t : DbTaskArgs) → P m q → P m (push t q)) where
  pub dump_all-OnShared :
      {A : Type 0} (f : A → Exec (Server Db Rs G) Json) (items : List A)
      → ((a : A) → Keeps (OnShared P) (f a))
      → Keeps (OnShared P) (dump_all x f items)
  unfolding dump_all
  dump_all-OnShared f [] k = search shared_rules
  dump_all-OnShared f (a ∷ items) k = Keeps-bind (f a) _ (k a) λ js.
      Keeps-bind (dump x js) _ (search shared_rules) λ text.
        Keeps-bind (dump_all x f items) _ (dump_all-OnShared f items k) λ rest. search shared_rules

  pub friend_json-OnShared :
      (user : User) → Keeps {S = Server Db Rs G} (OnShared P) (friend_json x user)
  unfolding friend_json
  friend_json-OnShared user = search shared_rules

  member_json-OnShared :
      (member : GroupUser) → Keeps {S = Server Db Rs G} (OnShared P) (member_json x member)
  unfolding member_json
  member_json-OnShared member = search shared_rules

  pub group_json-OnShared :
      (group : Group) → Keeps {S = Server Db Rs G} (OnShared P) (group_json x group)
  unfolding group_json
  group_json-OnShared group = search (shared_rules, member_json-OnShared, dump_all-OnShared)

  take_offline-OnShared : (id : ℤ) → Keeps {S = Server Db Rs G} (OnShared P) (take_offline x id)
  unfolding take_offline
  take_offline-OnShared id = search shared_rules

  login_fields-OnShared :
      (user : User) (id msg_id : ℤ)
      → Keeps {S = Server Db Rs G} (OnShared P) (login_fields x user id msg_id)
  unfolding login_fields
  login_fields-OnShared user id msg_id =
      search
        (
          shared_rules, take_offline-OnShared, dump_all-OnShared, friend_json-OnShared,
          group_json-OnShared,
        )
        depth 9

  pub refuse_login-OnShared :
      (conn errno : ℕ) (errmsg : Str) (msg_id : ℤ)
      → Keeps (OnShared P) (refuse_login x conn errno errmsg msg_id)
  unfolding refuse_login
  refuse_login-OnShared conn errno errmsg msg_id = search shared_rules

  pub reg-OnShared : (conn : ℕ) (js : Json) → Keeps (OnShared P) (reg x conn js)
  unfolding reg
  reg-OnShared conn js = search shared_rules depth 9

  pub add_friend-OnShared : (conn : ℕ) (js : Json) → Keeps (OnShared P) (add_friend x conn js)
  unfolding add_friend
  add_friend-OnShared conn js = search shared_rules depth 9

  pub create_group-OnShared : (conn : ℕ) (js : Json) → Keeps (OnShared P) (create_group x conn js)
  unfolding create_group
  create_group-OnShared conn js = search shared_rules depth 11

  pub add_group-OnShared : (conn : ℕ) (js : Json) → Keeps (OnShared P) (add_group x conn js)
  unfolding add_group
  add_group-OnShared conn js = search shared_rules depth 9

  chat_to_database-OnShared :
      (conn : ℕ) (toid msg_id : ℤ) (text : Str)
      → Keeps (OnShared P) (chat_to_database x conn toid msg_id text)
  unfolding chat_to_database
  chat_to_database-OnShared conn toid msg_id text = search shared_rules depth 7

  chat_remote-OnShared :
      (conn : ℕ) (toid msg_id : ℤ) (text : Str) (value : Option Str)
      → Keeps (OnShared P) (chat_remote x conn toid msg_id text value)
  unfolding chat_remote
  chat_remote-OnShared conn toid msg_id text none = chat_to_database-OnShared conn toid msg_id text
  chat_remote-OnShared conn toid msg_id text (some value) = search shared_rules

  chat_route-OnShared :
      (conn : ℕ) (toid msg_id : ℤ) (text bytes : Str) (peer : Option ℕ)
      → Keeps (OnShared P) (chat_route x conn toid msg_id text bytes peer)
  unfolding chat_route
  chat_route-OnShared conn toid msg_id text bytes none = search (shared_rules, chat_remote-OnShared)
  chat_route-OnShared conn toid msg_id text bytes (some peer) = search shared_rules

  pub one_chat-OnShared : (conn : ℕ) (js : Json) → Keeps (OnShared P) (one_chat x conn js)
  unfolding one_chat
  one_chat-OnShared conn js = search (shared_rules, chat_route-OnShared) depth 9

  deliver_to-OnShared :
      (text bytes : Str) (id : ℤ) (peer : Option ℕ)
      → Keeps {S = Server Db Rs G} (OnShared P) (deliver_to x text bytes id peer)
  unfolding deliver_to
  deliver_to-OnShared text bytes id none = search shared_rules depth 7
  deliver_to-OnShared text bytes id (some peer) = search shared_rules

  pub deliver-OnShared :
      (text bytes : Str) (id : ℤ)
      → Keeps {S = Server Db Rs G} (OnShared P) (deliver x text bytes id)
  unfolding deliver
  deliver-OnShared text bytes id = search (shared_rules, deliver_to-OnShared)

  pub group_chat-OnShared : (conn : ℕ) (js : Json) → Keeps (OnShared P) (group_chat x conn js)
  unfolding group_chat
  group_chat-OnShared conn js = search (shared_rules, deliver-OnShared) depth 11

  forward-OnShared :
      (userid : ℤ) (msg : Str) (peer : ℕ)
      → Keeps {S = Server Db Rs G} (OnShared P) (forward x userid msg peer)
  unfolding forward
  forward-OnShared userid msg peer = search shared_rules depth 11

  forward_or_store-OnShared :
      (userid : ℤ) (msg : Str) (peer : Option ℕ)
      → Keeps {S = Server Db Rs G} (OnShared P) (forward_or_store x userid msg peer)
  unfolding forward_or_store
  forward_or_store-OnShared userid msg none = search shared_rules
  forward_or_store-OnShared userid msg (some peer) = forward-OnShared userid msg peer

  pub handle_redis_subscribe_message-OnShared :
      (userid : ℤ) (msg : Str)
      → Keeps {S = Server Db Rs G} (OnShared P) (handle_redis_subscribe_message x userid msg)
  unfolding handle_redis_subscribe_message
  handle_redis_subscribe_message-OnShared userid msg =
      search (shared_rules, forward_or_store-OnShared)

  -- The handlers that change the map, over a statement that its insert or its erase keeps.
  pub set_conns-OnShared :
      (f : ConnMap → ConnMap)
      → ((m : ConnMap) (q : List DbTaskArgs) → P m q → P (f m) q)
      → Keeps {S = Server Db Rs G} (OnShared P) (set_conns f)
  set_conns-OnShared f k = record { at = λ s h. k s.conns s.tasks h }

  pub complete_login-OnShared :
      (conn : ℕ) (user : User) (id msg_id : ℤ)
      → Keeps (OnShared P) (complete_login x conn user id msg_id)
  unfolding complete_login
  complete_login-OnShared conn user id msg_id = search (shared_rules, login_fields-OnShared) depth 9

  accept_login-OnShared :
      (conn : ℕ) (user : User) (id msg_id : ℤ)
      → ((m : ConnMap) (q : List DbTaskArgs) → P m q → P (insert id conn m) q)
      → Keeps (OnShared P) (accept_login x conn user id msg_id)
  unfolding accept_login
  accept_login-OnShared conn user id msg_id k =
      Keeps-bind (set_conns (insert id conn)) (λ _. complete_login x conn user id msg_id)
        (set_conns-OnShared (insert id conn) k) (λ _. complete_login-OnShared conn user id msg_id)

  pub login-OnShared :
      (conn : ℕ) (js : Json)
      → ((id : ℤ) (m : ConnMap) (q : List DbTaskArgs) → P m q → P (insert id conn m) q)
      → Keeps (OnShared P) (login x conn js)
  unfolding login
  login-OnShared conn js k =
      search
        (
          shared_rules,
          refuse_login-OnShared,
          λ (user : User) (id msg_id : ℤ). accept_login-OnShared conn user id msg_id (k id),
        )
        depth 9

  pub logout-OnShared :
      (conn : ℕ) (js : Json)
      → ((id : ℤ) (m : ConnMap) (q : List DbTaskArgs) → P m q → P (erase id m) q)
      → Keeps (OnShared P) (logout x conn js)
  unfolding logout
  logout-OnShared conn js k =
      search (shared_rules, λ (id : ℤ). set_conns-OnShared (erase id) (k id)) depth 9

  pub erase_user-P :
      (found : Option ℤ) (m : ConnMap) (q : List DbTaskArgs)
      → ((id : ℤ) (m : ConnMap) (q : List DbTaskArgs) → P m q → P (erase id m) q)
      → P m q
      → P (erase_user found m) q
  unfolding erase_user
  erase_user-P none m q k h = h
  erase_user-P (some id) m q k h = k id m q h

  pub client_close_exception-OnShared :
      (conn : ℕ)
      → ((id : ℤ) (m : ConnMap) (q : List DbTaskArgs) → P m q → P (erase id m) q)
      → Keeps {S = Server Db Rs G} (OnShared P) (client_close_exception x conn)
  unfolding client_close_exception
  client_close_exception-OnShared conn k =
      search
        (
          shared_rules,
          λ (found : Option ℤ).
              set_conns-OnShared (erase_user found) (λ m q. erase_user-P found m q k),
        )
        depth 9
