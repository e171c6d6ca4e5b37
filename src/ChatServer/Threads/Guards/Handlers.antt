-- ===== src/ChatServer/Threads/Guards/Handlers.antt =====
-- What each thread of the server, but that of login, does to the connection map and to the queue.
use my_chat_project.Prelude.{ℕ, Option, none, some, List, [], ◌∷◌, ℤ, Str}
use my_chat_project.Exec.Keeps.{Keeps}
use my_chat_project.Exec.Threads
use my_chat_project.Exec.Threads.{Thread}
use my_chat_project.Exec.Threads.Pool.{Guarded, Guarded-bind, Guarded-atomic, guarded_rules}
use my_chat_project.Externals.{Externals}
use my_chat_project.Model.{User, DbTaskArgs}
use my_chat_project.DbTask.{push, pop}
use my_chat_project.Service.Conns
use my_chat_project.Service.Conns.{ConnMap, insert, erase}
use my_chat_project.Service.{Server}
use my_chat_project.Service.Account.{closed_user}
use my_chat_project.Service.Invariant.{OnShared, shared_rules}
use my_chat_project.Service.Invariant.Handlers.{
  dump_all-OnShared, friend_json-OnShared, group_json-OnShared, deliver-OnShared,
  set_conns-OnShared, erase_user-P,
}
use my_chat_project.ChatServer.Threads.Account.{
  take_offline_thread, read_lists_thread, login_fields_thread, accept_login_thread, reg_thread,
  logout_thread, close_thread, erase_connection, forget_user_thread,
}
use my_chat_project.ChatServer.Threads.Chat.{
  one_chat_thread, group_chat_thread, chat_remote_thread, chat_to_database_thread, send_here,
  answer_here,
}
use my_chat_project.ChatServer.Threads.Tasks.{
  add_friend_thread, create_group_thread, add_group_thread, db_thread, pop_task, popped,
  perform_thread,
}

module _ {Json Db Rs G Ctx : Type 0} (x : Externals Json Db Rs G Ctx)
    (P : ConnMap → List DbTaskArgs → Type 0)
    (pushes : (m : ConnMap) (q : List DbTaskArgs) (t : DbTaskArgs) → P m q → P m (push t q)) where
  take_offline-Guarded :
      (id : ℤ) → Guarded {S = Server Db Rs G} (OnShared P) (take_offline_thread x id)
  unfolding take_offline_thread
  take_offline-Guarded id = search (guarded_rules, shared_rules) depth 8

  login_fields-Guarded :
      (user : User) (id msg_id : ℤ)
      → Guarded {S = Server Db Rs G} (OnShared P) (login_fields_thread x user id msg_id)
  unfolding login_fields_thread read_lists_thread
  login_fields-Guarded user id msg_id =
      search
        (
          guarded_rules, shared_rules, take_offline-Guarded, dump_all-OnShared,
          friend_json-OnShared, group_json-OnShared,
        )
        depth 12

  pub accept_login-Guarded :
      (conn : ℕ) (user : User) (id msg_id : ℤ)
      → ((m : ConnMap) (q : List DbTaskArgs) → P m q → P (insert id conn m) q)
      → Guarded {S = Server Db Rs G} (OnShared P) (accept_login_thread x conn user id msg_id)
  unfolding accept_login_thread
  accept_login-Guarded conn user id msg_id inserts =
      search (guarded_rules, shared_rules, login_fields-Guarded, set_conns-OnShared) depth 12

  pub reg-Guarded :
      (conn : ℕ) (js : Json) → Guarded {S = Server Db Rs G} (OnShared P) (reg_thread x conn js)
  unfolding reg_thread
  reg-Guarded conn js = search (guarded_rules, shared_rules) depth 12

  pub logout-Guarded :
      (conn : ℕ) (js : Json)
      → ((id : ℤ) (m : ConnMap) (q : List DbTaskArgs) → P m q → P (erase id m) q)
      → Guarded {S = Server Db Rs G} (OnShared P) (logout_thread x conn js)
  unfolding logout_thread
  logout-Guarded conn js erases =
      search
        (
          guarded_rules,
          shared_rules,
          λ (id : ℤ). set_conns-OnShared x P pushes (erase id) (erases id),
        )
        depth 12

  erase_connection-OnShared :
      (conn : ℕ)
      → ((id : ℤ) (m : ConnMap) (q : List DbTaskArgs) → P m q → P (erase id m) q)
      → Keeps {S = Server Db Rs G} (OnShared P) (erase_connection x conn)
  unfolding erase_connection
  erase_connection-OnShared conn erases = record {
    at = λ s h. erase_user-P x P pushes (Conns.user_of conn s.conns) s.conns s.tasks erases h;
  }

  forget_user-Guarded :
      (id : ℤ) → Guarded {S = Server Db Rs G} (OnShared P) (forget_user_thread x id)
  unfolding forget_user_thread
  forget_user-Guarded id = search (guarded_rules, shared_rules) depth 12

  pub close-Guarded :
      (conn : ℕ)
      → ((id : ℤ) (m : ConnMap) (q : List DbTaskArgs) → P m q → P (erase id m) q)
      → Guarded {S = Server Db Rs G} (OnShared P) (close_thread x conn)
  unfolding close_thread
  close-Guarded conn erases =
      Guarded-bind (OnShared P) (Threads.atomic (erase_connection x conn))
        (λ found. forget_user_thread x (closed_user found))
        (Guarded-atomic (OnShared P) (erase_connection x conn)
          (erase_connection-OnShared conn erases))
        (λ found. forget_user-Guarded (closed_user found))

  answer_here-OnShared :
      (conn : ℕ) (msg_id : ℤ) (bytes : Str) (peer : Option ℕ)
      → Keeps (OnShared P) (answer_here x conn msg_id bytes peer)
  unfolding answer_here
  answer_here-OnShared conn msg_id bytes none = search shared_rules
  answer_here-OnShared conn msg_id bytes (some peer) = search shared_rules

  send_here-OnShared :
      (conn : ℕ) (toid msg_id : ℤ) (bytes : Str)
      → Keeps (OnShared P) (send_here x conn toid msg_id bytes)
  unfolding send_here
  send_here-OnShared conn toid msg_id bytes = record {
    at = λ s h. (answer_here-OnShared conn msg_id bytes (Conns.find toid s.conns)).at s h;
  }

  chat_remote-Guarded :
      (conn : ℕ) (toid msg_id : ℤ) (text : Str) (value : Option Str)
      → Guarded (OnShared P) (chat_remote_thread x conn toid msg_id text value)
  unfolding chat_remote_thread chat_to_database_thread
  chat_remote-Guarded conn toid msg_id text none = search (guarded_rules, shared_rules) depth 9
  chat_remote-Guarded conn toid msg_id text (some value) = search (guarded_rules, shared_rules)

  pub one_chat-Guarded : (conn : ℕ) (js : Json) → Guarded (OnShared P) (one_chat_thread x conn js)
  unfolding one_chat_thread
  one_chat-Guarded conn js =
      search (guarded_rules, shared_rules, send_here-OnShared, chat_remote-Guarded) depth 14

  pub group_chat-Guarded :
      (conn : ℕ) (js : Json) → Guarded (OnShared P) (group_chat_thread x conn js)
  unfolding group_chat_thread
  group_chat-Guarded conn js =
      search (guarded_rules, shared_rules, deliver-OnShared x P pushes) depth 14

  pub add_friend-Guarded :
      (conn : ℕ) (js : Json) → Guarded (OnShared P) (add_friend_thread x conn js)
  unfolding add_friend_thread
  add_friend-Guarded conn js = search (guarded_rules, shared_rules) depth 12

  pub create_group-Guarded :
      (conn : ℕ) (js : Json) → Guarded (OnShared P) (create_group_thread x conn js)
  unfolding create_group_thread
  create_group-Guarded conn js = search (guarded_rules, shared_rules) depth 14

  pub add_group-Guarded : (conn : ℕ) (js : Json) → Guarded (OnShared P) (add_group_thread x conn js)
  unfolding add_group_thread
  add_group-Guarded conn js = search (guarded_rules, shared_rules) depth 12

  popped-P :
      (m : ConnMap) (q : List DbTaskArgs) (s : Server Db Rs G)
      → ((m : ConnMap) (t : DbTaskArgs) (q : List DbTaskArgs) → P m (t ∷ q) → P m q)
      → P m q
      → OnShared P (popped (pop q) (record s { conns = m; tasks = q })).1
  unfolding popped pop
  popped-P m [] s pops h = h
  popped-P m (t ∷ q) s pops h = pops m t q h

  perform-Guarded :
      (t : Option DbTaskArgs) → Guarded {S = Server Db Rs G} (OnShared P) (perform_thread x t)
  unfolding perform_thread
  perform-Guarded none = search guarded_rules
  perform-Guarded (some t) = search (guarded_rules, shared_rules)

  pub db-Guarded :
      ((m : ConnMap) (t : DbTaskArgs) (q : List DbTaskArgs) → P m (t ∷ q) → P m q)
      → Guarded {S = Server Db Rs G} (OnShared P) (db_thread x)
  unfolding db_thread pop_task
  db-Guarded pops =
      let popping : Keeps {S = Server Db Rs G} (OnShared P) (pop_task x) = record {
        at = λ s h. popped-P s.conns s.tasks s pops h;
      } in
      search (guarded_rules, popping, perform-Guarded)
