-- ===== src/ChatServer/Threads/Alone.antt =====
-- The threads of the server, each run with no other in between, are the handlers.
use my_chat_project.Prelude.{
  ℕ, ◌≡◌, ◌∙◌, refl, Bool, true, if◌then◌else◌, Option, none, some, List, [], ◌∷◌, ◌++◌, ℤ, Str,
  to_string, arith,
}
use my_chat_project.Exec
use my_chat_project.Exec.{Exec, Outcome, ok, throws, undefined, continue}
use my_chat_project.Exec.Threads
use my_chat_project.Exec.Threads.Alone.{alone, Runs, runs_rules}
use my_chat_project.Externals.{Externals}
use my_chat_project.Model.{User, DbTaskArgs}
use my_chat_project.DbTask.{work_once, work_on, pop}
use my_chat_project.Redis
use my_chat_project.Service.{Server, ack_to_client, on_redis}
use my_chat_project.Service.Conns
use my_chat_project.Service.Account.{
  take_offline, login_fields, accept_login, complete_login, login, reg, logout,
  client_close_exception,
}
use my_chat_project.Service.Chat.{
  one_chat, chat_route, chat_remote, chat_to_database, group_chat, add_friend,
}
use my_chat_project.Service.Group.{create_group, add_group}
use my_chat_project.Service.Dispatch.{
  Handler, login_handler, reg_handler, one_chat_handler, add_friend_handler, create_group_handler,
  add_group_handler, group_chat_handler, logout_handler, run_handler,
}
use my_chat_project.ChatServer.Events.{db_work}
use my_chat_project.ChatServer.Threads.Account.{
  take_offline_thread, read_lists_thread, login_fields_thread, accept_login_thread, login_thread,
  reg_thread, logout_thread, close_thread, erase_connection, forget_user_thread,
}
use my_chat_project.ChatServer.Threads.Chat.{
  one_chat_thread, group_chat_thread, chat_remote_thread, chat_to_database_thread, send_here,
  answer_here,
}
use my_chat_project.ChatServer.Threads.Tasks.{
  add_friend_thread, create_group_thread, add_group_thread, db_thread, pop_task, popped,
  perform_thread,
}
use my_chat_project.ChatServer.Threads.{
  Call, request, closed, published, db_round, thread_of, code_of, handler_thread,
}

-- A section that has answered goes on to nothing.
flagged :
    {S : Type 0} (r : Outcome (Unit {0})) (rest : Bool → Exec S (Unit {0})) (s : S)
    → ((t : S) → rest true t ≡ (ok tt, t))
    → Exec.◌>>=◌ (Exec.◌>>◌ (λ (s : S). (r, s)) (Exec.pure true)) rest s ≡ (r, s)
flagged (ok u) rest s h = h s
flagged (throws e) rest s h = refl
flagged undefined rest s h = refl

module _ {Json Db Rs G Ctx : Type 0} (x : Externals Json Db Rs G Ctx) where
  take_offline-Runs : (id : ℤ) → Runs (take_offline_thread x id) (take_offline x id)
  unfolding take_offline_thread take_offline
  take_offline-Runs id = search runs_rules

  login_fields-Runs :
      (user : User) (id msg_id : ℤ)
      → Runs (login_fields_thread x user id msg_id) (login_fields x user id msg_id)
  unfolding login_fields_thread read_lists_thread login_fields
  login_fields-Runs user id msg_id = search (runs_rules, take_offline-Runs) depth 12

  accept_login-Runs :
      (conn : ℕ) (user : User) (id msg_id : ℤ)
      → Runs (accept_login_thread x conn user id msg_id) (accept_login x conn user id msg_id)
  unfolding accept_login_thread accept_login complete_login
  accept_login-Runs conn user id msg_id = search (runs_rules, login_fields-Runs) depth 12

  pub login-Runs : (conn : ℕ) (js : Json) → Runs (login_thread x conn js) (login x conn js)
  unfolding login_thread login
  login-Runs conn js = search (runs_rules, accept_login-Runs) depth 12

  reg-Runs : (conn : ℕ) (js : Json) → Runs (reg_thread x conn js) (reg x conn js)
  unfolding reg_thread reg
  reg-Runs conn js = search runs_rules depth 12

  logout-Runs : (conn : ℕ) (js : Json) → Runs (logout_thread x conn js) (logout x conn js)
  unfolding logout_thread logout
  logout-Runs conn js = search runs_rules depth 12

  close-Runs : (conn : ℕ) → Runs (close_thread x conn) (client_close_exception x conn)
  unfolding close_thread client_close_exception erase_connection forget_user_thread alone
  close-Runs conn = record { at = λ s. ground arith }

  chat_remote-Runs :
      (conn : ℕ) (toid msg_id : ℤ) (text : Str) (value : Option Str)
      → Runs
          (chat_remote_thread x conn toid msg_id text value)
          (chat_remote x conn toid msg_id text value)
  unfolding chat_remote_thread chat_remote chat_to_database_thread chat_to_database
  chat_remote-Runs conn toid msg_id text (some v) = search runs_rules
  chat_remote-Runs conn toid msg_id text none = search runs_rules depth 12

  group_chat-Runs :
      (conn : ℕ) (js : Json) → Runs (group_chat_thread x conn js) (group_chat x conn js)
  unfolding group_chat_thread group_chat
  group_chat-Runs conn js = search runs_rules depth 12

  add_friend-Runs :
      (conn : ℕ) (js : Json) → Runs (add_friend_thread x conn js) (add_friend x conn js)
  unfolding add_friend_thread add_friend
  add_friend-Runs conn js = search runs_rules depth 12

  create_group-Runs :
      (conn : ℕ) (js : Json) → Runs (create_group_thread x conn js) (create_group x conn js)
  unfolding create_group_thread create_group
  create_group-Runs conn js = search runs_rules depth 12

  add_group-Runs : (conn : ℕ) (js : Json) → Runs (add_group_thread x conn js) (add_group x conn js)
  unfolding add_group_thread add_group
  add_group-Runs conn js = search runs_rules depth 12

  abbrev after_here : ℕ → ℤ → ℤ → Str → Bool → Exec (Server Db Rs G) (Unit {0})
  after_here conn toid msg_id text found =
      if found
      then Exec.pure tt
      else Exec.◌>>=◌ (on_redis (Redis.get x.redis (to_string toid)))
          (chat_remote x conn toid msg_id text)

  -- A section whose result only says whether to go on.
  answer-Runs :
      (conn : ℕ) (toid msg_id : ℤ) (text bytes : Str) (peer : Option ℕ) (s : Server Db Rs G)
      → Exec.◌>>=◌ (answer_here x conn msg_id bytes peer) (after_here conn toid msg_id text) s
        ≡ chat_route x conn toid msg_id text bytes peer s
  unfolding answer_here chat_route
  answer-Runs conn toid msg_id text bytes none s = refl
  answer-Runs conn toid msg_id text bytes (some peer) s =
      let (r, s') =
        ack_to_client x conn msg_id (record s { sent = s.sent ++ (peer, bytes) ∷ [] }) in
      flagged r _ s' (λ t. refl)

  here-Runs :
      (conn : ℕ) (toid msg_id : ℤ) (text bytes : Str)
      → Runs
          (Threads.◌>>=◌ (Threads.atomic (send_here x conn toid msg_id bytes)) (λ found.
            if found
            then Threads.return tt
            else Threads.◌>>=◌
                (Threads.atomic (on_redis (Redis.get x.redis (to_string toid))))
                (λ value. chat_remote_thread x conn toid msg_id text value)))
          (Exec.◌>>=◌
            (Exec.gets (λ s. Conns.find toid s.conns))
            (λ peer. chat_route x conn toid msg_id text bytes peer))
  unfolding send_here
  here-Runs conn toid msg_id text bytes =
      let steps : Runs _
          (Exec.◌>>=◌ (send_here x conn toid msg_id bytes) (after_here conn toid msg_id text)) =
        search (runs_rules, chat_remote-Runs) in
      record {
        at = λ s. steps.at s ∙ answer-Runs conn toid msg_id text bytes (Conns.find toid s.conns) s;
      }

  one_chat-Runs : (conn : ℕ) (js : Json) → Runs (one_chat_thread x conn js) (one_chat x conn js)
  unfolding one_chat_thread one_chat
  one_chat-Runs conn js = search (runs_rules, here-Runs) depth 12

  db_round-alone :
      (queue : List DbTaskArgs) (s : Server Db Rs G)
      → alone (db_thread x) (record s { tasks = queue }) ≡ db_work x (record s { tasks = queue })
  unfolding db_thread db_work pop_task popped perform_thread pop work_once work_on alone
  db_round-alone [] s = refl
  db_round-alone (t ∷ queue) s = refl

  db-Runs : Runs (db_thread x) (db_work x)
  db-Runs = record { at = λ s. db_round-alone s.tasks s }

  handler-Runs :
      (h : Handler) (conn : ℕ) (js : Json)
      → Runs (handler_thread x h conn js) (run_handler x (some h) conn js)
  unfolding handler_thread run_handler
  handler-Runs login_handler conn js = login-Runs conn js
  handler-Runs reg_handler conn js = reg-Runs conn js
  handler-Runs one_chat_handler conn js = one_chat-Runs conn js
  handler-Runs add_friend_handler conn js = add_friend-Runs conn js
  handler-Runs create_group_handler conn js = create_group-Runs conn js
  handler-Runs add_group_handler conn js = add_group-Runs conn js
  handler-Runs group_chat_handler conn js = group_chat-Runs conn js
  handler-Runs logout_handler conn js = logout-Runs conn js

  -- A thread of the server that runs with no other in between ends in the state, and with the
  -- outcome, of its handler in one go: so for every request, every closed connection, every message
  -- from redis and every round of the database thread.
  pub alone-thread_of :
      (c : Call Json) (s : Server Db Rs G) → alone (thread_of x c) s ≡ code_of x c s
  unfolding thread_of code_of alone
  alone-thread_of (request h conn js) s = (handler-Runs h conn js).at s
  alone-thread_of (closed conn) s = (close-Runs conn).at s
  alone-thread_of (published userid msg) s = refl
  alone-thread_of db_round s = db-Runs.at s
