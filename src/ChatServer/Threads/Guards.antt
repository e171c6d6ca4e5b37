-- ===== src/ChatServer/Threads/Guards.antt =====
-- What every step of the server's threads does to the connection map and to the queue.
mod Handlers
use my_chat_project.Prelude.{
  ℕ, ◌≡◌, refl, true, false, if◌then◌else◌, Bool-cases, inl, inr, Option, none, some, List, [], ◌∷◌,
  ℤ, to_int, eq_str, Str,
}
use my_chat_project.Exec
use my_chat_project.Exec.{Exec, ok, or_throw, json_exception}
use my_chat_project.Exec.Keeps.{Keeps}
use my_chat_project.Exec.Threads
use my_chat_project.Exec.Threads.{Thread}
use my_chat_project.Exec.Threads.Pool.{
  Guarded, Guarded-known, Guarded-bind, Guarded-atomic, guarded_rules,
}
use my_chat_project.Externals.{Externals}
use my_chat_project.Model.{User, DbTaskArgs, online}
use my_chat_project.Db.UserModel
use my_chat_project.DbTask.{push, pop}
use my_chat_project.Service.Conns
use my_chat_project.Service.Conns.{ConnMap, insert, erase}
use my_chat_project.Service.{Server, get_int, get_text, on_db}
use my_chat_project.Service.Account.{credentials_match, refuse_login, closed_user}
use my_chat_project.Service.Texts.{already_online, wrong_password}
use my_chat_project.Service.Dispatch.{
  login_handler, reg_handler, one_chat_handler, add_friend_handler, create_group_handler,
  add_group_handler, group_chat_handler, logout_handler,
}
use my_chat_project.Service.Invariant.{OnShared, shared_rules}
use my_chat_project.Service.Invariant.Handlers.{
  refuse_login-OnShared, dump_all-OnShared, friend_json-OnShared, group_json-OnShared,
  deliver-OnShared, set_conns-OnShared, erase_user-P, handle_redis_subscribe_message-OnShared,
}
use my_chat_project.ChatServer.Threads.Account.{
  take_offline_thread, read_lists_thread, login_fields_thread, accept_login_thread, login_thread,
  reg_thread, logout_thread, close_thread, erase_connection, forget_user_thread,
}
use my_chat_project.ChatServer.Threads.Chat.{
  one_chat_thread, group_chat_thread, chat_remote_thread, chat_to_database_thread, send_here,
  answer_here,
}
use my_chat_project.ChatServer.Threads.Tasks.{
  add_friend_thread, create_group_thread, add_group_thread, db_thread, pop_task, popped,
  perform_thread,
}
use my_chat_project.ChatServer.Threads.{
  Call, request, closed, published, db_round, thread_of, handler_thread,
}
use Handlers.{
  accept_login-Guarded, reg-Guarded, logout-Guarded, close-Guarded, one_chat-Guarded,
  group_chat-Guarded, add_friend-Guarded, create_group-Guarded, add_group-Guarded, db-Guarded,
}

-- A request of login that may store its connection: some state of the database has a row with the
-- id and the password of the request that is not Online.
pub record Admitted {Json Db Rs G Ctx : Type 0} (x : Externals Json Db Rs G Ctx) (js : Json)
    (id : ℤ) : Type 0 where
  pub number : ℤ
  pub pwd : Str
  pub db : Db
  pub user : User
  pub number_read : x.json.number js "id" ≡ some number
  pub is_id : to_int number ≡ id
  pub pwd_read : x.json.text js "password" ≡ some pwd
  pub row : (UserModel.query_user x.mysql id db).0 ≡ ok user
  pub matches : credentials_match user id pwd ≡ true
  pub not_online : eq_str user.state online ≡ false

or_throw-ok :
    {S A : Type 0} (o : Option A) (a : A) (s : S)
    → (or_throw o json_exception s).0 ≡ ok a
    → o ≡ some a
or_throw-ok none a s e = cc
or_throw-ok (some b) a s e = cc

int-ok :
    {S : Type 0} (o : Option ℤ) (id : ℤ) (s : S)
    → (Exec.◌>>=◌ (or_throw o json_exception) (λ n. Exec.pure (to_int n)) s).0 ≡ ok id
    → (n : ℤ) × (o ≡ some n) × (to_int n ≡ id)
int-ok none id s e = cc
int-ok (some n) id s e = (n, refl, cc)

module _ {Json Db Rs G Ctx : Type 0} (x : Externals Json Db Rs G Ctx)
    (P : ConnMap → List DbTaskArgs → Type 0)
    (pushes : (m : ConnMap) (q : List DbTaskArgs) (t : DbTaskArgs) → P m q → P m (push t q)) where
  login_branch-Guarded :
      (conn : ℕ) (user : User) (id msg_id : ℤ) (pwd : Str)
      → ((m : ConnMap) (q : List DbTaskArgs)
          → credentials_match user id pwd ≡ true
          → eq_str user.state online ≡ false
          → P m q
          → P (insert id conn m) q)
      → Guarded {S = Server Db Rs G} (OnShared P) (
          if credentials_match user id pwd
          then if eq_str user.state online
            then Threads.atomic (refuse_login x conn 2 already_online msg_id)
            else accept_login_thread x conn user id msg_id
          else Threads.atomic (refuse_login x conn 1 wrong_password msg_id))
  login_branch-Guarded conn user id msg_id pwd inserts =
      elim (Bool-cases (credentials_match user id pwd)) [
        | inr wrong ↦ rw wrong (
            Guarded-atomic (OnShared P) _
              (refuse_login-OnShared x P pushes conn 1 wrong_password msg_id))
        | inl right ↦ rw right (elim (Bool-cases (eq_str user.state online)) [
          | inl up ↦ rw up (
              Guarded-atomic (OnShared P) _
                (refuse_login-OnShared x P pushes conn 2 already_online msg_id))
          | inr down ↦
              rw down (
                accept_login-Guarded x P pushes conn user id msg_id (λ m q. inserts m q right down))
        ])
      ]

  -- login, over a statement that the insertion keeps for the ids that a row admits.
  login-Guarded :
      (conn : ℕ) (js : Json)
      → ((id : ℤ) (m : ConnMap) (q : List DbTaskArgs)
          → Admitted x js id
          → P m q
          → P (insert id conn m) q)
      → Guarded {S = Server Db Rs G} (OnShared P) (login_thread x conn js)
  unfolding login_thread
  login-Guarded conn js inserts =
      Guarded-known (OnShared P) (get_int x js "id") _ (search shared_rules) λ id s0 e0.
        let (n, read, same) = int-ok (x.json.number js "id") id s0 e0 in
        Guarded-known (OnShared P) (get_text x js "password") _ (search shared_rules) λ pwd s1 e1.
          Guarded-bind (OnShared P) (Threads.atomic (get_int x js "msgId")) _
            (search (guarded_rules, shared_rules))
            λ msg_id.
              Guarded-known (OnShared P) (on_db (UserModel.query_user x.mysql id)) _
                (search shared_rules)
                λ user s2 e2.
                  Guarded-bind (OnShared P) _ _
                    (login_branch-Guarded conn user id msg_id pwd (λ m q right down.
                      inserts id m q (record {
                        number = n;
                        pwd = pwd;
                        db = s2.db;
                        user = user;
                        number_read = read;
                        is_id = same;
                        pwd_read = or_throw-ok (x.json.text js "password") pwd s1 e1;
                        row = e2;
                        matches = right;
                        not_online = down;
                      })))
                    (λ _. search (guarded_rules, shared_rules))

  -- The threads of the server, over a statement that pushing and popping a task, erasing a user and
  -- the insertions of the call keep.
  pub thread_of-Guarded :
      (c : Call Json)
      → ((id : ℤ) (m : ConnMap) (q : List DbTaskArgs) → P m q → P (erase id m) q)
      → ((m : ConnMap) (t : DbTaskArgs) (q : List DbTaskArgs) → P m (t ∷ q) → P m q)
      → ((conn : ℕ) (js : Json) (id : ℤ) (m : ConnMap) (q : List DbTaskArgs)
          → c ≡ request login_handler conn js
          → Admitted x js id
          → P m q
          → P (insert id conn m) q)
      → Guarded {S = Server Db Rs G} (OnShared P) (thread_of x c)
  unfolding thread_of handler_thread
  thread_of-Guarded (request login_handler conn js) erases pops inserts =
      login-Guarded conn js (λ id m q. inserts conn js id m q refl)
  thread_of-Guarded (request reg_handler conn js) erases pops inserts =
      reg-Guarded x P pushes conn js
  thread_of-Guarded (request one_chat_handler conn js) erases pops inserts =
      one_chat-Guarded x P pushes conn js
  thread_of-Guarded (request add_friend_handler conn js) erases pops inserts =
      add_friend-Guarded x P pushes conn js
  thread_of-Guarded (request create_group_handler conn js) erases pops inserts =
      create_group-Guarded x P pushes conn js
  thread_of-Guarded (request add_group_handler conn js) erases pops inserts =
      add_group-Guarded x P pushes conn js
  thread_of-Guarded (request group_chat_handler conn js) erases pops inserts =
      group_chat-Guarded x P pushes conn js
  thread_of-Guarded (request logout_handler conn js) erases pops inserts =
      logout-Guarded x P pushes conn js erases
  thread_of-Guarded (closed conn) erases pops inserts = close-Guarded x P pushes conn erases
  thread_of-Guarded (published userid msg) erases pops inserts =
      Guarded-atomic (OnShared P) _ (handle_redis_subscribe_message-OnShared x P pushes userid msg)
  thread_of-Guarded db_round erases pops inserts = db-Guarded x P pushes pops
