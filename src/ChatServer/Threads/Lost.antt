-- ===== src/ChatServer/Threads/Lost.antt =====
-- A login between its two statements about the offline messages: what the database thread stores
-- after the first is deleted by the second.
use my_chat_project.Prelude.{
  ◌≤◌, IsInt, length, c_str, ℕ, ◌≡◌, ◌∙◌, ap, refl, true, false, if◌then◌else◌, some, List, [], ◌∷◌,
  ◌++◌, ℤ, pos, to_int, to_string, to_int-IsInt, eq_str, Str,
}
use my_chat_project.Exec.{Outcome, ok}
use my_chat_project.Exec.Threads.{Thread, done, atomic, return, resume, ◌>>=◌, ◌>>◌}
use my_chat_project.Exec.Threads.Pool.{
  Pool, Choice, begin, turn, step_thread, step_at, choose, run_pool, run_pool-append,
}
use my_chat_project.Externals.{Externals}
use my_chat_project.Model.{User, DbTaskArgs, online}
use my_chat_project.Db.UserModel
use my_chat_project.Db.OfflineMsgModel
use my_chat_project.Db.{run_update}
use my_chat_project.Db.Bounds.{remove-ok, insert-run_update, remove-run_update}
use my_chat_project.DbTask.{push, pop, perform, perform_as}
use my_chat_project.Redis
use my_chat_project.Service.Conns
use my_chat_project.Service.{Server, on_db, respond, ack_to_client, offline_task, state_task}
use my_chat_project.Service.Account.{credentials_match, is_empty}
use my_chat_project.Service.Dispatch.{login_handler}
use my_chat_project.ChatServer.Threads.Account.{
  login_thread, accept_login_thread, login_fields_thread, take_offline_thread, read_lists_thread,
}
use my_chat_project.ChatServer.Threads.Tasks.{db_thread, pop_task, popped, perform_thread}
use my_chat_project.ChatServer.Threads.{Call, request, db_round, thread_of, handler_thread}

module _ {Json Db Rs G Ctx : Type 0} (x : Externals Json Db Rs G Ctx) where
  -- What is left of a login that has read these messages.
  abbrev pub rest_of_login : ℕ → User → ℤ → ℤ → List Str → Thread (Server Db Rs G) (Unit {0})
  rest_of_login conn user id msg_id messages =
      (read_lists_thread x user id msg_id messages >>= λ fields.
      atomic (respond x conn (x.json.object fields) msg_id))
      >> atomic (ack_to_client x conn msg_id)

  abbrev acked : ℕ → ℤ → Thread (Server Db Rs G) (Unit {0}) → Thread (Server Db Rs G) (Unit {0})
  acked conn msg_id t = t >> atomic (ack_to_client x conn msg_id)

  -- The login up to the test of the row.
  run_pool-admitted :
      (conn : ℕ) (js : Json) (id msg_id : ℤ) (pwd : Str) (user : User) (s : Server Db Rs G)
      → x.json.number js "id" ≡ some id
      → x.json.text js "password" ≡ some pwd
      → x.json.number js "msgId" ≡ some msg_id
      → (UserModel.query_user x.mysql (to_int id) s.db).0 ≡ ok user
      → credentials_match user (to_int id) pwd ≡ true
      → eq_str user.state online ≡ false
      → run_pool
          (thread_of x)
          (begin (request login_handler conn js) ∷ turn 0 ∷ turn 0 ∷ turn 0 ∷ turn 0 ∷ [])
          (record { shared = s; threads = [] })
        ≡ record {
          shared = record s { db = (UserModel.query_user x.mysql (to_int id) s.db).1 };
          threads =
              acked conn
                (to_int msg_id)
                (accept_login_thread x conn user (to_int id) (to_int msg_id))
              ∷ [];
        }
  unfolding run_pool choose step_at step_thread thread_of handler_thread login_thread
  run_pool-admitted conn js id msg_id pwd user s e1 e2 e3 row right down =
      rw (e1, e2, e3, row, right, down) refl

  -- The login from the answer to its query of the messages on.
  abbrev taking : ℕ → User → ℤ → ℤ → Outcome (List Str) → Thread (Server Db Rs G) (Unit {0})
  taking conn user id msg_id r =
      (resume r (λ messages.
          (if is_empty messages
            then return tt
            else atomic (on_db (OfflineMsgModel.remove x.mysql id)))
          >> return messages)
        >>= read_lists_thread x user id msg_id)
      >>= λ fields. atomic (respond x conn (x.json.object fields) msg_id)

  abbrev entered : ℕ → ℤ → User → Server Db Rs G → Server Db Rs G
  entered conn id user s = record s {
    conns = Conns.insert id conn s.conns;
    redis =
        (Redis.set x.redis (to_string id) (to_string (pos 0)) 120
          (Redis.subscribe x.redis id s.redis).1).1;
    tasks = s.tasks ++ state_task x user.id online ∷ [];
    db = (OfflineMsgModel.query_messages x.mysql id s.db).1;
  }

  -- The login from the test of the row up to that query.
  run_pool-entered :
      (conn : ℕ) (id msg_id : ℤ) (user : User) (s : Server Db Rs G)
      → run_pool (thread_of x) (turn 0 ∷ turn 0 ∷ turn 0 ∷ turn 0 ∷ turn 0 ∷ []) (record {
        shared = s;
        threads = acked conn msg_id (accept_login_thread x conn user id msg_id) ∷ [];
      })
        ≡ record {
          shared = entered conn id user s;
          threads =
              acked conn msg_id
                (taking conn user id msg_id (OfflineMsgModel.query_messages x.mysql id s.db).0)
              ∷ [];
        }
  unfolding run_pool choose step_at step_thread accept_login_thread login_fields_thread
      take_offline_thread push
  run_pool-entered conn id msg_id user s = refl

  -- A round of the database thread, then the deletion.
  run_pool-deleted :
      (conn : ℕ) (id msg_id : ℤ) (msg : Str) (user : User) (old : List Str)
      (queue : List DbTaskArgs) (s : Server Db Rs G)
      → is_empty old ≡ false
      → (OfflineMsgModel.remove x.mysql id (perform x.mysql (offline_task x id msg) s.db).1).0
        ≡ ok tt
      → run_pool (thread_of x) (begin db_round ∷ turn 1 ∷ turn 1 ∷ turn 0 ∷ []) (record {
        shared = record s { tasks = offline_task x id msg ∷ queue };
        threads = acked conn msg_id (taking conn user id msg_id (ok old)) ∷ [];
      })
        ≡ record {
          shared = record s {
            tasks = queue;
            db =
                (OfflineMsgModel.remove x.mysql id
                  (perform x.mysql (offline_task x id msg) s.db).1).1;
          };
          threads =
              rest_of_login conn user id msg_id old
              ∷ done (perform x.mysql (offline_task x id msg) s.db).0
              ∷ [];
        }
  unfolding run_pool choose step_at step_thread thread_of db_thread pop_task popped pop
      perform_thread
  run_pool-deleted conn id msg_id msg user old queue s some_old deleted =
      let rest : Outcome (Unit {0}) → Thread (Server Db Rs G) (Unit {0}) = λ r. acked conn msg_id (
        (resume r (λ _. return old) >>= read_lists_thread x user id msg_id) >>= λ fields.
        atomic (respond x conn (x.json.object fields) msg_id)) in
      let stored = perform x.mysql (offline_task x id msg) s.db in
      rw (some_old) (
        ap
          (λ r. record {
            shared = record s {
              tasks = queue;
              db = (OfflineMsgModel.remove x.mysql id stored.1).1;
            };
            threads = rest r ∷ done stored.0 ∷ [];
          })
          deleted)

  -- The login up to the test of the row, then up to its query of the messages; a round of the
  -- database thread; the next step of the login.
  abbrev pub overtaken : ℕ → Json → List (Choice (Call Json))
  overtaken conn js =
      (begin (request login_handler conn js) ∷ turn 0 ∷ turn 0 ∷ turn 0 ∷ turn 0 ∷ [])
      ++ ((turn 0 ∷ turn 0 ∷ turn 0 ∷ turn 0 ∷ turn 0 ∷ [])
          ++ begin db_round ∷ turn 1 ∷ turn 1 ∷ turn 0 ∷ [])

  -- What performing the task does.
  perform-offline_task :
      (id : ℤ) (msg : Str) (db : Db)
      → IsInt id
      → length (c_str msg) ≤ 973
      → perform x.mysql (offline_task x id msg) db
        ≡ (ok tt, (run_update x.mysql (OfflineMsgModel.insert_sql id msg) db).1)
  unfolding perform perform_as
  perform-offline_task id msg db range short =
      rw (insert-run_update x.mysql id msg db range short) refl

  -- A stored message can be lost. Where the first task of the queue stores a message for a user who
  -- has other messages in the database, let a login of the user, with the password of a row that is
  -- not Online, run up to its query of the messages, then the database thread perform the task, and
  -- then the login go on by a step. The database has then run the statement that inserts the message
  -- and, next, the one that deletes all messages of the user, both behind the query; the login is
  -- left to answer with what the query gave; and the task is no longer in the queue, which has only
  -- the tasks behind it and that of the login. The fields of the request and the row can be read,
  -- and the message has at most 973 bytes.
  pub run_pool-lost :
      (conn : ℕ) (js : Json) (id msg_id : ℤ) (pwd msg : Str) (user : User) (old : List Str)
      (queue : List DbTaskArgs) (s : Server Db Rs G)
      → x.json.number js "id" ≡ some id
      → x.json.text js "password" ≡ some pwd
      → x.json.number js "msgId" ≡ some msg_id
      → (UserModel.query_user x.mysql (to_int id) s.db).0 ≡ ok user
      → credentials_match user (to_int id) pwd ≡ true
      → eq_str user.state online ≡ false
      → (OfflineMsgModel.query_messages x.mysql
          (to_int id)
          (UserModel.query_user x.mysql (to_int id) s.db).1).0
        ≡ ok old
      → is_empty old ≡ false
      → length (c_str msg) ≤ 973
      → (p : Pool (Server Db Rs G)) × (run_pool (thread_of x) (overtaken conn js) (record {
        shared = record s { tasks = offline_task x (to_int id) msg ∷ queue };
        threads = [];
      })
          ≡ p)
        × (p.threads ≡ rest_of_login conn user (to_int id) (to_int msg_id) old ∷ done (ok tt) ∷ [])
        × (p.shared.tasks ≡ queue ++ state_task x user.id online ∷ [])
        × (p.shared.db ≡ (
            let queried =
              (OfflineMsgModel.query_messages x.mysql
                (to_int id)
                (UserModel.query_user x.mysql (to_int id) s.db).1).1 in
            let stored =
              (run_update x.mysql (OfflineMsgModel.insert_sql (to_int id) msg) queried).1 in
            (run_update x.mysql (OfflineMsgModel.remove_sql (to_int id)) stored).1))
  run_pool-lost conn js id msg_id pwd msg user old queue s e1 e2 e3 row right down q some_old
        short =
      let start = record s { tasks = offline_task x (to_int id) msg ∷ queue } in
      let s1 = record start { db = (UserModel.query_user x.mysql (to_int id) s.db).1 } in
      let s2 = entered conn (to_int id) user s1 in
      let stored = perform x.mysql (offline_task x (to_int id) msg) s2.db in
      let performed = perform-offline_task (to_int id) msg s2.db (to_int-IsInt id) short in
      let login_begins =
        begin (request login_handler conn js) ∷ turn 0 ∷ turn 0 ∷ turn 0 ∷ turn 0 ∷ [] in
      let later : List (Choice (Call Json)) = begin db_round ∷ turn 1 ∷ turn 1 ∷ turn 0 ∷ [] in
      let up_to_query : List (Choice (Call Json)) =
        turn 0 ∷ turn 0 ∷ turn 0 ∷ turn 0 ∷ turn 0 ∷ [] in
      (
        _,
        run_pool-append (thread_of x) login_begins (up_to_query ++ later)
              (record { shared = start; threads = [] })
            ∙ ap (run_pool (thread_of x) (up_to_query ++ later))
                (run_pool-admitted conn js id msg_id pwd user start e1 e2 e3 row right down)
            ∙ run_pool-append (thread_of x) up_to_query later (record {
              shared = s1;
              threads =
                  acked conn (to_int msg_id)
                    (accept_login_thread x conn user (to_int id) (to_int msg_id))
                  ∷ [];
            })
            ∙ ap (run_pool (thread_of x) later) (
                run_pool-entered conn (to_int id) (to_int msg_id) user s1
                ∙ ap
                    (λ r. record {
                      shared = s2;
                      threads =
                          acked conn (to_int msg_id)
                            (taking conn user (to_int id) (to_int msg_id) r)
                          ∷ [];
                    })
                    q)
            ∙ run_pool-deleted conn (to_int id) (to_int msg_id) msg user old
                (queue ++ state_task x user.id online ∷ []) s2 some_old
                (remove-ok x.mysql (to_int id) stored.1 (to_int-IsInt id)),
        ap (λ r. rest_of_login conn user (to_int id) (to_int msg_id) old ∷ done r ∷ [])
            (ap (λ (p : Outcome (Unit {0}) × Db). p.0) performed),
        refl,
        ap (λ (p : Outcome (Unit {0}) × Db). p.1)
              (remove-run_update x.mysql (to_int id) stored.1 (to_int-IsInt id))
            ∙ ap
                (λ (p : Outcome (Unit {0}) × Db).
                  (run_update x.mysql (OfflineMsgModel.remove_sql (to_int id)) p.1).1)
                performed,
      )
