-- ===== src/Tests/Threads.antt =====
-- The threads of the server at concrete inputs.
use my_chat_project.Prelude.{
  ◌≡◌, refl, some, List, [], ◌∷◌, pos, to_int, to_string, digits, atoi, c_str, eq_str, eq_int,
}
use my_chat_project.Exec.Threads.Pool.{Choice, begin, turn, run_pool, choose, step_at, step_thread}
use my_chat_project.Db.UserModel
use my_chat_project.Redis
use my_chat_project.Service.Conns
use my_chat_project.Service.Account.{credentials_match}
use my_chat_project.Service.Dispatch.{login_handler}
use my_chat_project.ChatServer.Threads.Account.{login_thread, accept_login_thread}
use my_chat_project.ChatServer.Threads.{Call, request, db_round, thread_of, handler_thread}
use my_chat_project.Tests.Toys.{Fields, value_of, as_number, as_text, server_libraries}
use my_chat_project.Tests.Server.{start, login_request}

-- A login in five steps, then a second one of the same user from another connection, and a round of
-- the database thread in between.
abbrev schedule : List (Choice (Call Fields))
schedule =
    begin (request login_handler 10 login_request)
    ∷ turn 0
    ∷ turn 0
    ∷ turn 0
    ∷ turn 0
    ∷ turn 0
    ∷ begin (request login_handler 11 login_request)
    ∷ begin db_round
    ∷ turn 1
    ∷ turn 2
    ∷ turn 1
    ∷ turn 1
    ∷ turn 0
    ∷ turn 1
    ∷ turn 1
    ∷ []

-- The first six of these choices, and a step of the second login.
abbrev stored : List (Choice (Call Fields))
stored =
    begin (request login_handler 10 login_request)
    ∷ turn 0
    ∷ turn 0
    ∷ turn 0
    ∷ turn 0
    ∷ turn 0
    ∷ begin (request login_handler 11 login_request)
    ∷ turn 1
    ∷ []

first_stored :
    Conns.find
      (pos 2)
      (run_pool
        (thread_of server_libraries)
        stored
        (record { shared = start; threads = [] })).shared.conns
    ≡ some 10
unfolding run_pool choose step_at step_thread Conns.find Conns.insert thread_of handler_thread
    login_thread accept_login_thread as_number value_of eq_str as_text UserModel.query_user
    UserModel.query_sql to_string to_int digits credentials_match eq_int atoi c_str
first_stored = refl
