-- ===== src/Tests/Lost.antt =====
-- The loss of a stored message at concrete inputs.
use my_chat_project.Prelude.{
  arith, ℕ, ◌≡◌, refl, true, if◌then◌else◌, ◌==◌, get_or, some, List, [], ◌∷◌, ◌+◌, zero, suc,
  Option, pos, to_int, to_string, digits, atoi, c_str, codes, eq_str, eq_int, Str,
}
use my_chat_project.Exec.{ok}
use my_chat_project.Exec.Threads.Pool.{Pool, run_pool}
use my_chat_project.Externals.{MysqlLib, Externals}
use my_chat_project.Model.{online}
use my_chat_project.Exec.Threads
use my_chat_project.Db.{run_update}
use my_chat_project.Db.UserModel
use my_chat_project.Db.OfflineMsgModel
use my_chat_project.Service.{Server, offline_task, state_task}
use my_chat_project.Service.Account.{credentials_match, is_empty}
use my_chat_project.ChatServer.Threads.{thread_of}
use my_chat_project.ChatServer.Threads.Lost.{overtaken, rest_of_login, run_pool-lost}
use my_chat_project.Tests.Toys.{Fields, value_of, as_number, as_text, json, redis, evp, ann_row}
use my_chat_project.Tests.Server.{login_request, ann}

-- A database of users and of one user's messages: the number of those, and the last statement.
abbrev Messages : Type 0
Messages = ℕ × Str

abbrev count_after : ℕ → ℕ → ℕ
count_after verb n = if verb == b'd' then 0 else if verb == b'i' then n + 1 else n

abbrev rows : ℕ → List (List (Option Str))
rows zero = []
rows (suc n) = (some (codes "m") ∷ []) ∷ rows n

abbrev message_store : MysqlLib Messages
message_store = record {
  real_connect = λ db. (true, db);
  query = λ sql db. (true, (count_after (get_or sql 0 0) db.0, sql));
  use_result = λ db. (if get_or db.1 7 0 == 42 then some (ann_row ∷ []) else some (rows db.0), db);
  insert_id = λ db. pos 5;
}

abbrev server : Externals Fields Messages ℕ ℕ (Unit {0})
server = record { json = json; mysql = message_store; redis = redis; evp = evp }

-- One message is stored.
abbrev start : Server Messages ℕ ℕ
start = record { conns = []; db = (1, []); redis = 0; rng = 0; tasks = []; sent = []; shut = [] }

run_pool-lost_example :
    (p : Pool (Server Messages ℕ ℕ)) × (run_pool
        (thread_of server)
        (overtaken server 10 login_request)
        (record {
          shared = record start { tasks = offline_task server (to_int (pos 2)) (codes "new") ∷ [] };
          threads = [];
        })
      ≡ p)
    × (p.threads
        ≡ rest_of_login server 10 ann (to_int (pos 2)) (to_int (pos 8192)) (codes "m" ∷ [])
          ∷ Threads.done (ok tt)
          ∷ [])
    × (p.shared.tasks ≡ state_task server ann.id online ∷ [])
    × (p.shared.db ≡ (0, OfflineMsgModel.remove_sql (pos 2)))
unfolding value_of as_number as_text to_int eq_str UserModel.query_user UserModel.query_sql
    to_string digits atoi c_str credentials_match eq_int OfflineMsgModel.query_messages
    OfflineMsgModel.query_sql is_empty run_update OfflineMsgModel.remove_sql
run_pool-lost_example =
    run_pool-lost server 10 login_request (pos 2) (pos 8192) (codes "pw") (codes "new") ann
      (codes "m" ∷ []) [] start refl refl refl refl refl refl refl refl (omega arith)
