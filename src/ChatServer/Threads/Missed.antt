-- ===== src/ChatServer/Threads/Missed.antt =====
-- oneChat between the steps of a login: the check of the connection map and the later check of the
-- user's row are not one section.
use my_chat_project.Prelude.{ℕ, List, [], ◌∷◌, ◌++◌, ℤ, to_int, to_u32, to_string, Str}
use my_chat_project.Exec.Threads.Pool.{Choice, begin, turn, run_pool}
use my_chat_project.Externals.{Externals}
use my_chat_project.Protocol.Frame.{encrypted_message_svr}
use my_chat_project.Model.{User}
use my_chat_project.Db.UserModel
use my_chat_project.Redis
use my_chat_project.Service.Conns
use my_chat_project.Service.{Server, offline_task}
use my_chat_project.Service.Dispatch.{login_handler, one_chat_handler}
use my_chat_project.ChatServer.Threads.{Call, request, thread_of}

module _ {Json Db Rs G Ctx : Type 0} (x : Externals Json Db Rs G Ctx) where
  -- The first six steps of oneChat, for a user whom neither the connection map nor redis knows.
  abbrev pub checked : List (Choice (Call Json))
  checked = turn 0 ∷ turn 0 ∷ turn 0 ∷ turn 0 ∷ turn 0 ∷ turn 0 ∷ []

  abbrev pub after_checks : ℤ → ℤ → Str → Server Db Rs G → Server Db Rs G
  after_checks toid msg_id text s = record s {
    redis = (Redis.get x.redis (to_string (to_int toid)) s.redis).1;
    rng = (encrypted_message_svr x.evp text 10 (to_u32 (to_int msg_id)) s.rng).1;
  }

  -- The rest of oneChat, for a user whose row is not Online.
  abbrev stored : ℕ → ℤ → Str → Str → User → Server Db Rs G → Server Db Rs G
  stored conn msg_id text ack_text user s =
      let (ack, g) = encrypted_message_svr x.evp ack_text 10 (to_u32 msg_id) s.rng in
      record s {
        db = (UserModel.query_user x.mysql user.id s.db).1;
        rng = g;
        tasks = s.tasks ++ offline_task x user.id text ∷ [];
        sent = s.sent ++ (conn, ack) ∷ [];
      }

  -- oneChat begins and makes its first six steps; then the login begins.
  abbrev pub race :
      ℕ → ℕ → Json → Json → List (Choice (Call Json)) → Server Db Rs G → Server Db Rs G
  race conn peer js ljs choices s =
      (run_pool (thread_of x)
        ((begin (request one_chat_handler conn js) ∷ checked)
          ++ begin (request login_handler peer ljs) ∷ choices)
        (record { shared = s; threads = [] })).shared
