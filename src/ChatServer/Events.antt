-- ===== src/ChatServer/Events.antt =====
-- The server over its events: bytes and state changes of connections, rounds of the thread that
-- listens to redis and of the database thread. What a handler throws ends the event; what it wrote
-- stays. The program ends at an exception that nothing catches, so it has only a part of these
-- histories.
pub mod Connections
use my_chat_project.Prelude.{ℕ, Bool, Option, none, some, List, [], ◌∷◌, ℤ, Str}
use my_chat_project.Exec.{Exec, zoom, pure, ◌>>=◌}
use my_chat_project.Externals.{Externals}
use my_chat_project.DbTask
use my_chat_project.Redis
use my_chat_project.Service.{Server, on_redis}
use my_chat_project.Service.Chat.{handle_redis_subscribe_message}
use my_chat_project.ChatServer.{on_message, on_connection}

pub data Event : Type 0 where
  message : ℕ → Str → Event
  connection : ℕ → Bool → Event
  redis_reply : Event
  db_round : Event

module _ {Json Db Rs G Ctx : Type 0} (x : Externals Json Db Rs G Ctx) where
  -- A round of dbWork on the server's queue and database.
  unfoldable pub db_work : Exec (Server Db Rs G) (Unit {0})
  db_work =
      zoom (λ s. record { queue = s.tasks; db = s.db })
        (λ w s. record s { tasks = w.queue; db = w.db }) (DbTask.work_once x.mysql)

  -- The handler that the constructor of ChatService registers for the messages from redis.
  unfoldable pub notify : Option (ℤ × Str) → Exec (Server Db Rs G) (Unit {0})
  notify none = pure tt
  notify (some (userid, msg)) = handle_redis_subscribe_message x userid msg

  -- A round of the thread that listens to redis.
  unfoldable pub observer_round : Exec (Server Db Rs G) (Unit {0})
  observer_round = do found ← on_redis (Redis.observe x.redis); notify found

  unfoldable pub handle_event : Event → Exec (Server Db Rs G) (Unit {0})
  handle_event (message conn buf) = on_message x conn buf
  handle_event (connection conn up) = on_connection x conn up
  handle_event redis_reply = observer_round
  handle_event db_round = db_work

  unfoldable pub run : List Event → Server Db Rs G → Server Db Rs G
  run [] s = s
  run (e ∷ events) s = run events (handle_event e s).1
