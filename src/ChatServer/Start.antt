-- ===== src/ChatServer/Start.antt =====
-- src/server/main.cpp, the constructor of ChatService (src/server/chatservice.cpp) and what it
-- starts: the process from the making of its one ChatService, which the first call of instance()
-- makes, to its end. An exception that leaves a callback or a thread ends the process; so does
-- undefined behaviour.
use my_chat_project.Prelude.{
  ℕ, ◌%◌, ◌^◌, Bool, Option, none, some, List, [], ◌∷◌, Str, codes, atoi, to_u32, if◌then◌else◌,
}
use my_chat_project.Exec.{Exec, Outcome, ok, throws, undefined, pure}
use my_chat_project.Externals.{Externals}
use my_chat_project.Redis
use my_chat_project.Service.{Server}
use my_chat_project.Service.Account.{reset}
use my_chat_project.ChatServer.Events.{
  Event, message, connection, redis_reply, db_round, handle_event,
}

-- The address that main listens on, for the arguments behind the program's name; `none` where it
-- exits.
unfoldable pub listen_address : List Str → Option (Str × ℕ)
listen_address (ip ∷ port ∷ more) = some (codes "127.0.0.1", to_u32 (atoi port) % 2 ^ 16)
listen_address _ = none

-- `threads` says that the listening thread and the database thread run.
pub record Process (Db Rs G : Type 0) : Type 0 where
  pub server : Server Db Rs G
  pub threads : Bool

-- Events of the callbacks and the threads, and SIGINT.
pub data Happening : Type 0 where
  happens : Event → Happening
  interrupt : Happening

-- How far the process has come.
pub data Stage (Db Rs G : Type 0) : Type 0 where
  running : Process Db Rs G → Stage Db Rs G
  exited : Server Db Rs G → Stage Db Rs G
  crashed : Server Db Rs G → Stage Db Rs G

module _ {Db Rs G : Type 0} where
  unfoldable pub after_event : Bool → Outcome (Unit {0}) × Server Db Rs G → Stage Db Rs G
  after_event threads (ok u, s) = running (record { server = s; threads = threads })
  after_event threads (throws e, s) = crashed s
  after_event threads (undefined, s) = crashed s

  unfoldable pub after_reset : Outcome (Unit {0}) × Server Db Rs G → Stage Db Rs G
  after_reset (ok u, s) = exited s
  after_reset (throws e, s) = crashed s
  after_reset (undefined, s) = crashed s

module _ {Json Db Rs G Ctx : Type 0} (x : Externals Json Db Rs G Ctx) where
  -- ChatService::ChatService: both threads run only where redis could be connected to.
  unfoldable pub construct : Server Db Rs G → Process Db Rs G
  construct s =
      let (up, rs) = Redis.connect x.redis s.redis in
      record { server = record s { redis = rs }; threads = up }

  -- A round of a thread that does not run does not happen. Where redis could not be connected to, a
  -- context is null, and what hiredis does with it is that of the parameter; the code calls it all the
  -- same, and hiredis does not document it.
  unfoldable pub process_event : Event → Bool → Exec (Server Db Rs G) (Unit {0})
  process_event (message conn buf) threads = handle_event x (message conn buf)
  process_event (connection conn up) threads = handle_event x (connection conn up)
  process_event redis_reply threads = if threads then handle_event x redis_reply else pure tt
  process_event db_round threads = if threads then handle_event x db_round else pure tt

  -- resetHandler: reset and exit.
  unfoldable pub process_step : Happening → Process Db Rs G → Stage Db Rs G
  process_step (happens e) p = after_event p.threads (process_event e p.threads p.server)
  process_step interrupt p = after_reset (reset x p.server)

  unfoldable pub process_run : List Happening → Process Db Rs G → Stage Db Rs G
  process_run [] p = running p
  process_run (h ∷ happenings) p = elim (process_step h p) [
    | running p' ↦ process_run happenings p'
    | exited s ↦ exited s
    | crashed s ↦ crashed s
  ]
