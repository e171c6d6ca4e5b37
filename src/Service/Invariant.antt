-- ===== src/Service/Invariant.antt =====
-- src/server/chatservice.cpp: predicates of the connection map, and the actions that leave it alone.
pub mod Handlers
use my_chat_project.Prelude.{ℕ, ℤ, Str, List}
use my_chat_project.Exec.{Exec}
use my_chat_project.Exec.Keeps.{Keeps, keeps_rules}
use my_chat_project.Externals.{Externals}
use my_chat_project.Model.{DbTaskArgs}
use my_chat_project.DbTask.{push}
use my_chat_project.Service.Conns.{ConnMap}
use my_chat_project.Service.{
  on_heart_beat, ack_to_client, Server, send, shutdown, push_task, on_db, on_redis, on_rng,
  encrypt_frame, respond,
}

-- A statement about the connection map and the queue of database tasks alone.
abbrev pub OnShared :
    {Db Rs G : Type 0} → (ConnMap → List DbTaskArgs → Type 0) → Server Db Rs G → Type 0
OnShared P s = P s.conns s.tasks

module _ {Db Rs G : Type 0} (P : ConnMap → List DbTaskArgs → Type 0) where
  pub send-OnShared :
      (conn : ℕ) (bytes : Str) → Keeps {S = Server Db Rs G} (OnShared P) (send conn bytes)
  send-OnShared conn bytes = record { at = λ s h. h }

  pub shutdown-OnShared : (conn : ℕ) → Keeps {S = Server Db Rs G} (OnShared P) (shutdown conn)
  shutdown-OnShared conn = record { at = λ s h. h }

  pub push_task-OnShared :
      (t : DbTaskArgs)
      → ((m : ConnMap) (q : List DbTaskArgs) (t : DbTaskArgs) → P m q → P m (push t q))
      → Keeps {S = Server Db Rs G} (OnShared P) (push_task t)
  push_task-OnShared t pushes = record { at = λ s h. pushes s.conns s.tasks t h }

  pub on_db-OnShared :
      {A : Type 0} (m : Exec Db A) → Keeps {S = Server Db Rs G} (OnShared P) (on_db m)
  on_db-OnShared m = record { at = λ s h. h }

  pub on_redis-OnShared :
      {A : Type 0} (f : Rs → A × Rs) → Keeps {S = Server Db Rs G} (OnShared P) (on_redis f)
  on_redis-OnShared f = record { at = λ s h. h }

  pub on_rng-OnShared :
      {A : Type 0} (m : Exec G A) → Keeps {S = Server Db Rs G} (OnShared P) (on_rng m)
  on_rng-OnShared m = record { at = λ s h. h }

module _ {Json Db Rs G Ctx : Type 0} (x : Externals Json Db Rs G Ctx)
    (P : ConnMap → List DbTaskArgs → Type 0) where
  pub encrypt_frame-OnShared :
      (text : Str) (t : ℕ) (msg_id : ℤ) → Keeps (OnShared P) (encrypt_frame x text t msg_id)
  encrypt_frame-OnShared text t msg_id = record { at = λ s h. h }

  pub respond-OnShared :
      (conn : ℕ) (js : Json) (msg_id : ℤ) → Keeps (OnShared P) (respond x conn js msg_id)
  unfolding respond
  respond-OnShared conn js msg_id = search (keeps_rules, send-OnShared, encrypt_frame-OnShared)

  pub ack_to_client-OnShared :
      (conn : ℕ) (msg_id : ℤ) → Keeps (OnShared P) (ack_to_client x conn msg_id)
  unfolding ack_to_client
  ack_to_client-OnShared conn msg_id = respond-OnShared conn _ msg_id

  pub on_heart_beat-OnShared : (id : ℤ) → Keeps (OnShared P) (on_heart_beat x id)
  unfolding on_heart_beat
  on_heart_beat-OnShared id = search (keeps_rules, on_redis-OnShared)

pub ruleset shared_rules = (
  keeps_rules, send-OnShared, shutdown-OnShared, push_task-OnShared, on_db-OnShared,
  on_redis-OnShared, on_rng-OnShared, encrypt_frame-OnShared, respond-OnShared,
  ack_to_client-OnShared, on_heart_beat-OnShared,
)
