-- ===== src/Client.antt =====
-- src/client/main.cpp: the client's state. The two threads and the timeout thread share it without
-- a lock; each operation below is one step.
pub mod Pending
pub mod Reliable
pub mod Commands
pub mod Screen
pub mod Clock
pub mod Login
pub mod Receive
pub mod History
pub mod Retries
pub mod Session
use my_chat_project.Prelude.{ℕ, Bool, Option, List, [], ◌∷◌, ◌++◌, ℤ, Str, String, to_int}
use my_chat_project.Exec.{
  Exec, Outcome, ok, throws, undefined, continue, json_exception, pure, modify, or_throw, ◌>>=◌,
}
use my_chat_project.Externals.{ClientExternals, JsonLib}
use my_chat_project.Model.{User, Group}
use Pending.{Assoc}

-- What is shown: a private or group message with its time, its sender's name and its text
-- (the ids that are printed in brackets are left out), or a line
-- of showCurrentUserData.
pub data Line : Type 0 where
  chat_line : Str → Str → Str → Line
  group_line : Str → Str → Str → Line
  text_line : Str → Line

-- The globals of main.cpp, the outgoing side of the socket, and what is shown, oldest first. `wait_ack`, `retry_count` and `send_time` are g_waitAckMsgMap, g_retryCountMap and
-- g_sendTimeMap, `rwsem` is the value of the semaphore.
pub record Client (G K Q : Type 0) : Type 0 where
  pub current_user : User
  pub friends : List User
  pub groups : List Group
  pub wait_ack : Assoc Str
  pub retry_count : Assoc ℕ
  pub send_time : Assoc ℕ
  pub client_id : Str
  pub menu_running : Bool
  pub rwsem : ℕ
  pub login_success : Bool
  pub rng : G
  pub socket : K
  pub history : Q
  pub shown : List Line

-- The clocks at a step: seconds and milliseconds since the epoch, and the text of getCurrentTime.
pub record Now : Type 0 where
  pub seconds : ℕ
  pub millis : ℕ
  pub text : Str

module _ {G K Q : Type 0} where
  abbrev pub show_line : Line → Exec (Client G K Q) (Unit {0})
  show_line line = modify λ s. record s { shown = s.shown ++ line ∷ [] }
