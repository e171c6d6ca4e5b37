-- ===== src/Exchange/Resent.antt =====
-- src/client/main.cpp, encryptedMessage, checkTimeOutAndResend, readTaskHandler and onReceiveAck;
-- src/server/chatserver.cpp, onMessage: a private message whose frame arrives any number of times.
use my_chat_project.Prelude.{ℕ, zero, suc, ◌≡◌, true, none, Str, List, [], ◌∷◌}
use my_chat_project.Exec.{ok}
use my_chat_project.Externals.{Externals, ClientExternals, SocketLib, SqliteLib}
use my_chat_project.Service.{Server}
use my_chat_project.Service.Conns
use my_chat_project.ChatServer.{on_message}
use my_chat_project.Client.{Client, Now, Line}
use my_chat_project.Client.Pending
use my_chat_project.Client.Receive.{read_task}

-- The frames that an answer to each arrival puts on the receiver's and on the sender's connection.
abbrev pub traffic : ℕ → ℕ → List (Str × Str) → List (ℕ × Str)
traffic peer conn [] = []
traffic peer conn ((bytes, ack) ∷ answers) = (peer, bytes) ∷ (conn, ack) ∷ traffic peer conn answers

-- A line shown so many times.
abbrev pub copies : ℕ → Line → List Line
copies zero line = []
copies (suc k) line = line ∷ copies k line

module _ {Json G Ctx K Q : Type 0} (y : ClientExternals Json G Ctx K Q) where
  -- The receiver's rounds on frames that arrive one by one.
  abbrev pub receive_each : List (Str × Str) → Now → Client G K Q → Client G K Q
  receive_each [] now c = c
  receive_each ((bytes, ack) ∷ answers) now c = receive_each answers now (read_task y bytes now c).1

  -- Each ACK by itself is taken well, and no message waits under the id afterwards.
  abbrev pub EachEnds : ℕ → Now → Client G K Q → List (Str × Str) → Type 0
  EachEnds id now a [] = Unit {0}
  EachEnds id now a ((bytes, ack) ∷ answers) =
      ((read_task y ack now a).0 ≡ ok true)
      × (Pending.find id (read_task y ack now a).1.wait_ack ≡ none)
      × (Pending.find id (read_task y ack now a).1.retry_count ≡ none)
      × (Pending.find id (read_task y ack now a).1.send_time ≡ none)
      × EachEnds id now a answers

module _ {Json Db Rs G Ctx K Q : Type 0} (x : Externals Json Db Rs G Ctx) (socket : SocketLib K)
    (sqlite : SqliteLib Q) where
  -- The server after so many arrivals of one frame on a connection.
  abbrev pub arrivals : ℕ → ℕ → Str → Server Db Rs G → Server Db Rs G
  arrivals zero conn request s = s
  arrivals (suc k) conn request s = arrivals k conn request (on_message x conn request s).1
