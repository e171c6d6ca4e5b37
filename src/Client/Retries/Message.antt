-- ===== src/Client/Retries/Message.antt =====
-- One waiting message, seen apart from the maps: what checkTimeOutAndResend does with it when its loop
-- meets it.
pub mod Apart
pub mod Round
pub mod Sent
use my_chat_project.Prelude.{
  ℕ, ◌+◌, ◌≡◌, ◌≢◌, ◌⊎◌, refl, sym, ◌∙◌, ap, arith, Bool-cases, false, inl, inr, Option,
  Option-cases, none, some, [], ◌∷◌, Str, ltb, leb, ◌==◌, ==_iff, if◌then◌else◌,
}
use my_chat_project.Externals.{ClientExternals, SocketLib}
use my_chat_project.Client.{Client, Now}
use my_chat_project.Client.Pending.{Assoc, keys, find, erase, touch, read}
use my_chat_project.Client.Pending.Keys.{
  has, Distinct, keys-erase, erase_key-Distinct, find-erase_self, has-find-none,
}
use my_chat_project.Client.Pending.Lookup.{
  find-erase_ne, read-touch_self, read-put_self, read-put_ne, read-erase_ne, read-touch_ne,
}
use my_chat_project.Client.Reliable.{
  retry_max, timeout_ms, forget, resend, touch_maps, check_message, check_messages,
  check_time_out_and_resend,
}

-- A message that waits for its ACK: its bytes, how often it was resent, and when it was sent last.
pub record Message : Type 0 where
  pub bytes : Str
  pub count : ℕ
  pub since : ℕ

-- A round at the time `now`, where sending works: nothing before the timeout, then a resend, or the
-- end of the message after the last.
unfoldable pub step : ℕ → Option Message → Option Message
step now none = none
step now (some m) =
    if ltb (m.since + timeout_ms) now
    then (if leb retry_max m.count
        then none
        else some (record { bytes = m.bytes; count = m.count + 1; since = now }))
    else some m

-- send(2) does not fail.
abbrev pub Sends : {K : Type 0} → SocketLib K → Type 0
Sends {K} socket = (bytes : Str) (k : K) → (socket.send_bytes bytes k).0 ≢ none

unfoldable pub message_of : Option Str → ℕ → ℕ → Option Message
message_of none count since = none
message_of (some bytes) count since = some (record { bytes = bytes; count = count; since = since })

module _ {G K Q : Type 0} where
  -- The message under an id.
  unfoldable pub waiting : ℕ → Client G K Q → Option Message
  waiting id s = message_of (find id s.wait_ack) (read id s.retry_count) (read id s.send_time)

module _ {Json G Ctx K Q : Type 0} (x : ClientExternals Json G Ctx K Q) where
  -- A round of the loop for a message does with it what `step` says.
  pub waiting-check_message :
      (now id : ℕ) (bytes : Str) (s : Client G K Q)
      → Sends x.socket
      → Distinct (keys s.wait_ack)
      → find id s.wait_ack ≡ some bytes
      → waiting id (check_message x now id bytes s) ≡ step now (waiting id s)
  unfolding waiting message_of step check_message touch_maps forget resend
  waiting-check_message now id bytes s sends d f =
      let count = read-touch_self id s.retry_count in
      let since = read-touch_self id s.send_time in
      elim (Bool-cases (ltb (read id s.send_time + timeout_ms) now)) [
        | inr young ↦ rw (since, young, check_message) (rw (f, count, since) (rw young refl))
        | inl old ↦ elim (Bool-cases (leb retry_max (read id s.retry_count))) [
          | inl many ↦
              rw (since, old, count, many, check_message)
                (rw (find-erase_self id s.wait_ack _ refl d, f) (rw (old, many) refl))
          | inr few ↦ elim (Option-cases (x.socket.send_bytes bytes s.socket).0) [
            | inl failed ↦ absurd (sends bytes s.socket failed)
            | inr (n, sent) ↦
                rw (since, old, count, few, check_message)
                  (rw (sent, resend)
                    (rw
                      (
                        f,
                        count,
                        read-put_self id (read id s.retry_count + 1) (touch id s.retry_count),
                        read-put_self id now (touch id s.send_time),
                      )
                      (rw (old, few) refl)))
          ]
        ]
      ]
