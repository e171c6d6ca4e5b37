-- ===== src/Client/Reliable.antt =====
-- src/client/main.cpp: encryptedMessage, checkTimeOutAndResend and onReceiveAck.
use my_chat_project.Prelude.{
  ℕ, zero, suc, ◌+◌, Bool, true, false, Option, none, some, [], ◌∷◌, Str, length, drop, ltb, leb,
  if◌then◌else◌,
}
use my_chat_project.Exec.{Exec, pure}
use my_chat_project.Externals.{ClientExternals, SocketLib}
use my_chat_project.Protocol.Cipher.{aes256_cbc_encrypt, my_aes_key}
use my_chat_project.Protocol.Frame.{frame}
use my_chat_project.Client.Pending
use my_chat_project.Client.Pending.{Assoc}
use my_chat_project.Client.{Client, Now}

-- include/public.hpp
abbrev pub retry_max : ℕ
retry_max = 3

abbrev pub timeout_ms : ℕ
timeout_ms = 2000

-- The send loop: all bytes, or until send fails. A round takes at least one byte, so as many rounds
-- as there are bytes are enough; `none` would be an endless loop.
unfoldable pub send_all : {K : Type 0} → SocketLib K → ℕ → Str → K → Option Bool × K
send_all socket fuel [] k = (some true, k)
send_all socket zero (b ∷ bytes) k = (none, k)
send_all socket (suc fuel) (b ∷ bytes) k =
    let (len, k') = socket.send_bytes (b ∷ bytes) k in
    elim len [ none ↦ (some false, k') | some n ↦ send_all socket fuel (drop n (b ∷ bytes)) k' ]

module _ {Json G Ctx K Q : Type 0} (x : ClientExternals Json G Ctx K Q) where
  -- The three assignments that make a message wait for its ACK.
  unfoldable pub track : ℕ → Str → ℕ → Client G K Q → Client G K Q
  track msg_id bytes millis s = record s {
    wait_ack = Pending.put msg_id bytes s.wait_ack;
    retry_count = Pending.put msg_id 0 s.retry_count;
    send_time = Pending.put msg_id millis s.send_time;
  }

  -- A message that was not sent for lack of a ciphertext does not wait. The send loop does not run
  -- out of its fuel where send takes some of the bytes, so that `none` stands for a loop that would
  -- not end.
  unfoldable pub transmit : ℕ → ℕ → ℕ → Str → Exec (Client G K Q) Bool
  transmit msg_type msg_id millis [] s = pure false s
  transmit msg_type msg_id millis (b ∷ cipher) s =
      let bytes = frame (b ∷ cipher) msg_type msg_id in
      let (done, k) = send_all x.socket (length bytes) bytes s.socket in
      pure (elim done [ some true ↦ true | _ ↦ false ])
        (record (track msg_id bytes millis s) { socket = k })

  -- encryptedMessage
  unfoldable pub encrypted_message : Str → ℕ → ℕ → Now → Exec (Client G K Q) Bool
  encrypted_message msg msg_type msg_id now s =
      let (cipher, g) = aes256_cbc_encrypt x.evp msg my_aes_key s.rng in
      transmit msg_type msg_id now.millis cipher (record s { rng = g })

  -- The three maps without an id.
  unfoldable pub forget : ℕ → Client G K Q → Client G K Q
  forget msg_id s = record s {
    wait_ack = Pending.erase msg_id s.wait_ack;
    retry_count = Pending.erase msg_id s.retry_count;
    send_time = Pending.erase msg_id s.send_time;
  }

  unfoldable pub forget_if : Option Str → ℕ → Client G K Q → Client G K Q
  forget_if none msg_id s = s
  forget_if (some bytes) msg_id s = forget msg_id s

  -- onReceiveAck
  unfoldable pub on_receive_ack : ℕ → Client G K Q → Client G K Q
  on_receive_ack msg_id s = forget_if (Pending.find msg_id s.wait_ack) msg_id s

  -- One send of the whole message; only -1 counts as a failure.
  unfoldable pub resend : ℕ → Str → ℕ → Client G K Q → Client G K Q
  resend msg_id bytes now s =
      let (len, k) = x.socket.send_bytes bytes s.socket in
      elim len [
        | none ↦ record s { socket = k }
        | some n ↦ record s {
          socket = k;
          retry_count = Pending.put msg_id (Pending.read msg_id s.retry_count + 1) s.retry_count;
          send_time = Pending.put msg_id now s.send_time;
        }
      ]

  -- The reads of the two maps at the top of the loop's body.
  unfoldable pub touch_maps : ℕ → Client G K Q → Client G K Q
  touch_maps msg_id s = record s {
    retry_count = Pending.touch msg_id s.retry_count;
    send_time = Pending.touch msg_id s.send_time;
  }

  -- The body of checkTimeOutAndResend's loop; `now - sendTime > TIMEOUT_MS` with signed numbers.
  unfoldable pub check_message : ℕ → ℕ → Str → Client G K Q → Client G K Q
  check_message now msg_id bytes s =
      let t = touch_maps msg_id s in
      if ltb (Pending.read msg_id t.send_time + timeout_ms) now
      then if leb retry_max (Pending.read msg_id t.retry_count)
        then forget msg_id t
        else resend msg_id bytes now t
      else t

  -- The loop, over the entries that it meets; it erases no entry but the one that it is at.
  unfoldable pub check_messages : ℕ → Assoc Str → Client G K Q → Client G K Q
  check_messages now [] s = s
  check_messages now ((msg_id, bytes) ∷ entries) s =
      check_messages now entries (check_message now msg_id bytes s)

  -- checkTimeOutAndResend
  unfoldable pub check_time_out_and_resend : Now → Client G K Q → Client G K Q
  check_time_out_and_resend now s = check_messages now.millis s.wait_ack s
