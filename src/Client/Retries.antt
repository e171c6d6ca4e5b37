-- ===== src/Client/Retries.antt =====
-- src/client/main.cpp: the three maps of waiting messages together.
pub mod Rounds
pub mod Sending
pub mod Order
pub mod Message
pub mod GiveUp
use my_chat_project.Prelude.{
  ℕ, ◌+◌, ◌≤◌, ◌<◌, ◌≡◌, ◌≢◌, refl, sym, ◌∙◌, ap, arith, Bool, Bool-cases, true, false, ◌||◌, inl,
  inr, Option, Option-cases, none, some, List, [], ◌∷◌, Str, ltb, leb, ◌==◌, if◌then◌else◌,
}
use my_chat_project.Externals.{ClientExternals, SocketLib}
use my_chat_project.Client.{Client, Now}
use my_chat_project.Client.Pending
use my_chat_project.Client.Pending.{Assoc, keys}
use my_chat_project.Client.Pending.Keys.{
  has, put_key, erase_key, keys-put, keys-erase, keys-touch, find-erase_self, find-none_of_keys,
  has-find-none, put_key-has, has-erase_key_ne, Distinct, put_key-Distinct, erase_key-Distinct,
  AllLe, put-AllLe, erase-AllLe, touch-AllLe,
}
use my_chat_project.Client.Reliable.{
  retry_max, timeout_ms, track, transmit, encrypted_message, forget, forget_if, on_receive_ack,
  resend, touch_maps, check_message, check_messages, check_time_out_and_resend,
}

-- The three maps have the same ids, each once, and no count passes RETRY_MAX.
pub record Tracked (wait_ack : Assoc Str) (retry_count send_time : Assoc ℕ) : Type 0 where
  pub retries : keys retry_count ≡ keys wait_ack
  pub times : keys send_time ≡ keys wait_ack
  pub distinct : Distinct (keys wait_ack)
  pub bounded : AllLe retry_max retry_count

abbrev pub IsTracked : {G K Q : Type 0} → Client G K Q → Type 0
IsTracked s = Tracked s.wait_ack s.retry_count s.send_time

module _ {Json G Ctx K Q : Type 0} (x : ClientExternals Json G Ctx K Q) where
  track-IsTracked :
      (id : ℕ) (bytes : Str) (millis : ℕ) (s : Client G K Q)
      → IsTracked s
      → IsTracked (track x id bytes millis s)
  unfolding track
  track-IsTracked id bytes millis s v = record {
    retries =
        keys-put id 0 s.retry_count
        ∙ ap (put_key id) v.retries
        ∙ sym (keys-put id bytes s.wait_ack);
    times =
        keys-put id millis s.send_time
        ∙ ap (put_key id) v.times
        ∙ sym (keys-put id bytes s.wait_ack);
    distinct = rw (keys-put id bytes s.wait_ack) (put_key-Distinct id (keys s.wait_ack) v.distinct);
    bounded = put-AllLe 3 id 0 s.retry_count (omega arith) v.bounded;
  }

  pub forget-IsTracked : (id : ℕ) (s : Client G K Q) → IsTracked s → IsTracked (forget x id s)
  unfolding forget
  forget-IsTracked id s v = record {
    retries =
        keys-erase id s.retry_count ∙ ap (erase_key id) v.retries ∙ sym (keys-erase id s.wait_ack);
    times = keys-erase id s.send_time ∙ ap (erase_key id) v.times ∙ sym (keys-erase id s.wait_ack);
    distinct = rw (keys-erase id s.wait_ack) (erase_key-Distinct id (keys s.wait_ack) v.distinct);
    bounded = erase-AllLe 3 id s.retry_count v.bounded;
  }

  forget_if-IsTracked :
      (found : Option Str) (id : ℕ) (s : Client G K Q)
      → IsTracked s
      → IsTracked (forget_if x found id s)
  unfolding forget_if
  forget_if-IsTracked none id s v = v
  forget_if-IsTracked (some bytes) id s v = forget-IsTracked id s v

  -- onReceiveAck keeps the three maps on the same ids, each once, and every retry count at most
  -- RETRY_MAX.
  pub ack-IsTracked : (id : ℕ) (s : Client G K Q) → IsTracked s → IsTracked (on_receive_ack x id s)
  unfolding on_receive_ack
  ack-IsTracked id s v = forget_if-IsTracked _ id s v

  transmit-IsTracked :
      (t id millis : ℕ) (cipher : Str) (s : Client G K Q)
      → IsTracked s
      → IsTracked (transmit x t id millis cipher s).1
  unfolding transmit
  transmit-IsTracked t id millis [] s v = v
  transmit-IsTracked t id millis (b ∷ cipher) s v =
      let w = track-IsTracked id _ millis s v in
      record { retries = w.retries; times = w.times; distinct = w.distinct; bounded = w.bounded }

  -- encryptedMessage keeps the three maps on the same ids, each once, and every retry count at most
  -- RETRY_MAX, whether the message is sent, cannot be encrypted, or fails on the way.
  pub send-IsTracked :
      (msg : Str) (t id : ℕ) (now : Now) (s : Client G K Q)
      → IsTracked s
      → IsTracked (encrypted_message x msg t id now s).1
  unfolding encrypted_message
  send-IsTracked msg t id now s v =
      transmit-IsTracked t id now.millis _ _ (record {
        retries = v.retries;
        times = v.times;
        distinct = v.distinct;
        bounded = v.bounded;
      })

  -- After onReceiveAck for an id, none of the three maps has an entry for the id, where they kept the
  -- same ids before.
  pub find-on_receive_ack :
      (id : ℕ) (s : Client G K Q)
      → IsTracked s
      → (Pending.find id (on_receive_ack x id s).wait_ack ≡ none)
        × (Pending.find id (on_receive_ack x id s).retry_count ≡ none)
        × (Pending.find id (on_receive_ack x id s).send_time ≡ none)
  unfolding on_receive_ack forget_if forget
  find-on_receive_ack id s v = elim (Option-cases (Pending.find id s.wait_ack)) [
    | inr (bytes, e) ↦
        rw (e, on_receive_ack, forget_if)
          (
            find-erase_self id s.wait_ack _ refl v.distinct,
            find-erase_self id s.retry_count _ v.retries v.distinct,
            find-erase_self id s.send_time _ v.times v.distinct,
          )
    | inl e ↦
        let gone = has-find-none id s.wait_ack e in
        rw (e, on_receive_ack, forget_if)
          (
            e,
            find-none_of_keys id s.retry_count _ v.retries gone,
            find-none_of_keys id s.send_time _ v.times gone,
          )
  ]
