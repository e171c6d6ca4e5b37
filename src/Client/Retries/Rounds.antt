-- ===== src/Client/Retries/Rounds.antt =====
-- src/client/main.cpp, checkTimeOutAndResend: what a round does to the three maps together.
use my_chat_project.Prelude.{
  ℕ, ◌+◌, ◌≡◌, ◌≢◌, refl, ◌∙◌, ap, arith, Bool-cases, true, false, inl, inr, Option-cases, List, [],
  ◌∷◌, Str, ltb, leb,
}
use my_chat_project.Externals.{ClientExternals}
use my_chat_project.Client.{Client, Now}
use my_chat_project.Client.Pending
use my_chat_project.Client.Pending.{Assoc, keys}
use my_chat_project.Client.Pending.Keys.{
  has, put_key, erase_key, keys-put, keys-erase, keys-touch, put_key-has, has-erase_key_ne,
  Distinct, put-AllLe, touch-AllLe,
}
use my_chat_project.Client.Reliable.{
  retry_max, timeout_ms, forget, resend, touch_maps, check_message, check_messages,
  check_time_out_and_resend,
}
use my_chat_project.Client.Retries.{IsTracked, forget-IsTracked}

module _ {Json G Ctx K Q : Type 0} (x : ClientExternals Json G Ctx K Q) where
  touch-IsTracked :
      (id : ℕ) (s : Client G K Q)
      → has id (keys s.wait_ack) ≡ true
      → IsTracked s
      → IsTracked (touch_maps x id s)
  unfolding touch_maps
  touch-IsTracked id s h v = record {
    retries = keys-touch id s.retry_count ∙ ap (put_key id) v.retries ∙ put_key-has id _ h;
    times = keys-touch id s.send_time ∙ ap (put_key id) v.times ∙ put_key-has id _ h;
    distinct = v.distinct;
    bounded = touch-AllLe 3 id s.retry_count v.bounded;
  }

  resend-IsTracked :
      (id : ℕ) (bytes : Str) (now : ℕ) (s : Client G K Q)
      → has id (keys s.wait_ack) ≡ true
      → leb retry_max (Pending.read id s.retry_count) ≡ false
      → IsTracked s
      → IsTracked (resend x id bytes now s)
  unfolding resend
  resend-IsTracked id bytes now s h few v =
      elim (Option-cases (x.socket.send_bytes bytes s.socket).0) [
        | inl e ↦
            rw (e, resend)
              (record {
                retries = v.retries;
                times = v.times;
                distinct = v.distinct;
                bounded = v.bounded;
              })
        | inr (n, e) ↦
            rw (e, resend)
              (record {
                retries =
                    keys-put id _ s.retry_count ∙ ap (put_key id) v.retries ∙ put_key-has id _ h;
                times = keys-put id now s.send_time ∙ ap (put_key id) v.times ∙ put_key-has id _ h;
                distinct = v.distinct;
                bounded = put-AllLe 3 id _ s.retry_count (ground arith) v.bounded;
              })
      ]

  keys-touch_maps :
      (id : ℕ) (s : Client G K Q) → keys (touch_maps x id s).wait_ack ≡ keys s.wait_ack
  unfolding touch_maps
  keys-touch_maps id s = refl

  keys-forget :
      (id : ℕ) (s : Client G K Q) → keys (forget x id s).wait_ack ≡ erase_key id (keys s.wait_ack)
  unfolding forget
  keys-forget id s = keys-erase id s.wait_ack

  keys-resend :
      (id : ℕ) (bytes : Str) (now : ℕ) (s : Client G K Q)
      → keys (resend x id bytes now s).wait_ack ≡ keys s.wait_ack
  unfolding resend
  keys-resend id bytes now s = elim (Option-cases (x.socket.send_bytes bytes s.socket).0) [
    | inl e ↦ rw (e, resend)
    | inr (n, e) ↦ rw (e, resend)
  ]

  -- A round of the loop keeps the invariant, and all other ids.
  abbrev Stays : ℕ → Client G K Q → Client G K Q → Type 0
  Stays id s t =
      IsTracked t
      × ((other : ℕ)
          → id ≢ other
          → has other (keys s.wait_ack) ≡ true
          → has other (keys t.wait_ack) ≡ true)

  check_message-Stays :
      (now id : ℕ) (bytes : Str) (s : Client G K Q)
      → has id (keys s.wait_ack) ≡ true
      → IsTracked s
      → Stays id s (check_message x now id bytes s)
  unfolding check_message
  check_message-Stays now id bytes s h v =
      let t = touch_maps x id s in
      let vt = touch-IsTracked id s h v in
      let same = keys-touch_maps id s in
      let ht : has id (keys t.wait_ack) ≡ true = rw same h in
      elim (Bool-cases (ltb (Pending.read id t.send_time + timeout_ms) now)) [
        | inr young ↦ rw (young, check_message) (vt, λ other n p. rw same p)
        | inl old ↦ elim (Bool-cases (leb retry_max (Pending.read id t.retry_count))) [
          | inl many ↦
              rw (old, many, check_message)
                (
                  forget-IsTracked x id t vt,
                  λ other n p.
                      rw (keys-forget id t)
                        (has-erase_key_ne id other (keys t.wait_ack) n (rw same p)),
                )
          | inr few ↦
              rw (old, few, check_message)
                (
                  resend-IsTracked id bytes now t ht few vt,
                  λ other n p. rw (keys-resend id bytes now t) (rw same p),
                )
        ]
      ]

  -- All of these ids wait.
  abbrev Waiting : List ℕ → Client G K Q → Type 0
  Waiting [] s = Unit {0}
  Waiting (id ∷ ids) s = (has id (keys s.wait_ack) ≡ true) × Waiting ids s

  Waiting-Stays :
      (id : ℕ) (ids : List ℕ) (s t : Client G K Q)
      → has id ids ≡ false
      → ((other : ℕ)
          → id ≢ other
          → has other (keys s.wait_ack) ≡ true
          → has other (keys t.wait_ack) ≡ true)
      → Waiting ids s
      → Waiting ids t
  unfolding has
  Waiting-Stays id [] s t n stays w = tt
  Waiting-Stays id (k ∷ ids) s t n stays w =
      (stays k (ground arith) w.0, Waiting-Stays id ids s t (ground arith) stays w.1)

  check_messages-IsTracked :
      (now : ℕ) (entries : Assoc Str) (s : Client G K Q)
      → Distinct (keys entries)
      → Waiting (keys entries) s
      → IsTracked s
      → IsTracked (check_messages x now entries s)
  unfolding check_messages
  check_messages-IsTracked now [] s d w v = v
  check_messages-IsTracked now ((id, bytes) ∷ entries) s d w v =
      let step = check_message-Stays now id bytes s w.0 v in
      check_messages-IsTracked now entries (check_message x now id bytes s) d.1
        (Waiting-Stays id (keys entries) s _ d.0 step.1 w.1) step.0

  Waiting-weaken :
      (ids : List ℕ) (s : Client G K Q)
      → ((other : ℕ) → has other ids ≡ true → has other (keys s.wait_ack) ≡ true)
      → Waiting ids s
  unfolding has
  Waiting-weaken [] s h = tt
  Waiting-weaken (id ∷ ids) s h =
      (h id (ground arith), Waiting-weaken ids s (λ other p. h other (ground arith)))

  -- checkTimeOutAndResend keeps the three maps on the same ids, each once, and every retry count at
  -- most RETRY_MAX.
  pub check-IsTracked :
      (now : Now) (s : Client G K Q) → IsTracked s → IsTracked (check_time_out_and_resend x now s)
  unfolding check_time_out_and_resend
  check-IsTracked now s v =
      check_messages-IsTracked now.millis s.wait_ack s v.distinct
        (Waiting-weaken (keys s.wait_ack) s (λ other p. p)) v
