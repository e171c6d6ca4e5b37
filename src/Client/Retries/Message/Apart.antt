-- ===== src/Client/Retries/Message/Apart.antt =====
-- checkTimeOutAndResend: what its loop does for one message leaves the others.
use my_chat_project.Prelude.{
  ℕ, ◌+◌, ◌≡◌, ◌≢◌, ◌⊎◌, ◌∙◌, ap, Bool-cases, inl, inr, Option-cases, Str, ltb, leb,
}
use my_chat_project.Externals.{ClientExternals}
use my_chat_project.Client.{Client}
use my_chat_project.Client.Pending.{keys, find, erase, read}
use my_chat_project.Client.Pending.Keys.{Distinct, keys-erase, erase_key-Distinct}
use my_chat_project.Client.Pending.Lookup.{find-erase_ne, read-put_ne, read-erase_ne, read-touch_ne}
use my_chat_project.Client.Reliable.{
  retry_max, timeout_ms, forget, resend, touch_maps, check_message,
}
use my_chat_project.Client.Retries.Message.{waiting}

module _ {Json G Ctx K Q : Type 0} (x : ClientExternals Json G Ctx K Q) where
  touch_maps-ne :
      (id other : ℕ) (s : Client G K Q)
      → id ≢ other
      → waiting other (touch_maps x id s) ≡ waiting other s
  unfolding waiting touch_maps
  touch_maps-ne id other s n =
      rw (read-touch_ne id other s.retry_count n, read-touch_ne id other s.send_time n)

  forget-ne :
      (id other : ℕ) (s : Client G K Q)
      → id ≢ other
      → waiting other (forget x id s) ≡ waiting other s
  unfolding waiting forget
  forget-ne id other s n = rw (
    find-erase_ne id other s.wait_ack n,
    read-erase_ne id other s.retry_count n,
    read-erase_ne id other s.send_time n,
  )

  resend-ne :
      (id other : ℕ) (bytes : Str) (now : ℕ) (s : Client G K Q)
      → id ≢ other
      → waiting other (resend x id bytes now s) ≡ waiting other s
  unfolding waiting resend
  resend-ne id other bytes now s n = elim (Option-cases (x.socket.send_bytes bytes s.socket).0) [
    | inl e ↦ rw (e, resend)
    | inr (sent, e) ↦
        rw (e, resend)
          (rw (
            read-put_ne id other (read id s.retry_count + 1) s.retry_count n,
            read-put_ne id other now s.send_time n,
          ))
  ]

  -- A round for one message leaves the others.
  pub check_message-ne :
      (now id other : ℕ) (bytes : Str) (s : Client G K Q)
      → id ≢ other
      → waiting other (check_message x now id bytes s) ≡ waiting other s
  unfolding check_message
  check_message-ne now id other bytes s n =
      let t = touch_maps x id s in
      elim (Bool-cases (ltb (read id t.send_time + timeout_ms) now)) [
        | inr young ↦ rw (young, check_message) (touch_maps-ne id other s n)
        | inl old ↦ elim (Bool-cases (leb retry_max (read id t.retry_count))) [
          | inl many ↦
              rw (old, many, check_message) (forget-ne id other t n ∙ touch_maps-ne id other s n)
          | inr few ↦
              rw (old, few, check_message)
                (resend-ne id other bytes now t n ∙ touch_maps-ne id other s n)
        ]
      ]

  resend-wait_ack :
      (id : ℕ) (bytes : Str) (now : ℕ) (s : Client G K Q)
      → (resend x id bytes now s).wait_ack ≡ s.wait_ack
  unfolding resend
  resend-wait_ack id bytes now s = elim (Option-cases (x.socket.send_bytes bytes s.socket).0) [
    | inl e ↦ rw (e, resend)
    | inr (sent, e) ↦ rw (e, resend)
  ]

  -- It takes at most its own entry out of the messages.
  check_message-wait_ack :
      (now id : ℕ) (bytes : Str) (s : Client G K Q)
      → ((check_message x now id bytes s).wait_ack ≡ s.wait_ack)
        ⊎ ((check_message x now id bytes s).wait_ack ≡ erase id s.wait_ack)
  unfolding check_message touch_maps forget
  check_message-wait_ack now id bytes s =
      let t = touch_maps x id s in
      elim (Bool-cases (ltb (read id t.send_time + timeout_ms) now)) [
        | inr young ↦ inl (rw (young, check_message))
        | inl old ↦ elim (Bool-cases (leb retry_max (read id t.retry_count))) [
          | inl many ↦ inr (rw (old, many, check_message))
          | inr few ↦ inl (rw (old, few, check_message) (resend-wait_ack id bytes now t))
        ]
      ]

  pub check_message-Distinct :
      (now id : ℕ) (bytes : Str) (s : Client G K Q)
      → Distinct (keys s.wait_ack)
      → Distinct (keys (check_message x now id bytes s).wait_ack)
  check_message-Distinct now id bytes s d = elim (check_message-wait_ack now id bytes s) [
    | inl e ↦ rw e d
    | inr e ↦ rw (e, keys-erase id s.wait_ack) (erase_key-Distinct id (keys s.wait_ack) d)
  ]

  pub check_message-find_ne :
      (now id other : ℕ) (bytes : Str) (s : Client G K Q)
      → id ≢ other
      → find other (check_message x now id bytes s).wait_ack ≡ find other s.wait_ack
  check_message-find_ne now id other bytes s n = elim (check_message-wait_ack now id bytes s) [
    | inl e ↦ ap (find other) e
    | inr e ↦ ap (find other) e ∙ find-erase_ne id other s.wait_ack n
  ]
