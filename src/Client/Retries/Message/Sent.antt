-- ===== src/Client/Retries/Message/Sent.antt =====
-- checkTimeOutAndResend: what a round sends.
use my_chat_project.Prelude.{
  ℕ, ◌+◌, ◌≡◌, ◌≢◌, refl, ◌∙◌, ap, arith, Bool, Bool-cases, false, not, ◌&&◌, inl, inr, Option,
  Option-cases, none, some, [], ◌∷◌, Str, ltb, leb, ◌==◌, ==_iff, if◌then◌else◌,
}
use my_chat_project.Externals.{ClientExternals}
use my_chat_project.Client.{Client, Now}
use my_chat_project.Client.Pending.{Assoc, keys, find, read}
use my_chat_project.Client.Pending.Keys.{has, Distinct, find-none_of_keys}
use my_chat_project.Client.Pending.Lookup.{read-touch_self}
use my_chat_project.Client.Reliable.{
  retry_max, timeout_ms, forget, resend, touch_maps, check_message, check_messages,
  check_time_out_and_resend,
}
use my_chat_project.Client.Retries.Message.{Message, Sends, step, waiting, message_of}
use my_chat_project.Client.Retries.Message.Apart.{check_message-ne, check_message-find_ne}
use my_chat_project.Client.Retries.Message.Round.{waiting-check_time_out}

-- A round sends this message again.
unfoldable pub is_due : ℕ → Option Message → Bool
is_due now none = false
is_due now (some m) = ltb (m.since + timeout_ms) now && not (leb retry_max m.count)

module _ {Json G Ctx K Q : Type 0} (x : ClientExternals Json G Ctx K Q) where
  -- The socket after these messages have been sent where they are due in a state, one by one.
  unfoldable pub send_due : ℕ → Client G K Q → Assoc Str → K → K
  unfolding is_due
  send_due now s [] socket = socket
  send_due now s ((id, bytes) ∷ entries) socket =
      send_due now s entries
        (if is_due now (waiting id s) then (x.socket.send_bytes bytes socket).1 else socket)

  socket-resend :
      (id : ℕ) (bytes : Str) (now : ℕ) (s : Client G K Q)
      → (resend x id bytes now s).socket ≡ (x.socket.send_bytes bytes s.socket).1
  unfolding resend
  socket-resend id bytes now s = elim (Option-cases (x.socket.send_bytes bytes s.socket).0) [
    | inl e ↦ rw (e, resend) refl
    | inr (n, e) ↦ rw (e, resend) refl
  ]

  socket-check_message :
      (now id : ℕ) (bytes : Str) (s : Client G K Q)
      → find id s.wait_ack ≡ some bytes
      → (check_message x now id bytes s).socket
        ≡ (if is_due now (waiting id s) then (x.socket.send_bytes bytes s.socket).1 else s.socket)
  unfolding is_due waiting message_of check_message touch_maps forget
  socket-check_message now id bytes s f =
      let count = read-touch_self id s.retry_count in
      let since = read-touch_self id s.send_time in
      elim (Bool-cases (ltb (read id s.send_time + timeout_ms) now)) [
        | inr young ↦ rw (since, young, check_message) (rw (f, young) refl)
        | inl old ↦ elim (Bool-cases (leb retry_max (read id s.retry_count))) [
          | inl many ↦ rw (since, old, count, many, check_message) (rw (f, old, many) refl)
          | inr few ↦
              rw (since, old, count, few, check_message)
                (rw (f, old, few) (socket-resend id bytes now (touch_maps x id s)))
        ]
      ]

  -- The entries wait in a state, and there as in another.
  abbrev Judged : Client G K Q → Assoc Str → Client G K Q → Type 0
  Judged s0 [] s = Unit {0}
  Judged s0 ((id, bytes) ∷ entries) s =
      (find id s.wait_ack ≡ some bytes) × (waiting id s ≡ waiting id s0) × Judged s0 entries s

  Judged-check_message :
      (now k : ℕ) (b : Str) (entries : Assoc Str) (s0 s : Client G K Q)
      → has k (keys entries) ≡ false
      → Judged s0 entries s
      → Judged s0 entries (check_message x now k b s)
  unfolding has
  Judged-check_message now k b [] s0 s h j = tt
  Judged-check_message now k b ((id, bytes) ∷ entries) s0 s h j =
      let n : k ≢ id = λ e. ground arith in
      (
        check_message-find_ne x now k id b s n ∙ j.0,
        check_message-ne x now k id b s n ∙ j.1,
        Judged-check_message now k b entries s0 s (ground arith) j.2,
      )

  socket-check_messages :
      (now : ℕ) (entries : Assoc Str) (s0 s : Client G K Q)
      → Distinct (keys entries)
      → Judged s0 entries s
      → (check_messages x now entries s).socket ≡ send_due now s0 entries s.socket
  unfolding check_messages send_due
  socket-check_messages now [] s0 s d j = refl
  socket-check_messages now ((id, bytes) ∷ entries) s0 s d j =
      let t = check_message x now id bytes s in
      socket-check_messages now entries s0 t d.1
        (Judged-check_message now id bytes entries s0 s d.0 j.2)
      ∙ ap (send_due now s0 entries) (
          socket-check_message now id bytes s j.0
          ∙ ap (λ m. if is_due now m then (x.socket.send_bytes bytes s.socket).1 else s.socket) j.1)

  find-later :
      (k id : ℕ) (b bytes : Str) (entries : Assoc Str)
      → has k (keys entries) ≡ false
      → find id entries ≡ some bytes
      → find id ((k, b) ∷ entries) ≡ some bytes
  unfolding find
  find-later k id b bytes entries h f = elim (Bool-cases (k == id)) [
    | inl same ↦
        ground (arith, (==_iff k id).0 same, find-none_of_keys k entries (keys entries) refl h)
    | inr other ↦ rw other f
  ]

  find-first : (k : ℕ) (b : Str) (entries : Assoc Str) → find k ((k, b) ∷ entries) ≡ some b
  unfolding find
  find-first k b entries = ground arith

  Judged-start :
      (entries : Assoc Str) (s : Client G K Q)
      → Distinct (keys entries)
      → ((id : ℕ) (b : Str) → find id entries ≡ some b → find id s.wait_ack ≡ some b)
      → Judged s entries s
  Judged-start [] s d within = tt
  Judged-start ((k, b) ∷ entries) s d within = (
    within k b (find-first k b entries),
    refl,
    Judged-start entries s d.1
        (λ id bytes f. within id bytes (find-later k id b bytes entries d.0 f)),
  )

  -- A round of checkTimeOutAndResend, where sending works and no id waits twice. It does with every
  -- id what `step` does with its message alone: nothing if none waits; nothing within TIMEOUT_MS of
  -- the last sending; after that it counts a sending and restarts the clock, or, once the message
  -- was sent again RETRY_MAX times, gives it up. And it sends the bytes of exactly those messages
  -- whose sending it counts, one by one in the order of the entries.
  pub check_time_out-step :
      (now : Now) (s : Client G K Q)
      → Sends x.socket
      → Distinct (keys s.wait_ack)
      → ((id : ℕ) → waiting id (check_time_out_and_resend x now s) ≡ step now.millis (waiting id s))
        × ((check_time_out_and_resend x now s).socket ≡ send_due now.millis s s.wait_ack s.socket)
  unfolding check_time_out_and_resend
  check_time_out-step now s sends d = (
    λ id. waiting-check_time_out x now id s sends d,
    socket-check_messages now.millis s.wait_ack s s d (Judged-start s.wait_ack s d (λ id b f. f)),
  )
