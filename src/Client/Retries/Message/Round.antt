-- ===== src/Client/Retries/Message/Round.antt =====
-- checkTimeOutAndResend: a round over all messages, for one of them.
use my_chat_project.Prelude.{
  ℕ, ◌≡◌, ◌≢◌, refl, sym, ◌∙◌, ap, arith, Bool-cases, false, inl, inr, Option-cases, none, some, [],
  ◌∷◌, Str, ◌==◌, ==_iff,
}
use my_chat_project.Externals.{ClientExternals}
use my_chat_project.Client.{Client, Now}
use my_chat_project.Client.Pending.{Assoc, keys, find}
use my_chat_project.Client.Pending.Keys.{has, Distinct, has-find-none}
use my_chat_project.Client.Reliable.{check_message, check_messages, check_time_out_and_resend}
use my_chat_project.Client.Retries.Message.{message_of, Sends, step, waiting, waiting-check_message}
use my_chat_project.Client.Retries.Message.Apart.{
  check_message-ne, check_message-Distinct, check_message-find_ne,
}

module _ {Json G Ctx K Q : Type 0} (x : ClientExternals Json G Ctx K Q) where
  -- The loop over entries that do not have an id leaves its message.
  pub check_messages-ne :
      (now id : ℕ) (entries : Assoc Str) (s : Client G K Q)
      → has id (keys entries) ≡ false
      → waiting id (check_messages x now entries s) ≡ waiting id s
  unfolding check_messages has
  check_messages-ne now id [] s h = refl
  check_messages-ne now id ((k, bytes) ∷ entries) s h =
      check_messages-ne now id entries (check_message x now k bytes s) (ground arith)
      ∙ check_message-ne x now k id bytes s (ground arith)

  find-cons_self :
      (k id : ℕ) (b bytes : Str) (entries : Assoc Str)
      → k ≡ id
      → find id ((k, b) ∷ entries) ≡ some bytes
      → b ≡ bytes
  unfolding find
  find-cons_self k id b bytes entries e f = ground arith

  find-cons_ne :
      (k id : ℕ) (b bytes : Str) (entries : Assoc Str)
      → k ≢ id
      → find id ((k, b) ∷ entries) ≡ some bytes
      → find id entries ≡ some bytes
  unfolding find
  find-cons_ne k id b bytes entries n f = ground arith

  pub waiting-none :
      (now id : ℕ) (s : Client G K Q)
      → find id s.wait_ack ≡ none
      → waiting id s ≡ step now (waiting id s)
  unfolding waiting message_of step
  waiting-none now id s e = rw (e, message_of) refl

  -- The loop does one round with the message of an entry.
  pub waiting-check_messages :
      (now id : ℕ) (bytes : Str) (entries : Assoc Str) (s : Client G K Q)
      → Sends x.socket
      → Distinct (keys entries)
      → Distinct (keys s.wait_ack)
      → find id entries ≡ some bytes
      → find id s.wait_ack ≡ some bytes
      → waiting id (check_messages x now entries s) ≡ step now (waiting id s)
  unfolding check_messages find
  waiting-check_messages now id bytes [] s sends de d fe f = cc
  waiting-check_messages now id bytes ((k, b) ∷ entries) s sends de d fe f =
      elim (Bool-cases (k == id)) [
        | inl same ↦
            let e : k ≡ id = (==_iff k id).0 same in
            let eb : b ≡ bytes = find-cons_self k id b bytes entries e fe in
            rw (e, eb)
              (check_messages-ne now id entries (check_message x now id bytes s) (rw (sym e) de.0)
                ∙ waiting-check_message x now id bytes s sends d f)
        | inr other ↦
            let n : k ≢ id = λ e. ground arith in
            let t = check_message x now k b s in
            waiting-check_messages now id bytes entries t sends de.1
              (check_message-Distinct x now k b s d) (find-cons_ne k id b bytes entries n fe)
              (check_message-find_ne x now k id b s n ∙ f)
            ∙ ap (step now) (check_message-ne x now k id b s n)
      ]

  -- A round of checkTimeOutAndResend, where sending works and no id waits twice, does with every id
  -- what `step` does with its message alone: nothing if none waits; nothing within TIMEOUT_MS of the
  -- last sending; after that it sends the message again, counts that and restarts the clock, or, once
  -- it was sent again RETRY_MAX times, gives it up.
  pub waiting-check_time_out :
      (now : Now) (id : ℕ) (s : Client G K Q)
      → Sends x.socket
      → Distinct (keys s.wait_ack)
      → waiting id (check_time_out_and_resend x now s) ≡ step now.millis (waiting id s)
  unfolding check_time_out_and_resend
  waiting-check_time_out now id s sends d = elim (Option-cases (find id s.wait_ack)) [
    | inl e ↦
        check_messages-ne now.millis id s.wait_ack s (has-find-none id s.wait_ack e)
        ∙ waiting-none now.millis id s e
    | inr (bytes, e) ↦ waiting-check_messages now.millis id bytes s.wait_ack s sends d d e e
  ]
