-- ===== src/Client/Retries/Order.antt =====
-- src/client/main.cpp: checkTimeOutAndResend loops over an unordered_map, whose order is not
-- determined.
use my_chat_project.Prelude.{ℕ, ◌≡◌, sym, ◌∙◌, inl, inr, Option-cases, Str}
use my_chat_project.Externals.{ClientExternals}
use my_chat_project.Client.{Client, Now}
use my_chat_project.Client.Pending.{Assoc, keys, find}
use my_chat_project.Client.Pending.Keys.{Distinct, has-find-none}
use my_chat_project.Client.Reliable.{check_messages, check_time_out_and_resend}
use my_chat_project.Client.Retries.Message.{Sends, waiting}
use my_chat_project.Client.Retries.Message.Round.{
  check_messages-ne, waiting-none, waiting-check_messages, waiting-check_time_out,
}

module _ {Json G Ctx K Q : Type 0} (x : ClientExternals Json G Ctx K Q) where
  -- The order in which the loop meets the messages does not matter: run over any list of the same
  -- messages, each once, a round leaves under every id what checkTimeOutAndResend leaves there, where
  -- sending works and no id waits twice.
  pub waiting-any_order :
      (now : Now) (id : ℕ) (entries : Assoc Str) (s : Client G K Q)
      → Sends x.socket
      → Distinct (keys s.wait_ack)
      → Distinct (keys entries)
      → ((k : ℕ) → find k entries ≡ find k s.wait_ack)
      → waiting id (check_messages x now.millis entries s)
        ≡ waiting id (check_time_out_and_resend x now s)
  waiting-any_order now id entries s sends d de same =
      let other = waiting-check_time_out x now id s sends d in
      elim (Option-cases (find id s.wait_ack)) [
        | inl e ↦
            check_messages-ne x now.millis id entries s (has-find-none id entries (same id ∙ e))
            ∙ waiting-none x now.millis id s e
            ∙ sym other
        | inr (bytes, e) ↦
            waiting-check_messages x now.millis id bytes entries s sends de d (same id ∙ e) e
            ∙ sym other
      ]
