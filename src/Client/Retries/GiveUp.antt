-- ===== src/Client/Retries/GiveUp.antt =====
-- src/client/main.cpp: the rounds of startTimeOutThread.
use my_chat_project.Prelude.{
  zero, suc, ◌*◌, ◌-◌, suc, ℕ, ◌+◌, ◌≤◌, ◌<◌, ◌≡◌, refl, ◌∙◌, ap, arith, Bool-cases, inl, inr,
  Option, Option-cases, none, some, List, [], ◌∷◌, ltb, leb,
}
use my_chat_project.Externals.{ClientExternals}
use my_chat_project.Client.{Client, Now}
use my_chat_project.Client.Pending.{Assoc, find, read, value_or_zero}
use my_chat_project.Client.Pending.Keys.{AllLe}
use my_chat_project.Client.Reliable.{retry_max, timeout_ms, check_time_out_and_resend}
use my_chat_project.Client.Retries.{IsTracked}
use my_chat_project.Client.Retries.Rounds.{check-IsTracked}
use my_chat_project.Client.Retries.Message.{Message, step, Sends, waiting, message_of}
use my_chat_project.Client.Retries.Message.Round.{waiting-check_time_out}

-- The rounds of the loop of startTimeOutThread at these times.
unfoldable pub rounds :
    {Json G Ctx K Q : Type 0}
    → ClientExternals Json G Ctx K Q
    → List Now
    → Client G K Q
    → Client G K Q
rounds x [] s = s
rounds x (now ∷ times) s = rounds x times (check_time_out_and_resend x now s)

-- The same rounds for one message.
unfoldable pub steps : List Now → Option Message → Option Message
steps [] m = m
steps (now ∷ times) m = steps times (step now.millis m)

-- Each round comes at most `gap` milliseconds after the one before.
abbrev pub Paced : ℕ → ℕ → List Now → Type 0
Paced gap before [] = Unit {0}
Paced gap before (now ∷ times) = (now.millis ≤ before + gap) × Paced gap now.millis times

abbrev pub last_time : ℕ → List Now → ℕ
last_time before [] = before
last_time before (now ∷ times) = last_time now.millis times

-- k waits, each of w milliseconds.
abbrev waits : ℕ → ℕ → ℕ
waits zero w = 0
waits (suc k) w = w + waits k w

steps-none : (times : List Now) → steps times none ≡ none
unfolding steps step
steps-none [] = refl
steps-none (now ∷ times) = steps-none times

waits-pred : (k w : ℕ) → 1 ≤ k → waits (suc (k - 1)) w ≡ waits k w
waits-pred zero w h = absurd (omega arith)
waits-pred (suc k) w h = ap (λ n. waits (suc n) w) (omega arith)

waits-le : (k w : ℕ) → k ≤ 3 → waits (suc k) w ≤ 4 * w
waits-le zero w h = omega arith
waits-le (suc zero) w h = omega arith
waits-le (suc (suc zero)) w h = omega arith
waits-le (suc (suc (suc zero))) w h = omega arith
waits-le (suc (suc (suc (suc k)))) w h = absurd (omega arith)

-- A message that may be sent again k times more, at the last round before its timeout.
steps-Paced :
    (times : List Now) (k gap before : ℕ) (m : Message)
    → m.count + k ≡ retry_max
    → before ≤ m.since + timeout_ms
    → Paced gap before times
    → m.since + waits (suc k) (timeout_ms + gap) < last_time before times
    → steps times (some m) ≡ none
unfolding steps step
steps-Paced [] k gap before m left young paced ends = absurd (omega arith)
steps-Paced (now ∷ times) k gap before m left young paced ends =
    elim (Bool-cases (ltb (m.since + timeout_ms) now.millis)) [
      | inr early ↦
          rw (early, step) (steps-Paced times k gap now.millis m left (ground arith) paced.1 ends)
      | inl old ↦ elim (Bool-cases (leb retry_max m.count)) [
        | inl last ↦ rw (old, last, step) (steps-none times)
        | inr more ↦
            let few : m.count < 3 = ground arith in
            let due : m.since + timeout_ms < now.millis = ground arith in
            rw (old, more, step)
              (steps-Paced times (k - 1) gap now.millis
                (record { bytes = m.bytes; count = m.count + 1; since = now.millis }) (omega arith)
                (omega arith) paced.1
                (omega (arith, paced.0, ends, waits-pred k (timeout_ms + gap) (omega arith))))
      ]
    ]

module _ {Json G Ctx K Q : Type 0} (x : ClientExternals Json G Ctx K Q) where
  waiting-rounds :
      (times : List Now) (id : ℕ) (s : Client G K Q)
      → Sends x.socket
      → IsTracked s
      → waiting id (rounds x times s) ≡ steps times (waiting id s)
  unfolding rounds steps
  waiting-rounds [] id s sends v = refl
  waiting-rounds (now ∷ times) id s sends v =
      waiting-rounds times id (check_time_out_and_resend x now s) sends (check-IsTracked x now s v)
      ∙ ap (steps times) (waiting-check_time_out x now id s sends v.distinct)

read-AllLe : (n id : ℕ) (m : Assoc ℕ) → AllLe n m → read id m ≤ n
unfolding read value_or_zero find
read-AllLe n id [] a = omega arith
read-AllLe n id ((k, v) ∷ m) a = ground (arith, read-AllLe n id m a.1)

-- A message that gets no ACK is given up. Let the rounds of the timeout thread come at most `gap`
-- milliseconds apart, the first of them at most `gap` after the last sending of the message: once a
-- round is more than 4 * (TIMEOUT_MS + gap) later than that sending, no message waits under the id,
-- where sending works and the maps kept the same ids and bounded counts before.
pub waiting-rounds-none :
    {Json G Ctx K Q : Type 0} (x : ClientExternals Json G Ctx K Q) (id gap : ℕ) (times : List Now)
    (s : Client G K Q)
    → Sends x.socket
    → IsTracked s
    → Paced gap (read id s.send_time) times
    → read id s.send_time + 4 * (timeout_ms + gap) < last_time (read id s.send_time) times
    → waiting id (rounds x times s) ≡ none
unfolding waiting message_of
waiting-rounds-none x id gap times s sends v paced ends =
    waiting-rounds x times id s sends v ∙ elim (Option-cases (find id s.wait_ack)) [
      | inl e ↦ rw (e, message_of) (steps-none times)
      | inr (bytes, e) ↦
          let few = read-AllLe 3 id s.retry_count v.bounded in
          rw (e, message_of)
            (steps-Paced times (3 - read id s.retry_count) gap (read id s.send_time)
              (record { bytes = bytes; count = read id s.retry_count; since = read id s.send_time })
              (omega arith) (omega arith) paced
              (omega (
                arith,
                ends,
                waits-le (3 - read id s.retry_count) (timeout_ms + gap) (omega arith),
              )))
    ]
