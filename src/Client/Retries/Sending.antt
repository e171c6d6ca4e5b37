-- ===== src/Client/Retries/Sending.antt =====
-- The send loop of encryptedMessage.
use my_chat_project.Prelude.{
  ℕ, zero, suc, ◌≤◌, ◌≢◌, arith, Option-cases, none, some, inl, inr, [], ◌∷◌, Str, length,
  length-drop, drop,
}
use my_chat_project.Externals.{SocketLib}
use my_chat_project.Client.Reliable.{send_all}

-- send(2) on a blocking socket takes at least one byte of a text that is not empty.
abbrev pub TakesSome : {K : Type 0} → SocketLib K → Type 0
TakesSome {K} socket = (b : ℕ) (bytes : Str) (k : K) → (socket.send_bytes (b ∷ bytes) k).0 ≢ some 0

-- The send loop ends, with all bytes sent or with an error, within as many rounds as there are
-- bytes, where every call of send fails or takes at least one byte.
pub send_all-ends :
    {K : Type 0} (socket : SocketLib K) (fuel : ℕ) (bytes : Str) (k : K)
    → TakesSome socket
    → length bytes ≤ fuel
    → (send_all socket fuel bytes k).0 ≢ none
unfolding send_all
send_all-ends socket fuel [] k takes h = λ e. cc
send_all-ends socket zero (b ∷ bytes) k takes h = absurd (omega arith)
send_all-ends socket (suc fuel) (b ∷ bytes) k takes h =
    elim (Option-cases (socket.send_bytes (b ∷ bytes) k).0) [
      | inl z ↦ rw (z, send_all) (λ e. cc)
      | inr (zero, z) ↦ absurd (takes b bytes k z)
      | inr (suc n, z) ↦
          rw (z, send_all)
            (send_all-ends socket fuel (drop (suc n) (b ∷ bytes))
              (socket.send_bytes (b ∷ bytes) k).1 takes
              (omega (arith, length-drop (suc n) (b ∷ bytes))))
    ]
