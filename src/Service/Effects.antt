-- ===== src/Service/Effects.antt =====
-- What the handlers send and queue, seen without the bytes.
pub mod CreateGroup
pub mod Close
pub mod OneChat
pub mod GroupChat
pub mod Login
use my_chat_project.Prelude.{
  ℕ, ◌≡◌, refl, arith, Option, none, some, List, [], ◌∷◌, ◌++◌, map, ℤ, Str,
}
use my_chat_project.Exec.{Outcome, ok, Exec}
use my_chat_project.Externals.{Externals, JsonLib}
use my_chat_project.Service.{Server, respond, ack_to_client, ack_json}

-- The connections that something was sent to, in order.
unfoldable pub recipients : List (ℕ × Str) → List ℕ
recipients [] = []
recipients ((conn, bytes) ∷ sent) = conn ∷ recipients sent

pub recipients-append : (a b : List (ℕ × Str)) → recipients (a ++ b) ≡ recipients a ++ recipients b
unfolding recipients
recipients-append [] b = refl
recipients-append ((conn, bytes) ∷ a) b = rw (recipients-append a b)

module _ {Json Db Rs G Ctx : Type 0} (x : Externals Json Db Rs G Ctx) where
  -- What a response changes: the random state, and one send to the connection.
  pub record Responded (conn : ℕ) (s : Server Db Rs G) (r : Outcome (Unit {0}) × Server Db Rs G)
      : Type 0 where
    pub returns : r.0 ≡ ok tt
    pub recipients_lem : recipients r.1.sent ≡ recipients s.sent ++ conn ∷ []
    pub conns : r.1.conns ≡ s.conns
    pub db : r.1.db ≡ s.db
    pub redis : r.1.redis ≡ s.redis
    pub tasks : r.1.tasks ≡ s.tasks
    pub shut : r.1.shut ≡ s.shut

  pub respond-Responded :
      (conn : ℕ) (js : Json) (msg_id : ℤ) (text : Str) (s : Server Db Rs G)
      → x.json.dump js ≡ some text
      → Responded conn s (respond x conn js msg_id s)
  unfolding respond recipients
  respond-Responded conn js msg_id text s e =
      rw (e, respond)
        (record {
          returns = refl;
          recipients_lem = recipients-append s.sent ((conn, _) ∷ []);
          conns = refl;
          db = refl;
          redis = refl;
          tasks = refl;
          shut = refl;
        })

  pub ack-Responded :
      (conn : ℕ) (msg_id : ℤ) (text : Str) (s : Server Db Rs G)
      → x.json.dump (ack_json x msg_id) ≡ some text
      → Responded conn s (ack_to_client x conn msg_id s)
  unfolding ack_to_client
  ack-Responded conn msg_id text s e = respond-Responded conn (ack_json x msg_id) msg_id text s e
