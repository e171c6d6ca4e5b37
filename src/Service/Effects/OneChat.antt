-- ===== src/Service/Effects/OneChat.antt =====
-- src/server/chatservice.cpp, oneChat: where a private message goes, and whether its sender gets an ACK.
use my_chat_project.Prelude.{
  ℕ, ◌≡◌, refl, sym, ◌∙◌, Bool-cases, Option, none, some, inl, inr, List, [], ◌∷◌, ◌++◌, append-nil,
  append_assoc, ℤ, to_int, to_u32, to_string, eq_str, Str, if◌then◌else◌,
}
use my_chat_project.Exec.{Outcome, ok}
use my_chat_project.Externals.{Externals}
use my_chat_project.Protocol.Header.{msg_code}
use my_chat_project.Protocol.Frame.{encrypted_message_svr}
use my_chat_project.Model.{User, DbTaskArgs, online}
use my_chat_project.Db.UserModel
use my_chat_project.DbTask
use my_chat_project.Redis
use my_chat_project.Service.Conns
use my_chat_project.Service.{Server, ack_json, ack_to_client, respond, offline_task}
use my_chat_project.Service.Chat.{one_chat, chat_route, chat_remote, chat_to_database}

-- The three ways of a private message: to a connection of this server, to the other servers by
-- redis, into the table of offline messages for a user id.
pub data Route : Type 0 where
  local : ℕ → Route
  published : Route
  stored : ℤ → Route

-- What is sent on a route: the frame to the receiver, and the ACK to the sender.
abbrev pub route_sent : ℕ → Str → Str → Route → List (ℕ × Str)
route_sent conn bytes ack (local peer) = (peer, bytes) ∷ (conn, ack) ∷ []
route_sent conn bytes ack published = []
route_sent conn bytes ack (stored id) = (conn, ack) ∷ []

-- The specification of the choice: the connection map first, then redis, then the user's row.
abbrev pub remote_route : Option Str → User → Route
remote_route (some value) user = published
remote_route none user = if eq_str user.state online then published else stored user.id

abbrev pub choose_route : Option ℕ → Option Str → User → Route
choose_route (some peer) value user = local peer
choose_route none value user = remote_route value user

module _ {Json Db Rs G Ctx : Type 0} (x : Externals Json Db Rs G Ctx) where
  abbrev pub route_tasks : Route → Str → List DbTaskArgs
  route_tasks (stored id) text = offline_task x id text ∷ []
  route_tasks _ text = []

  -- Redis after the look at the key of the user, with the publication of the text to the user's
  -- channel where the message takes that way. For a user on this server redis is not asked.
  abbrev pub published_redis : ℤ → Str → Route → Rs → Rs
  published_redis toid text published redis = (Redis.publish x.redis toid text redis).1
  published_redis toid text _ redis = redis

  abbrev pub route_redis : Option ℕ → ℤ → Str → Route → Rs → Rs
  route_redis (some peer) toid text route redis = redis
  route_redis none toid text route redis =
      published_redis toid text route (Redis.get x.redis (to_string toid) redis).1

  -- What a step sends and queues, and how it leaves redis; the connection map stays.
  pub record Effect (sent : List (ℕ × Str)) (tasks : List DbTaskArgs) (redis : Rs)
      (s : Server Db Rs G) (r : Outcome (Unit {0}) × Server Db Rs G) : Type 0 where
    pub returns : r.0 ≡ ok tt
    pub sends : r.1.sent ≡ s.sent ++ sent
    pub queues : r.1.tasks ≡ s.tasks ++ tasks
    pub redis_left : r.1.redis ≡ redis
    pub conns_left : r.1.conns ≡ s.conns

module _ {Json Db Rs G Ctx : Type 0} (x : Externals Json Db Rs G Ctx) (conn : ℕ) (toid msg_id : ℤ)
    (text ack_text : Str) (acks : x.json.dump (ack_json x msg_id) ≡ some ack_text) where
  -- The frame of the ACK.
  abbrev pub ack_frame : G → Str
  ack_frame g = (encrypted_message_svr x.evp ack_text 10 (to_u32 msg_id) g).0

  ack-Effect :
      (s : Server Db Rs G)
      → Effect x ((conn, ack_frame s.rng) ∷ []) [] s.redis s (ack_to_client x conn msg_id s)
  unfolding ack_to_client respond msg_code
  ack-Effect s =
      rw (acks, ack_to_client)
        (record {
          returns = refl;
          sends = refl;
          queues = sym (append-nil _);
          redis_left = refl;
          conns_left = refl;
        })

  database-Effect :
      (s : Server Db Rs G) (bytes : Str) (user : User)
      → (UserModel.query_user x.mysql toid s.db).0 ≡ ok user
      → Effect x
          (route_sent conn bytes (ack_frame s.rng) (remote_route none user))
          (route_tasks x (remote_route none user) text)
          (published_redis x toid text (remote_route none user) s.redis)
          s
          (chat_to_database x conn toid msg_id text s)
  unfolding chat_to_database DbTask.push
  database-Effect s bytes user q = elim (Bool-cases (eq_str user.state online)) [
    | inl up ↦
        rw (q, up, chat_to_database)
          (record {
            returns = refl;
            sends = sym (append-nil _);
            queues = sym (append-nil _);
            redis_left = refl;
            conns_left = refl;
          })
    | inr down ↦
        rw (q, down, chat_to_database)
          (let a = ack-Effect (record s {
            db = (UserModel.query_user x.mysql toid s.db).1;
            tasks = s.tasks ++ offline_task x user.id text ∷ [];
          }) in
            record {
              returns = a.returns;
              sends = a.sends;
              queues = a.queues ∙ append-nil _;
              redis_left = a.redis_left;
              conns_left = a.conns_left;
            })
  ]

  remote-Effect :
      (s : Server Db Rs G) (bytes : Str) (value : Option Str) (user : User)
      → (UserModel.query_user x.mysql toid s.db).0 ≡ ok user
      → Effect x
          (route_sent conn bytes (ack_frame s.rng) (remote_route value user))
          (route_tasks x (remote_route value user) text)
          (published_redis x toid text (remote_route value user) s.redis)
          s
          (chat_remote x conn toid msg_id text value s)
  unfolding chat_remote
  remote-Effect s bytes none user q = database-Effect s bytes user q
  remote-Effect s bytes (some value) user q = record {
    returns = refl;
    sends = sym (append-nil _);
    queues = sym (append-nil _);
    redis_left = refl;
    conns_left = refl;
  }

  route-Effect :
      (s : Server Db Rs G) (bytes : Str) (peer : Option ℕ) (user : User)
      → (UserModel.query_user x.mysql toid s.db).0 ≡ ok user
      → (let route = choose_route peer (Redis.get x.redis (to_string toid) s.redis).0 user in
          Effect x
            (route_sent conn bytes (ack_frame s.rng) route)
            (route_tasks x route text)
            (route_redis x peer toid text route s.redis)
            s
            (chat_route x conn toid msg_id text bytes peer s))
  unfolding chat_route
  route-Effect s bytes none user q =
      let r =
        remote-Effect (record s { redis = (Redis.get x.redis (to_string toid) s.redis).1 }) bytes
          (Redis.get x.redis (to_string toid) s.redis).0 user q in
      record {
        returns = r.returns;
        sends = r.sends;
        queues = r.queues;
        redis_left = r.redis_left;
        conns_left = r.conns_left;
      }
  route-Effect s bytes (some peer) user q =
      let a = ack-Effect (record s { sent = s.sent ++ (peer, bytes) ∷ [] }) in
      record {
        returns = a.returns;
        sends = a.sends ∙ append_assoc s.sent ((peer, bytes) ∷ []) ((conn, ack_frame s.rng) ∷ []);
        queues = a.queues;
        redis_left = a.redis_left;
        conns_left = a.conns_left;
      }

-- A private message whose fields and whose receiver's row can be read, and whose ACK can be dumped,
-- takes exactly the way that the connection map, redis and the user's row choose, in this order: the
-- frame of its text is sent to the connection of the receiver and then that of the ACK to the
-- sender, and redis is not asked; or the text is published to the receiver's channel, and nothing is
-- sent to anybody; or one task to store the text is queued, under the id of the row that was found,
-- and the frame of the ACK is sent. Nothing else is sent, queued or published, and the map is left
-- as it was.
pub one_chat-Effect :
    {Json Db Rs G Ctx : Type 0} (x : Externals Json Db Rs G Ctx) (conn : ℕ) (js : Json)
    (s : Server Db Rs G) (to id : ℤ) (text ack_text : Str) (user : User)
    → x.json.number js "toid" ≡ some to
    → x.json.number js "msgId" ≡ some id
    → x.json.dump js ≡ some text
    → x.json.dump (ack_json x (to_int id)) ≡ some ack_text
    → (UserModel.query_user x.mysql (to_int to) s.db).0 ≡ ok user
    → (let peer = Conns.find (to_int to) s.conns in
        let route = choose_route peer (Redis.get x.redis (to_string (to_int to)) s.redis).0 user in
        let (bytes, g) = encrypted_message_svr x.evp text 10 (to_u32 (to_int id)) s.rng in
        let ack = (encrypted_message_svr x.evp ack_text 10 (to_u32 (to_int id)) g).0 in
        Effect x
          (route_sent conn bytes ack route)
          (route_tasks x route text)
          (route_redis x peer (to_int to) text route s.redis)
          s
          (one_chat x conn js s))
unfolding one_chat msg_code
one_chat-Effect x conn js s to id text ack_text user e1 e2 e3 acks q =
    let (bytes, g) = encrypted_message_svr x.evp text 10 (to_u32 (to_int id)) s.rng in
    rw (e1, e2, e3, one_chat)
      (let r =
          route-Effect x conn (to_int to) (to_int id) text ack_text acks (record s { rng = g })
            bytes (Conns.find (to_int to) s.conns) user q in
        record {
          returns = r.returns;
          sends = r.sends;
          queues = r.queues;
          redis_left = r.redis_left;
          conns_left = r.conns_left;
        })
