-- ===== src/Service/Effects/GroupChat.antt =====
-- What a group message makes of the members: one delivery for each.
use my_chat_project.Prelude.{
  ℕ, ◌≡◌, refl, sym, ◌∙◌, ap, Bool-cases, inl, inr, some, none, Option, List, [], ◌∷◌, ◌++◌,
  append-nil, append_assoc, ℤ, to_int, to_u32, eq_str, Str, if◌then◌else◌,
}
use my_chat_project.Exec.{Exec, Outcome, ok, for_each, ◌>>◌}
use my_chat_project.Externals.{Externals}
use my_chat_project.Protocol.Header.{msg_code}
use my_chat_project.Protocol.Frame.{encrypted_message_svr}
use my_chat_project.Model.{User, DbTaskArgs, online}
use my_chat_project.Db.UserModel
use my_chat_project.Db.GroupModel
use my_chat_project.DbTask
use my_chat_project.Service.Conns
use my_chat_project.Service.Conns.{ConnMap}
use my_chat_project.Service.{Server, ack_to_client, respond, ack_json, offline_task}
use my_chat_project.Service.Chat.{group_chat, deliver, deliver_to}
use my_chat_project.Redis

-- What is sent to a member, if this server has the connection.
abbrev pub sent_to : Option ℕ → Str → List (ℕ × Str)
sent_to (some peer) bytes = (peer, bytes) ∷ []
sent_to none bytes = []

-- What is sent to the members, in their order.
unfoldable pub local_sent : List ℤ → ConnMap → Str → List (ℕ × Str)
local_sent [] m bytes = []
local_sent (id ∷ members) m bytes = sent_to (Conns.find id m) bytes ++ local_sent members m bytes

module _ {Json Db Rs G Ctx : Type 0} (x : Externals Json Db Rs G Ctx) where
  -- A task for a member who is on no connection of this server and whose row is not Online.
  abbrev pub task_of : Option ℕ → User → ℤ → Str → List DbTaskArgs
  task_of (some peer) user id text = []
  task_of none user id text = if eq_str user.state online then [] else offline_task x id text ∷ []

  unfoldable pub offline_tasks : (ℤ → User) → List ℤ → ConnMap → Str → List DbTaskArgs
  offline_tasks row [] m text = []
  offline_tasks row (id ∷ members) m text =
      task_of (Conns.find id m) (row id) id text ++ offline_tasks row members m text

  -- A publication for a member who is on no connection of this server and whose row is Online.
  abbrev pub publish_for : Option ℕ → User → ℤ → Str → Rs → Rs
  publish_for (some peer) user id text redis = redis
  publish_for none user id text redis =
      if eq_str user.state online then (Redis.publish x.redis id text redis).1 else redis

  unfoldable pub published_for : (ℤ → User) → List ℤ → ConnMap → Str → Rs → Rs
  published_for row [] m text redis = redis
  published_for row (id ∷ members) m text redis =
      published_for row members m text (publish_for (Conns.find id m) (row id) id text redis)

  -- The database after the look at a member's row, for which only a member who is not on this server
  -- is a reason.
  abbrev pub db_after : Option ℕ → ℤ → Db → Db
  db_after (some peer) id db = db
  db_after none id db = (UserModel.query_user x.mysql id db).1

  abbrev pub RowIs : Option ℕ → ℤ → User → Db → Type 0
  RowIs (some peer) id user db = Unit {0}
  RowIs none id user db = (UserModel.query_user x.mysql id db).0 ≡ ok user

  -- The queries that the loop makes, one after the other, give these rows.
  abbrev pub RowsAre : (ℤ → User) → List ℤ → ConnMap → Db → Type 0
  RowsAre row [] m db = Unit {0}
  RowsAre row (id ∷ members) m db =
      RowIs (Conns.find id m) id (row id) db
      × RowsAre row members m (db_after (Conns.find id m) id db)

  -- A step that sends this, queues these tasks, leaves redis like this, and the map as it was.
  pub record Delivered (sent : List (ℕ × Str)) (tasks : List DbTaskArgs) (redis : Rs)
      (s : Server Db Rs G) (r : Outcome (Unit {0}) × Server Db Rs G) : Type 0 where
    pub returns : r.0 ≡ ok tt
    pub sends : r.1.sent ≡ s.sent ++ sent
    pub queues : r.1.tasks ≡ s.tasks ++ tasks
    pub redis_left : r.1.redis ≡ redis
    pub conns_left : r.1.conns ≡ s.conns

  -- One delivery: besides, the random state stays and the database has at most been asked.
  record One (peer : Option ℕ) (bytes text : Str) (id : ℤ) (user : User) (s : Server Db Rs G)
      (r : Outcome (Unit {0}) × Server Db Rs G) : Type 0 where
    done :
        Delivered
          (sent_to peer bytes)
          (task_of peer user id text)
          (publish_for peer user id text s.redis)
          s
          r
    rng_left : r.1.rng ≡ s.rng
    db_left : r.1.db ≡ db_after peer id s.db

  deliver_to-One :
      (text bytes : Str) (id : ℤ) (peer : Option ℕ) (user : User) (s : Server Db Rs G)
      → RowIs peer id user s.db
      → One peer bytes text id user s (deliver_to x text bytes id peer s)
  unfolding deliver_to DbTask.push
  deliver_to-One text bytes id (some peer) user s q = record {
    done = record {
      returns = refl;
      sends = refl;
      queues = sym (append-nil _);
      redis_left = refl;
      conns_left = refl;
    };
    rng_left = refl;
    db_left = refl;
  }
  deliver_to-One text bytes id none user s q = elim (Bool-cases (eq_str user.state online)) [
    | inl up ↦
        rw (q, up, deliver_to)
          (record {
            done = record {
              returns = refl;
              sends = sym (append-nil _);
              queues = rw up (sym (append-nil _));
              redis_left = rw up refl;
              conns_left = refl;
            };
            rng_left = refl;
            db_left = refl;
          })
    | inr down ↦
        rw (q, down, deliver_to)
          (record {
            done = record {
              returns = refl;
              sends = sym (append-nil _);
              queues = rw down refl;
              redis_left = rw down refl;
              conns_left = refl;
            };
            rng_left = refl;
            db_left = refl;
          })
  ]

  -- Two steps, one after the other.
  Delivered-then :
      (p1 p2 : List (ℕ × Str)) (t1 t2 : List DbTaskArgs) (r1 r2 : Rs) (s : Server Db Rs G)
      (m n : Exec (Server Db Rs G) (Unit {0}))
      → Delivered p1 t1 r1 s (m s)
      → Delivered p2 t2 r2 (m s).1 (n (m s).1)
      → Delivered (p1 ++ p2) (t1 ++ t2) r2 s ((m >> n) s)
  Delivered-then p1 p2 t1 t2 r1 r2 s m n a b = rw a.returns (record {
    returns = b.returns;
    sends = b.sends ∙ rw a.sends (append_assoc s.sent p1 p2);
    queues = b.queues ∙ rw a.queues (append_assoc s.tasks t1 t2);
    redis_left = b.redis_left;
    conns_left = b.conns_left ∙ a.conns_left;
  })

  -- The loop; the random state stays.
  abbrev Loop : (ℤ → User) → List ℤ → Str → Str → Server Db Rs G → Type 0
  Loop row members text bytes s =
      Delivered (local_sent members s.conns bytes) (offline_tasks row members s.conns text)
        (published_for row members s.conns text s.redis) s
        (for_each members (deliver x text bytes) s)
      × ((for_each members (deliver x text bytes) s).1.rng ≡ s.rng)

  members-Delivered :
      (text bytes : Str) (row : ℤ → User) (members : List ℤ) (s : Server Db Rs G)
      → RowsAre row members s.conns s.db
      → Loop row members text bytes s
  unfolding for_each local_sent offline_tasks published_for deliver
  members-Delivered text bytes row [] s rows = (
    record {
      returns = refl;
      sends = sym (append-nil _);
      queues = sym (append-nil _);
      redis_left = refl;
      conns_left = refl;
    },
    refl,
  )
  members-Delivered text bytes row (id ∷ members) s rows =
      let peer = Conns.find id s.conns in
      let first = deliver_to-One text bytes id peer (row id) s rows.0 in
      let after = (deliver x text bytes id s).1 in
      let (rest, same) =
        members-Delivered text bytes row members after
          (rw (first.done.conns_left, first.db_left) rows.1) in
      let rest' : Delivered (local_sent members s.conns bytes)
          (offline_tasks row members s.conns text)
          (published_for row members s.conns text (publish_for peer (row id) id text s.redis)) after
          (for_each members (deliver x text bytes) after) =
        rw (first.done.conns_left, first.done.redis_left) at rest in
      (
        Delivered-then _ _ _ _ _ _ s (deliver x text bytes id)
            (for_each members (deliver x text bytes)) first.done rest',
        rw first.done.returns (same ∙ first.rng_left),
      )

  ack-Delivered :
      (conn : ℕ) (msg_id : ℤ) (ack_text : Str) (s : Server Db Rs G)
      → x.json.dump (ack_json x msg_id) ≡ some ack_text
      → Delivered
          ((conn, (encrypted_message_svr x.evp ack_text 10 (to_u32 msg_id) s.rng).0) ∷ [])
          []
          s.redis
          s
          (ack_to_client x conn msg_id s)
  unfolding ack_to_client respond msg_code
  ack-Delivered conn msg_id ack_text s acks =
      rw (acks, ack_to_client)
        (record {
          returns = refl;
          sends = refl;
          queues = sym (append-nil _);
          redis_left = refl;
          conns_left = refl;
        })

-- A group message whose fields and members can be read, and whose ACK can be dumped: the frame of its
-- text is sent to the connection of every other member who is on this server, in order; for every
-- other member who is not, the text is published to the member's channel where the row is Online,
-- and otherwise a task to store it is queued, under the member's id; and then the frame of the ACK
-- is sent to the sender. Nothing else is sent, queued or published. The queries for the rows of the
-- members who are not on this server give these rows, one after the other.
pub group_chat-Delivered :
    {Json Db Rs G Ctx : Type 0} (x : Externals Json Db Rs G Ctx) (conn : ℕ) (js : Json)
    (s : Server Db Rs G) (userid groupid id : ℤ) (text ack_text : Str) (members : List ℤ)
    (row : ℤ → User)
    → x.json.number js "id" ≡ some userid
    → x.json.number js "groupid" ≡ some groupid
    → x.json.number js "msgId" ≡ some id
    → x.json.dump js ≡ some text
    → x.json.dump (ack_json x (to_int id)) ≡ some ack_text
    → (GroupModel.query_group_users x.mysql (to_int userid) (to_int groupid) s.db).0 ≡ ok members
    → RowsAre x row members s.conns
        (GroupModel.query_group_users x.mysql (to_int userid) (to_int groupid) s.db).1
    → (let (bytes, g) = encrypted_message_svr x.evp text 10 (to_u32 (to_int id)) s.rng in
        let ack = (encrypted_message_svr x.evp ack_text 10 (to_u32 (to_int id)) g).0 in
        Delivered x
          (local_sent members s.conns bytes ++ (conn, ack) ∷ [])
          (offline_tasks x row members s.conns text)
          (published_for x row members s.conns text s.redis)
          s
          (group_chat x conn js s))
unfolding group_chat msg_code
group_chat-Delivered x conn js s userid groupid id text ack_text members row e1 e2 e3 e4 acks q
      rows =
    let (bytes, g) = encrypted_message_svr x.evp text 10 (to_u32 (to_int id)) s.rng in
    let t = record s {
      rng = g;
      db = (GroupModel.query_group_users x.mysql (to_int userid) (to_int groupid) s.db).1;
    } in
    let loop = for_each members (deliver x text bytes) in
    let (delivered, same) = members-Delivered x text bytes row members t rows in
    let last =
      rw (same, delivered.redis_left) at
        (ack-Delivered x conn (to_int id) ack_text (loop t).1 acks) in
    let all =
      Delivered-then x _ _ _ [] _ _ t loop (ack_to_client x conn (to_int id)) delivered last in
    rw (e1, e2, e3, e4, q, group_chat)
      (record {
        returns = all.returns;
        sends = all.sends;
        queues = all.queues ∙ ap (λ (ts : List DbTaskArgs). s.tasks ++ ts) (append-nil _);
        redis_left = all.redis_left;
        conns_left = all.conns_left;
      })
