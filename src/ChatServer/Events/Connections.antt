-- ===== src/ChatServer/Events/Connections.antt =====
-- The connection map over any history of the server.
use my_chat_project.Prelude.{
  inl, inr, ◌⊎◌, ap, ◌∙◌, arith, eq_int_iff, ℕ, ◌≡◌, ◌≢◌, refl, Bool, true, false, Option, none,
  some, List, [], ◌∷◌, ℤ, Str,
}
use my_chat_project.Exec.Keeps.{Keeps}
use my_chat_project.Externals.{Externals}
use my_chat_project.Service.Conns.{
  ConnMap, find-insert, IsMap, insert, erase, insert-IsMap, erase-IsMap,
}
use my_chat_project.Service.Conns
use my_chat_project.DbTask.{push, pop, work_on, work_once}
use my_chat_project.Model.{DbTaskArgs}
use my_chat_project.Service.{Server}
use my_chat_project.Service.Dispatch.{
  Handler, login_handler, reg_handler, one_chat_handler, add_friend_handler, create_group_handler,
  add_group_handler, group_chat_handler, logout_handler, run_handler,
}
use my_chat_project.Service.Invariant.{OnShared, shared_rules}
use my_chat_project.Service.Invariant.Handlers.{
  login-OnShared, reg-OnShared, one_chat-OnShared, add_friend-OnShared, create_group-OnShared,
  add_group-OnShared, group_chat-OnShared, logout-OnShared, client_close_exception-OnShared,
  handle_redis_subscribe_message-OnShared,
}
use my_chat_project.ChatServer.{
  dispatch, on_parsed, on_plain, on_encrypted, on_unencrypted, on_message, on_connection,
}
use my_chat_project.ChatServer.Events.{
  Event, message, connection, redis_reply, db_round, db_work, notify, observer_round, handle_event,
  run,
}

module _ {Json Db Rs G Ctx : Type 0} (x : Externals Json Db Rs G Ctx) where
  -- A handler other than those of login and logout leaves the connection map as it was.
  pub conns-run_handler :
      (h : Handler) (conn : ℕ) (js : Json) (s : Server Db Rs G)
      → h ≢ login_handler
      → h ≢ logout_handler
      → (run_handler x (some h) conn js s).1.conns ≡ s.conns
  unfolding run_handler
  conns-run_handler login_handler conn js s l o = absurd (l refl)
  conns-run_handler logout_handler conn js s l o = absurd (o refl)
  conns-run_handler reg_handler conn js s l o =
      (reg-OnShared x (λ m q. m ≡ s.conns) (λ m q t h. h) conn js).at s refl
  conns-run_handler one_chat_handler conn js s l o =
      (one_chat-OnShared x (λ m q. m ≡ s.conns) (λ m q t h. h) conn js).at s refl
  conns-run_handler add_friend_handler conn js s l o =
      (add_friend-OnShared x (λ m q. m ≡ s.conns) (λ m q t h. h) conn js).at s refl
  conns-run_handler create_group_handler conn js s l o =
      (create_group-OnShared x (λ m q. m ≡ s.conns) (λ m q t h. h) conn js).at s refl
  conns-run_handler add_group_handler conn js s l o =
      (add_group-OnShared x (λ m q. m ≡ s.conns) (λ m q t h. h) conn js).at s refl
  conns-run_handler group_chat_handler conn js s l o =
      (group_chat-OnShared x (λ m q. m ≡ s.conns) (λ m q t h. h) conn js).at s refl

module _ {Json Db Rs G Ctx : Type 0} (x : Externals Json Db Rs G Ctx)
    (P : ConnMap → List DbTaskArgs → Type 0)
    (pushes : (m : ConnMap) (q : List DbTaskArgs) (t : DbTaskArgs) → P m q → P m (push t q))
    (inserts : (id : ℤ) (conn : ℕ) (m : ConnMap) (q : List DbTaskArgs)
      → P m q
      → P (insert id conn m) q)
    (erases : (id : ℤ) (m : ConnMap) (q : List DbTaskArgs) → P m q → P (erase id m) q) where
  run_handler-OnShared :
      (h : Option Handler) (conn : ℕ) (js : Json) → Keeps (OnShared P) (run_handler x h conn js)
  unfolding run_handler
  run_handler-OnShared none conn js = search shared_rules
  run_handler-OnShared (some login_handler) conn js =
      login-OnShared x P pushes conn js (λ id m q. inserts id conn m q)
  run_handler-OnShared (some reg_handler) conn js = reg-OnShared x P pushes conn js
  run_handler-OnShared (some one_chat_handler) conn js = one_chat-OnShared x P pushes conn js
  run_handler-OnShared (some add_friend_handler) conn js = add_friend-OnShared x P pushes conn js
  run_handler-OnShared (some create_group_handler) conn js =
      create_group-OnShared x P pushes conn js
  run_handler-OnShared (some add_group_handler) conn js = add_group-OnShared x P pushes conn js
  run_handler-OnShared (some group_chat_handler) conn js = group_chat-OnShared x P pushes conn js
  run_handler-OnShared (some logout_handler) conn js = logout-OnShared x P pushes conn js erases

  dispatch-OnShared : (conn : ℕ) (js : Json) → Keeps (OnShared P) (dispatch x conn js)
  unfolding dispatch
  dispatch-OnShared conn js = search (shared_rules, run_handler-OnShared)

  on_parsed-OnShared : (conn : ℕ) (js : Option Json) → Keeps (OnShared P) (on_parsed x conn js)
  unfolding on_parsed
  on_parsed-OnShared conn none = search shared_rules
  on_parsed-OnShared conn (some js) = dispatch-OnShared conn js

  on_plain-OnShared :
      (conn : ℕ) (plain : Str) → Keeps {S = Server Db Rs G} (OnShared P) (on_plain x conn plain)
  unfolding on_plain
  on_plain-OnShared conn [] = search shared_rules
  on_plain-OnShared conn (b ∷ plain) = on_parsed-OnShared conn _

  on_encrypted-OnShared :
      (conn : ℕ) (payload : Str)
      → Keeps {S = Server Db Rs G} (OnShared P) (on_encrypted x conn payload)
  unfolding on_encrypted
  on_encrypted-OnShared conn payload = search (shared_rules, on_plain-OnShared)

  on_unencrypted-OnShared :
      (conn : ℕ) (payload : Str)
      → Keeps {S = Server Db Rs G} (OnShared P) (on_unencrypted x conn payload)
  unfolding on_unencrypted
  on_unencrypted-OnShared conn payload = search (shared_rules, dispatch-OnShared) depth 7

  on_message-OnShared :
      (conn : ℕ) (buf : Str) → Keeps {S = Server Db Rs G} (OnShared P) (on_message x conn buf)
  unfolding on_message
  on_message-OnShared conn buf =
      search (shared_rules, on_encrypted-OnShared, on_unencrypted-OnShared)

  on_connection-OnShared :
      (conn : ℕ) (up : Bool) → Keeps {S = Server Db Rs G} (OnShared P) (on_connection x conn up)
  unfolding on_connection
  on_connection-OnShared conn true = search shared_rules
  on_connection-OnShared conn false =
      search (shared_rules, client_close_exception-OnShared x P pushes conn erases)

  notify-OnShared :
      (found : Option (ℤ × Str)) → Keeps {S = Server Db Rs G} (OnShared P) (notify x found)
  unfolding notify
  notify-OnShared none = search shared_rules
  notify-OnShared (some (userid, msg)) =
      handle_redis_subscribe_message-OnShared x P pushes userid msg

  -- An event of the network or of redis.
  pub outer_event-OnShared :
      (e : Event) → e ≢ db_round → Keeps {S = Server Db Rs G} (OnShared P) (handle_event x e)
  unfolding handle_event observer_round
  outer_event-OnShared (message conn buf) n = on_message-OnShared conn buf
  outer_event-OnShared (connection conn up) n = on_connection-OnShared conn up
  outer_event-OnShared redis_reply n = search (shared_rules, notify-OnShared)
  outer_event-OnShared db_round n = absurd (n refl)

  popped :
      (m : ConnMap) (q : List DbTaskArgs) (db : Db)
      → ((t : DbTaskArgs) (q : List DbTaskArgs) → P m (t ∷ q) → P m q)
      → P m q
      → P m (work_once x.mysql (record { queue = q; db = db })).1.queue
  unfolding work_once work_on pop
  popped m [] db pops h = h
  popped m (t ∷ q) db pops h = pops t q h

  handle_event-OnShared :
      (e : Event)
      → ((m : ConnMap) (t : DbTaskArgs) (q : List DbTaskArgs) → P m (t ∷ q) → P m q)
      → Keeps {S = Server Db Rs G} (OnShared P) (handle_event x e)
  unfolding handle_event db_work
  handle_event-OnShared (message conn buf) pops = outer_event-OnShared (message conn buf) (λ e. cc)
  handle_event-OnShared (connection conn up) pops =
      outer_event-OnShared (connection conn up) (λ e. cc)
  handle_event-OnShared redis_reply pops = outer_event-OnShared redis_reply (λ e. cc)
  handle_event-OnShared db_round pops = record {
    at = λ s h. popped s.conns s.tasks s.db (pops s.conns) h;
  }

  run-OnShared :
      (events : List Event) (s : Server Db Rs G)
      → ((m : ConnMap) (t : DbTaskArgs) (q : List DbTaskArgs) → P m (t ∷ q) → P m q)
      → OnShared P s
      → OnShared P (run x events s)
  unfolding run
  run-OnShared [] s pops h = h
  run-OnShared (e ∷ events) s pops h =
      run-OnShared events (handle_event x e s).1 pops ((handle_event-OnShared e pops).at s h)

-- An entry outlives an insertion.
find-insert_held :
    (k id : ℤ) (conn held : ℕ) (m : ConnMap)
    → Conns.find id m ≡ some held
    → Conns.find id (insert k conn m) ≡ some held
find-insert_held k id conn held m f = find-insert k id conn m ∙ ground (arith, eq_int_iff k id)

login_or_not : (h : Handler) → (h ≡ login_handler) ⊎ (h ≢ login_handler)
login_or_not login_handler = inl refl
login_or_not reg_handler = inr (λ e. cc)
login_or_not one_chat_handler = inr (λ e. cc)
login_or_not add_friend_handler = inr (λ e. cc)
login_or_not create_group_handler = inr (λ e. cc)
login_or_not add_group_handler = inr (λ e. cc)
login_or_not group_chat_handler = inr (λ e. cc)
login_or_not logout_handler = inr (λ e. cc)

login_step :
    {Json Db Rs G Ctx : Type 0} (x : Externals Json Db Rs G Ctx) (P : ConnMap → Type 0) (conn : ℕ)
    (js : Json)
    → ((id : ℤ) (m : ConnMap) → P m → P (insert id conn m))
    → Keeps (OnShared (λ m q. P m)) (run_handler x (some login_handler) conn js)
unfolding run_handler
login_step x P conn js inserts =
    login-OnShared x (λ m q. P m) (λ m q t h. h) conn js (λ id m q h. inserts id m h)

-- After any history of messages, connections, and rounds of the threads for redis and the database,
-- no user has two entries in the connection map, if none had before.
pub run-IsMap :
    {Json Db Rs G Ctx : Type 0} (x : Externals Json Db Rs G Ctx) (events : List Event)
    (s : Server Db Rs G)
    → IsMap s.conns
    → IsMap (run x events s).conns
run-IsMap x events s v =
    run-OnShared x (λ m q. IsMap m) (λ m q t h. h) (λ id conn m q h. insert-IsMap id conn m h)
      (λ id m q h. erase-IsMap id m h) events s (λ m t q h. h) v

-- A handler other than that of logout leaves every user who has a connection on the same connection;
-- so does a login of that user from another connection.
pub find-run_handler :
    {Json Db Rs G Ctx : Type 0} (x : Externals Json Db Rs G Ctx) (h : Handler) (conn held : ℕ)
    (id : ℤ) (js : Json) (s : Server Db Rs G)
    → h ≢ logout_handler
    → Conns.find id s.conns ≡ some held
    → Conns.find id (run_handler x (some h) conn js s).1.conns ≡ some held
find-run_handler x h conn held id js s o f = elim (login_or_not h) [
  | inl e ↦ rw e (
      (login_step x (λ m. Conns.find id m ≡ some held) conn js
          (λ k m g. find-insert_held k id conn held m g)).at
        s f)
  | inr l ↦ ap (Conns.find id) (conns-run_handler x h conn js s l o) ∙ f
]
