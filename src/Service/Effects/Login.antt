-- ===== src/Service/Effects/Login.antt =====
-- When a login stores its connection.
use my_chat_project.Prelude.{
  ℕ, ◌≡◌, refl, Bool-cases, ◌&&◌, not, inl, inr, some, ℤ, to_int, eq_str, Str, if◌then◌else◌,
}
use my_chat_project.Exec.{ok, ◌>>◌}
use my_chat_project.Exec.Keeps.{Keeps}
use my_chat_project.Externals.{Externals}
use my_chat_project.Model.{User, online}
use my_chat_project.Db.UserModel
use my_chat_project.Service.Conns.{insert}
use my_chat_project.Service.{Server, ack_to_client}
use my_chat_project.Service.Texts.{already_online, wrong_password}
use my_chat_project.Service.Account.{
  login, credentials_match, accept_login, refuse_login, complete_login,
}
use my_chat_project.Service.Invariant.{OnShared, shared_rules}
use my_chat_project.Service.Invariant.Handlers.{complete_login-OnShared, refuse_login-OnShared}

module _ {Json Db Rs G Ctx : Type 0} (x : Externals Json Db Rs G Ctx) (conn : ℕ) where
  accept-conns :
      (user : User) (id msg_id : ℤ) (s : Server Db Rs G)
      → ((accept_login x conn user id msg_id >> ack_to_client x conn msg_id) s).1.conns
        ≡ insert id conn s.conns
  unfolding accept_login
  accept-conns user id msg_id s = (rest).at (record s { conns = insert id conn s.conns }) refl
    where
      rest :
          Keeps {S = Server Db Rs G}
            (OnShared (λ m q. m ≡ insert id conn s.conns))
            (complete_login x conn user id msg_id >> ack_to_client x conn msg_id)
      rest = search (shared_rules, complete_login-OnShared)

  refuse-conns :
      (errno : ℕ) (errmsg : Str) (msg_id : ℤ) (s : Server Db Rs G)
      → ((refuse_login x conn errno errmsg msg_id >> ack_to_client x conn msg_id) s).1.conns
        ≡ s.conns
  refuse-conns errno errmsg msg_id s = rest.at s refl
    where
      rest :
          Keeps
            (OnShared (λ m q. m ≡ s.conns))
            (refuse_login x conn errno errmsg msg_id >> ack_to_client x conn msg_id)
      rest = search (shared_rules, refuse_login-OnShared)

-- A login whose fields, and the row of whose id, can be read stores its connection under the id,
-- unless the id has one, exactly when the row of the id has that id and password and its state is
-- not Online; otherwise the connection map stays as it was.
pub conns-login :
    {Json Db Rs G Ctx : Type 0} (x : Externals Json Db Rs G Ctx) (conn : ℕ) (js : Json)
    (s : Server Db Rs G) (id msg_id : ℤ) (pwd : Str) (user : User)
    → x.json.number js "id" ≡ some id
    → x.json.text js "password" ≡ some pwd
    → x.json.number js "msgId" ≡ some msg_id
    → (UserModel.query_user x.mysql (to_int id) s.db).0 ≡ ok user
    → (login x conn js s).1.conns ≡ (
        if credentials_match user (to_int id) pwd && not (eq_str user.state online)
        then insert (to_int id) conn s.conns
        else s.conns)
unfolding login
conns-login x conn js s id msg_id pwd user e1 e2 e3 q =
    let after = record s { db = (UserModel.query_user x.mysql (to_int id) s.db).1 } in
    elim (Bool-cases (credentials_match user (to_int id) pwd)) [
      | inr wrong ↦
          rw (e1, e2, e3, q, wrong, login)
            (refuse-conns x conn 1 wrong_password (to_int msg_id) after)
      | inl right ↦ elim (Bool-cases (eq_str user.state online)) [
        | inl up ↦
            rw (e1, e2, e3, q, right, up, login)
              (refuse-conns x conn 2 already_online (to_int msg_id) after)
        | inr down ↦
            rw (e1, e2, e3, q, right, down, login)
              (accept-conns x conn user (to_int id) (to_int msg_id) after)
      ]
    ]
