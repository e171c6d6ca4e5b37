-- ===== src/Service/Dispatch.antt =====
-- src/server/chatservice.cpp: _msgHandlerMap and getHandler.
use my_chat_project.Prelude.{ℕ, Option, none, some, ℤ, pos, eq_int, if◌then◌else◌}
use my_chat_project.Exec.{Exec, pure}
use my_chat_project.Externals.{Externals}
use my_chat_project.Protocol.Header.{
  msg_code, login_msg, logout_msg, reg_msg, one_chat_msg, add_friend_msg, create_group_msg,
  add_group_msg, group_chat_msg,
}
use my_chat_project.Service.{Server}
use my_chat_project.Service.Account.{login, logout, reg}
use my_chat_project.Service.Chat.{one_chat, group_chat, add_friend}
use my_chat_project.Service.Group.{create_group, add_group}

-- The registered handlers.
pub data Handler : Type 0 where
  login_handler reg_handler one_chat_handler add_friend_handler create_group_handler : Handler
  add_group_handler group_chat_handler logout_handler : Handler

-- _msgHandlerMap.find(msgid)
unfoldable pub get_handler : ℤ → Option Handler
unfolding msg_code
get_handler msgid =
    if eq_int msgid (pos (msg_code login_msg))
    then some login_handler
    else if eq_int msgid (pos (msg_code reg_msg))
    then some reg_handler
    else if eq_int msgid (pos (msg_code one_chat_msg))
    then some one_chat_handler
    else if eq_int msgid (pos (msg_code add_friend_msg))
    then some add_friend_handler
    else if eq_int msgid (pos (msg_code create_group_msg))
    then some create_group_handler
    else if eq_int msgid (pos (msg_code add_group_msg))
    then some add_group_handler
    else if eq_int msgid (pos (msg_code group_chat_msg))
    then some group_chat_handler
    else if eq_int msgid (pos (msg_code logout_msg))
    then some logout_handler
    else none

module _ {Json Db Rs G Ctx : Type 0} (x : Externals Json Db Rs G Ctx) where
  -- The call of the handler; without one the default handler logs an error.
  unfoldable pub run_handler : Option Handler → ℕ → Json → Exec (Server Db Rs G) (Unit {0})
  run_handler (some login_handler) conn js = login x conn js
  run_handler (some reg_handler) conn js = reg x conn js
  run_handler (some one_chat_handler) conn js = one_chat x conn js
  run_handler (some add_friend_handler) conn js = add_friend x conn js
  run_handler (some create_group_handler) conn js = create_group x conn js
  run_handler (some add_group_handler) conn js = add_group x conn js
  run_handler (some group_chat_handler) conn js = group_chat x conn js
  run_handler (some logout_handler) conn js = logout x conn js
  run_handler none conn js = pure tt
