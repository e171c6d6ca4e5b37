-- ===== src/ChatServer.antt =====
-- src/server/chatserver.cpp: the callbacks of the TCP server.
pub mod Messages
pub mod Requests
pub mod Events
pub mod Start
pub mod Threads
use my_chat_project.Prelude.{
  ℕ, Bool, true, false, Option, none, some, [], ◌∷◌, ℤ, Str, length, drop, ltb, ◌==◌, if◌then◌else◌,
}
use my_chat_project.Exec.{Exec, json_exception, pure, or_throw, catch, ◌>>=◌, ◌>>◌}
use my_chat_project.Externals.{Externals, JsonLib, EvpLib}
use my_chat_project.Protocol.Header.{header_size, read_header}
use my_chat_project.Protocol.Cipher.{aes256_cbc_decrypt, my_aes_key}
use my_chat_project.Service.{Server, shutdown, on_rng, get_int}
use my_chat_project.Service.Account.{client_close_exception}
use my_chat_project.Service.Dispatch.{get_handler, run_handler}

module _ {Json Db Rs G Ctx : Type 0} (x : Externals Json Db Rs G Ctx) where
  -- getHandler(js["msgid"].get<int>()) and the call of the handler.
  unfoldable pub dispatch : ℕ → Json → Exec (Server Db Rs G) (Unit {0})
  dispatch conn js = do msgid ← get_int x js "msgid"; run_handler x (get_handler msgid) conn js

  -- The decrypted text: an exception of the handler is not caught.
  unfoldable pub on_parsed : ℕ → Option Json → Exec (Server Db Rs G) (Unit {0})
  on_parsed conn none = shutdown conn
  on_parsed conn (some js) = dispatch conn js

  unfoldable pub on_plain : ℕ → Str → Exec (Server Db Rs G) (Unit {0})
  on_plain conn [] = shutdown conn
  on_plain conn (b ∷ plain) = on_parsed conn (x.json.parse (b ∷ plain))

  -- header->isEncrypted == 1: decryption stands outside of every try block.
  unfoldable pub on_encrypted : ℕ → Str → Exec (Server Db Rs G) (Unit {0})
  on_encrypted conn payload = do
    plain ← on_rng (aes256_cbc_decrypt x.evp payload my_aes_key)
    on_plain conn plain

  -- The other payloads: every exception closes the connection.
  unfoldable pub on_unencrypted : ℕ → Str → Exec (Server Db Rs G) (Unit {0})
  on_unencrypted conn payload =
      catch (do js ← or_throw (x.json.parse payload) json_exception; dispatch conn js)
        (shutdown conn)

  -- ChatServer::onMessage, on all bytes that the buffer holds. The length in the header is not read.
  unfoldable pub on_message : ℕ → Str → Exec (Server Db Rs G) (Unit {0})
  on_message conn buf =
      if ltb (length buf) header_size
      then shutdown conn
      else if (read_header buf).is_encrypted == 1
      then on_encrypted conn (drop header_size buf)
      else on_unencrypted conn (drop header_size buf)

  -- ChatServer::onConnection, with the value of conn->connected().
  unfoldable pub on_connection : ℕ → Bool → Exec (Server Db Rs G) (Unit {0})
  on_connection conn true = pure tt
  on_connection conn false = do client_close_exception x conn; shutdown conn
