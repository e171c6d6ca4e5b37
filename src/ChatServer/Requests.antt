-- ===== src/ChatServer/Requests.antt =====
-- A request on its way from the sender's frame to its handler.
use my_chat_project.Prelude.{
  ℕ, ◌^◌, ◌<◌, ◌≡◌, ◌≢◌, refl, arith, true, false, ℤ, to_int, some, Str, [], ◌∷◌, length, drop, ltb,
  ◌==◌,
}
use my_chat_project.Externals.{Externals, EvpLaws}
use my_chat_project.Protocol.Header.{header_size, read_header}
use my_chat_project.Protocol.Cipher.{aes256_cbc_encrypt, aes256_cbc_decrypt, my_aes_key}
use my_chat_project.Protocol.Frame.{encrypted_message_svr}
use my_chat_project.Protocol.Frame.Open.{open-encrypted_message_svr, length-frame, frame-ne-nil}
use my_chat_project.Service.{Server}
use my_chat_project.Service.Dispatch.{get_handler, run_handler}
use my_chat_project.ChatServer.{on_message, on_encrypted, on_plain, on_parsed, dispatch}

module _ {Json Db Rs G Ctx : Type 0} (x : Externals Json Db Rs G Ctx) where
  on_plain-parsed :
      (conn : ℕ) (js : Json) (text : Str) (n : ℤ) (s : Server Db Rs G)
      → text ≢ []
      → x.json.parse text ≡ some js
      → x.json.number js "msgid" ≡ some n
      → on_plain x conn text s ≡ run_handler x (get_handler (to_int n)) conn js s
  unfolding on_plain on_parsed dispatch
  on_plain-parsed conn js [] n s h p q = absurd (h refl)
  on_plain-parsed conn js (b ∷ text) n s h p q = rw (p, on_parsed) (rw (q, dispatch) refl)

  long-frame :
      (text : Str) (t id : ℕ) (g : G)
      → (encrypted_message_svr x.evp text t id g).0 ≢ []
      → ltb (length (encrypted_message_svr x.evp text t id g).0) 16 ≡ false
  unfolding encrypted_message_svr
  long-frame text t id g sealed = ground (
    arith,
    length-frame (aes256_cbc_encrypt x.evp text my_aes_key g).0 t id
        (frame-ne-nil x.evp text t id g sealed),
  )

  -- A request that the sender could encrypt and frame, with any type and id in its header, reaches
  -- the handler that its own msgid names, as the object that was sent, however the rest of the
  -- handler goes; only the state of the cipher library has changed before. Parsing gives back the
  -- object of the text, a cipher context can be had, and the EVP functions behave as documented.
  pub on_message-encrypted_message :
      (conn : ℕ) (js : Json) (text : Str) (n : ℤ) (t id : ℕ) (g : G) (d : Ctx) (s : Server Db Rs G)
      → EvpLaws x.evp
      → t < 2 ^ 32
      → id < 2 ^ 32
      → (encrypted_message_svr x.evp text t id g).0 ≢ []
      → (x.evp.ctx_new s.rng).0 ≡ some d
      → text ≢ []
      → x.json.parse text ≡ some js
      → x.json.number js "msgid" ≡ some n
      → on_message x conn (encrypted_message_svr x.evp text t id g).0 s
        ≡ run_handler x (get_handler (to_int n)) conn js (record s {
          rng =
              (aes256_cbc_decrypt x.evp
                (drop header_size (encrypted_message_svr x.evp text t id g).0)
                my_aes_key
                s.rng).1;
        })
  unfolding on_message on_encrypted
  on_message-encrypted_message conn js text n t id g d s laws ht hid sealed fresh nonempty p q =
      let opened = open-encrypted_message_svr x.evp text t id g s.rng d laws ht hid sealed fresh in
      let marked : ((read_header (encrypted_message_svr x.evp text t id g).0).is_encrypted == 1)
          ≡ true =
        rw opened.3 refl in
      rw (long-frame text t id g sealed, marked, on_message)
        (rw (opened.0, on_encrypted) (on_plain-parsed conn js text n _ nonempty p q))
