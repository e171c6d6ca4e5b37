-- ===== src/ChatServer/Messages.antt =====
-- Which exceptions leave onMessage.
use my_chat_project.Prelude.{
  ℕ, ◌≡◌, ◌≢◌, ◌≤◌, arith, Bool-cases, inl, inr, Str, length, length-drop, drop, ltb, leb, ◌==◌,
  ◌+◌,
}
use my_chat_project.Exec.{Exception, Outcome, ok, throws, undefined, runtime_error, handle}
use my_chat_project.Externals.{Externals}
use my_chat_project.Protocol.Header.{header_size, read_header}
use my_chat_project.Protocol.Cipher.{aes256_cbc_decrypt}
use my_chat_project.Service.{Server, shutdown}
use my_chat_project.ChatServer.{true, false, on_message, on_encrypted, on_unencrypted}

handle-shutdown :
    {Db Rs G : Type 0} (r : Outcome (Unit {0})) (conn : ℕ) (s : Server Db Rs G) (e : Exception)
    → (handle r (shutdown conn) s).0 ≢ throws e
handle-shutdown (ok a) conn s e h = cc
handle-shutdown (throws e') conn s e h = cc
handle-shutdown undefined conn s e h = cc

module _ {Json Db Rs G Ctx : Type 0} (x : Externals Json Db Rs G Ctx) (conn : ℕ) (buf : Str)
    (s : Server Db Rs G) where
  -- A message that is not marked as encrypted never makes onMessage throw, whatever its payload and
  -- whatever its handler throws.
  pub on_message-no_throw :
      (e : Exception) → (read_header buf).is_encrypted ≢ 1 → (on_message x conn buf s).0 ≢ throws e
  unfolding on_message on_unencrypted
  on_message-no_throw e plain = elim (Bool-cases (ltb (length buf) header_size)) [
    | inl short ↦ rw (short, on_message) (λ h. cc)
    | inr full ↦
        let not_one : ((read_header buf).is_encrypted == 1) ≡ false = ground arith in
        rw (full, not_one, on_message) (handle-shutdown _ conn _ e)
  ]

  -- A message that is marked as encrypted and whose payload is no longer than the IV makes onMessage
  -- throw, with nothing written and the connection left open.
  pub on_message-throws :
      header_size ≤ length buf
      → (read_header buf).is_encrypted ≡ 1
      → length buf ≤ header_size + x.evp.iv_length
      → on_message x conn buf s ≡ (throws runtime_error, s)
  unfolding on_message on_encrypted aes256_cbc_decrypt
  on_message-throws full encrypted short =
      let not_short : ltb (length buf) header_size ≡ false = ground arith in
      let marked : ((read_header buf).is_encrypted == 1) ≡ true = ground arith in
      let no_text : leb (length (drop header_size buf)) x.evp.iv_length ≡ true =
        ground (arith, length-drop 16 buf) in
      rw (not_short, marked, on_message) (rw (no_text, on_encrypted, aes256_cbc_decrypt))
