-- ===== src/Exchange/Frames.antt =====
-- src/server/chatservice.cpp, encryptedMessage_Svr, and src/client/main.cpp, readTaskHandler: a frame
-- of the server in front of whatever else one recv has given.
use my_chat_project.Prelude.{
  Bool, if◌then◌else◌, ℕ, ◌+◌, ◌-◌, ◌%◌, ◌^◌, ◌<◌, ◌≡◌, ◌≢◌, ◌∙◌, ap, refl, arith, true, false,
  some, Str, [], ◌++◌, append_assoc, length, length-append, drop, take-append_length, ltb,
}
use my_chat_project.Exec.{Exec, ok, pure, ◌>>=◌, ◌>>◌}
use my_chat_project.Externals.{ClientExternals, EvpLaws}
use my_chat_project.Protocol.Header.{MsgHeader, header_size, header_bytes, read_header}
use my_chat_project.Protocol.Header.Layout.{
  read_header-header_bytes, drop-header_bytes, length-header_bytes,
}
use my_chat_project.Protocol.Cipher.{aes256_cbc_encrypt, aes256_cbc_decrypt, my_aes_key}
use my_chat_project.Protocol.Cipher.Roundtrip.{decrypt-encrypt}
use my_chat_project.Protocol.Frame.{frame, frame_header, encrypted_message_svr}
use my_chat_project.Protocol.Frame.Open.{
  length-frame, drop-frame, frame_header-IsHeader, frame-split, frame-ne-nil,
}
use my_chat_project.Client.{Client, Now}
use my_chat_project.Client.Receive.{receive, receive_message, open_payload, payload_of}

module _ (cipher rest : Str) (t id : ℕ) (sealed : cipher ≢ []) where
  pub frame-rest :
      frame cipher t id ++ rest ≡ header_bytes (frame_header cipher t id) ++ (cipher ++ rest)
  frame-rest =
      rw (frame-split cipher t id sealed)
        (append_assoc (header_bytes (frame_header cipher t id)) cipher rest)

  header-rest :
      t < 2 ^ 32 → id < 2 ^ 32 → read_header (frame cipher t id ++ rest) ≡ frame_header cipher t id
  header-rest wt w = rw (frame-rest) (
      read_header-header_bytes (frame_header cipher t id) (cipher ++ rest)
        (frame_header-IsHeader cipher t id wt w))

  length-rest : length (frame cipher t id ++ rest) ≡ header_size + (length cipher + length rest)
  length-rest = rw (frame-rest) (
      omega (
        arith,
        length-append (header_bytes (frame_header cipher t id)) (cipher ++ rest),
        length-append cipher rest,
        length-header_bytes (frame_header cipher t id),
      ))

  payload_of-rest :
      header_size + length cipher < 2 ^ 32
      → payload_of (frame cipher t id ++ rest) (frame_header cipher t id) ≡ cipher
  unfolding payload_of frame_header
  payload_of-rest short =
      let size : ltb ((header_size + length cipher) % 2 ^ 32) header_size ≡ false = ground arith in
      let n : (header_size + length cipher) % 2 ^ 32 - header_size ≡ length cipher = omega arith in
      rw (size, n, frame-rest, drop-header_bytes (frame_header cipher t id) (cipher ++ rest))
        (take-append_length (length cipher) cipher rest refl)

module _ {Json G Ctx K Q : Type 0} (y : ClientExternals Json G Ctx K Q) where
  open_payload-cipher :
      (text : Str) (g : G) (d : Ctx) (c : Client G K Q)
      → EvpLaws y.evp
      → (aes256_cbc_encrypt y.evp text my_aes_key g).0 ≢ []
      → (y.evp.ctx_new c.rng).0 ≡ some d
      → open_payload y 1 (aes256_cbc_encrypt y.evp text my_aes_key g).0 c ≡ (
        ok text,
        record c {
          rng =
              (aes256_cbc_decrypt y.evp
                (aes256_cbc_encrypt y.evp text my_aes_key g).0
                my_aes_key
                c.rng).1;
        },
      )
  unfolding open_payload
  open_payload-cipher text g d c laws sealed fresh =
      rw (decrypt-encrypt y.evp text my_aes_key g c.rng d laws sealed fresh) refl

  -- `receive`, as a function of the header.
  abbrev receive_headed : Str → Now → MsgHeader → Exec (Client G K Q) Bool
  receive_headed buf now header =
      if ltb (length buf) header_size
      then pure false
      else if ltb (length buf) header.msg_length
      then pure false
      else (open_payload y header.is_encrypted (payload_of buf header) >>= λ message.
          (receive_message y message now >> pure true))

  receive-open :
      (buf payload : Str) (header : MsgHeader) (now : Now) (c : Client G K Q)
      → read_header buf ≡ header
      → ltb (length buf) header_size ≡ false
      → ltb (length buf) header.msg_length ≡ false
      → payload_of buf header ≡ payload
      → receive y buf now c
        ≡ (open_payload y header.is_encrypted payload >>= λ message.
              (receive_message y message now >> pure true))
            c
  unfolding receive
  receive-open buf payload header now c h long whole p =
      ap (λ (h : MsgHeader). receive_headed buf now h c) h ∙ rw (long, whole, p) refl

  -- A frame of the server's, in front of any other bytes that the same recv gave, is handled as its
  -- message is, and the other bytes are dropped. Only the state of the cipher library has changed
  -- before. The type and the id are uint32_t values, the frame is shorter than 2 ^ 32 bytes, the
  -- encryption did not fail, a cipher context can be had, and the EVP functions behave as
  -- documented.
  pub receive-frame :
      (text rest : Str) (t id : ℕ) (g : G) (d : Ctx) (now : Now) (c : Client G K Q)
      → EvpLaws y.evp
      → t < 2 ^ 32
      → id < 2 ^ 32
      → (encrypted_message_svr y.evp text t id g).0 ≢ []
      → length (encrypted_message_svr y.evp text t id g).0 < 2 ^ 32
      → (y.evp.ctx_new c.rng).0 ≡ some d
      → receive y ((encrypted_message_svr y.evp text t id g).0 ++ rest) now c
        ≡ (receive_message y text now >> pure true) (record c {
          rng =
              (aes256_cbc_decrypt y.evp
                (drop header_size (encrypted_message_svr y.evp text t id g).0)
                my_aes_key
                c.rng).1;
        })
  unfolding encrypted_message_svr frame_header
  receive-frame text rest t id g d now c laws wt w nonempty short fresh =
      let cipher = (aes256_cbc_encrypt y.evp text my_aes_key g).0 in
      let sealed = frame-ne-nil y.evp text t id g nonempty in
      let size : header_size + length cipher < 2 ^ 32 =
        omega (arith, length-frame cipher t id sealed, short) in
      let n = length-rest cipher rest t id sealed in
      let long : ltb (length (frame cipher t id ++ rest)) header_size ≡ false = ground (arith, n) in
      let whole : ltb (length (frame cipher t id ++ rest)) (frame_header cipher t id).msg_length
          ≡ false =
        ground (arith, n, size, frame_header) in
      receive-open (frame cipher t id ++ rest) cipher (frame_header cipher t id) now c
        (header-rest cipher rest t id sealed wt w) long whole
        (payload_of-rest cipher rest t id sealed size)
      ∙ rw (open_payload-cipher text g d c laws sealed fresh, drop-frame cipher t id sealed) refl
