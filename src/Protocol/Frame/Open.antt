-- ===== src/Protocol/Frame/Open.antt =====
-- What a receiver makes of a frame.
use my_chat_project.Prelude.{
  ℕ, ◌+◌, ◌%◌, ◌^◌, ◌<◌, ◌≡◌, ◌≢◌, refl, ap, arith, Str, [], ◌∷◌, ◌++◌, length, length-append, drop,
  some,
}
use my_chat_project.Exec.{ok}
use my_chat_project.Externals.{EvpLib, EvpLaws}
use my_chat_project.Protocol.Header.{MsgHeader, header_size, header_bytes, read_header}
use my_chat_project.Protocol.Header.Layout.{
  IsHeader, length-header_bytes, read_header-header_bytes, drop-header_bytes,
}
use my_chat_project.Protocol.Cipher.{aes256_cbc_encrypt, aes256_cbc_decrypt, my_aes_key}
use my_chat_project.Protocol.Cipher.Roundtrip.{decrypt-encrypt}
use my_chat_project.Protocol.Frame.{frame, frame_header, encrypted_message_svr}

pub frame_header-IsHeader :
    (cipher : Str) (t id : ℕ) → t < 2 ^ 32 → id < 2 ^ 32 → IsHeader (frame_header cipher t id)
unfolding frame_header
frame_header-IsHeader cipher t id ht h = record {
  length_word = omega arith;
  type_word = ht;
  id_word = h;
  encrypted_word = omega arith;
}

pub frame-split :
    (cipher : Str) (t id : ℕ)
    → cipher ≢ []
    → frame cipher t id ≡ header_bytes (frame_header cipher t id) ++ cipher
unfolding frame
frame-split [] t id h = absurd (h refl)
frame-split (b ∷ cipher) t id h = refl

pub read_header-frame :
    (cipher : Str) (t id : ℕ)
    → cipher ≢ []
    → t < 2 ^ 32
    → id < 2 ^ 32
    → read_header (frame cipher t id) ≡ frame_header cipher t id
read_header-frame cipher t id h wt w = rw (frame-split cipher t id h) (
    read_header-header_bytes (frame_header cipher t id) cipher
      (frame_header-IsHeader cipher t id wt w))

pub drop-frame :
    (cipher : Str) (t id : ℕ) → cipher ≢ [] → drop header_size (frame cipher t id) ≡ cipher
drop-frame cipher t id h =
    rw (frame-split cipher t id h) (drop-header_bytes (frame_header cipher t id) cipher)

pub length-frame :
    (cipher : Str) (t id : ℕ)
    → cipher ≢ []
    → length (frame cipher t id) ≡ header_size + length cipher
length-frame cipher t id h = rw (frame-split cipher t id h) (
    omega (
      arith,
      length-append (header_bytes (frame_header cipher t id)) cipher,
      length-header_bytes (frame_header cipher t id),
    ))

module _ {G Ctx : Type 0} (e : EvpLib G Ctx) where
  pub frame-ne-nil :
      (msg : Str) (t id : ℕ) (g : G)
      → (encrypted_message_svr e msg t id g).0 ≢ []
      → (aes256_cbc_encrypt e msg my_aes_key g).0 ≢ []
  unfolding encrypted_message_svr frame
  frame-ne-nil msg t id g h z = h (rw (z, encrypted_message_svr, frame))

  -- A message that was framed, the encryption not having failed, is what the receiver gets by
  -- decrypting all bytes after the header; the header has the type, the id, the encryption flag and
  -- the length of the frame in 32 bits. The type and the id are uint32_t values, a cipher context can
  -- be had, and the EVP functions behave as documented.
  pub open-encrypted_message_svr :
      (msg : Str) (t id : ℕ) (g later : G) (d : Ctx)
      → EvpLaws e
      → t < 2 ^ 32
      → id < 2 ^ 32
      → (encrypted_message_svr e msg t id g).0 ≢ []
      → (e.ctx_new later).0 ≡ some d
      → ((aes256_cbc_decrypt e
            (drop header_size (encrypted_message_svr e msg t id g).0)
            my_aes_key
            later).0
          ≡ ok msg)
        × ((read_header (encrypted_message_svr e msg t id g).0).msg_type ≡ t)
        × ((read_header (encrypted_message_svr e msg t id g).0).msg_id ≡ id)
        × ((read_header (encrypted_message_svr e msg t id g).0).is_encrypted ≡ 1)
        × ((read_header (encrypted_message_svr e msg t id g).0).msg_length
            ≡ length (encrypted_message_svr e msg t id g).0 % 2 ^ 32)
  unfolding encrypted_message_svr frame_header
  open-encrypted_message_svr msg t id g later d laws wt w nonempty fresh =
      let cipher = (aes256_cbc_encrypt e msg my_aes_key g).0 in
      let sealed = frame-ne-nil msg t id g nonempty in
      let header = read_header-frame cipher t id sealed wt w in
      (
        rw (drop-frame cipher t id sealed)
            (decrypt-encrypt e msg my_aes_key g later d laws sealed fresh),
        ap (λ (h : MsgHeader). h.msg_type) header,
        ap (λ (h : MsgHeader). h.msg_id) header,
        ap (λ (h : MsgHeader). h.is_encrypted) header,
        rw (length-frame cipher t id sealed) (ap (λ (h : MsgHeader). h.msg_length) header),
      )
