-- ===== src/Protocol/Frame.antt =====
-- src/server/chatservice.cpp, encryptedMessage_Svr: a message becomes a header and a ciphertext.
pub mod Open
use my_chat_project.Prelude.{ℕ, ◌+◌, ◌%◌, ◌^◌, Str, [], ◌∷◌, ◌++◌, length}
use my_chat_project.Externals.{EvpLib}
use my_chat_project.Protocol.Header.{MsgHeader, header_size, header_bytes}
use my_chat_project.Protocol.Cipher.{aes256_cbc_encrypt, my_aes_key}

-- The header that is put in front of a ciphertext; the length is converted to uint32_t. The type is
-- the number that the EnMsgType holds, which need be no enumerator's.
unfoldable pub frame_header : Str → ℕ → ℕ → MsgHeader
frame_header cipher msg_type msg_id = record {
  msg_length = (header_size + length cipher) % 2 ^ 32;
  msg_type = msg_type;
  msg_id = msg_id;
  is_encrypted = 1;
}

unfoldable pub frame : Str → ℕ → ℕ → Str
unfolding frame_header
frame [] msg_type msg_id = []
frame (b ∷ cipher) msg_type msg_id =
    header_bytes (frame_header (b ∷ cipher) msg_type msg_id) ++ b ∷ cipher

-- encryptedMessage_Svr: "" when the encryption failed.
unfoldable pub encrypted_message_svr : {G Ctx : Type 0} → EvpLib G Ctx → Str → ℕ → ℕ → G → Str × G
unfolding frame
encrypted_message_svr e msg msg_type msg_id g =
    let (cipher, g') = aes256_cbc_encrypt e msg my_aes_key g in (frame cipher msg_type msg_id, g')
