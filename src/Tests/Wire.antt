-- ===== src/Tests/Wire.antt =====
-- The message format, the cipher and the ids at concrete inputs.
use my_chat_project.Prelude.{
  ℕ, ◌≢◌, digits, is_space, is_digit, to_u32, read_digits, ℕ, ◌%◌, ◌^◌, ◌≡◌, ◌↔◌, refl, arith, pos,
  negsuc, Str, codes, [], ◌∷◌, length, drop, to_string, atoi,
}
use my_chat_project.Exec.{ok, throws, runtime_error}
use my_chat_project.Protocol.Header.{MsgHeader, header_size, header_bytes, read_header}
use my_chat_project.Protocol.Cipher.{my_aes_key, aes256_cbc_encrypt, aes256_cbc_decrypt}
use my_chat_project.Protocol.Frame.{encrypted_message_svr}
use my_chat_project.Protocol.Frame.Open.{open-encrypted_message_svr}
use my_chat_project.Protocol.MsgId.{generate_unique_msg_id}
use my_chat_project.Protocol.MsgId.Repeats.{generate-repeats}
use my_chat_project.Tests.Toys.{zeros, evp, evp-EvpLaws}

abbrev chat_header : MsgHeader
chat_header = record { msg_length = 300; msg_type = 6; msg_id = 70000; is_encrypted = 1 }

header_bytes-chat :
    header_bytes chat_header
    ≡ 44 ∷ 1 ∷ 0 ∷ 0 ∷ 6 ∷ 0 ∷ 0 ∷ 0 ∷ 112 ∷ 17 ∷ 1 ∷ 0 ∷ 1 ∷ 0 ∷ 0 ∷ 0 ∷ []
unfolding header_bytes
header_bytes-chat = refl

numbers : (to_string (negsuc 41) ≡ codes "-42") × (atoi (codes " +17x") ≡ pos 17)
unfolding to_string atoi digits
numbers = (refl, refl)

-- At 2 seconds: without a client id, and with a suffix that runs into the shifted time.
ids :
    (generate_unique_msg_id 2 [] ≡ ok 8192)
    × (generate_unique_msg_id 2 (codes "user0017") ≡ ok 8209)
    × (generate_unique_msg_id 2 (codes "user8192") ≡ generate_unique_msg_id 2 [])
    × (generate_unique_msg_id 2 (codes "abc") ≡ throws runtime_error)
unfolding generate_unique_msg_id is_space is_digit to_u32 read_digits
ids = (refl, refl, refl, refl)

cons-ne-nil : {b : ℕ} {s : Str} → b ∷ s ≢ []
cons-ne-nil e = cc

sealed-ne-nil : (aes256_cbc_encrypt evp (codes "hi") my_aes_key 0).0 ≢ []
unfolding aes256_cbc_encrypt zeros
sealed-ne-nil = cons-ne-nil

framed-ne-nil : (encrypted_message_svr evp (codes "hi") 10 8192 0).0 ≢ []
unfolding encrypted_message_svr aes256_cbc_encrypt header_bytes zeros
framed-ne-nil = cons-ne-nil

open-encrypted_message_svr_example :
    ((aes256_cbc_decrypt evp
        (drop header_size (encrypted_message_svr evp (codes "hi") 10 8192 0).0)
        my_aes_key
        3).0
      ≡ ok (codes "hi"))
    × ((read_header (encrypted_message_svr evp (codes "hi") 10 8192 0).0).msg_type ≡ 10)
    × ((read_header (encrypted_message_svr evp (codes "hi") 10 8192 0).0).msg_id ≡ 8192)
    × ((read_header (encrypted_message_svr evp (codes "hi") 10 8192 0).0).is_encrypted ≡ 1)
    × ((read_header (encrypted_message_svr evp (codes "hi") 10 8192 0).0).msg_length
        ≡ length (encrypted_message_svr evp (codes "hi") 10 8192 0).0 % 2 ^ 32)
open-encrypted_message_svr_example =
    open-encrypted_message_svr evp (codes "hi") 10 8192 0 3 tt evp-EvpLaws (omega arith)
      (omega arith) framed-ne-nil refl

generate-repeats_example :
    (generate_unique_msg_id 5 [] ≡ generate_unique_msg_id 1048581 [])
    ↔ (5 % 2 ^ 20 ≡ 1048581 % 2 ^ 20)
generate-repeats_example = generate-repeats 5 1048581
