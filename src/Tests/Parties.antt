-- ===== src/Tests/Parties.antt =====
-- Two users, a server and the texts that pass between them.
use my_chat_project.Prelude.{◌≤◌, ℕ, ◌^◌, ◌<◌, ◌≢◌, arith, true, pos, codes, Str, [], ◌∷◌, length}
use my_chat_project.Externals.{num}
use my_chat_project.Protocol.Header.{header_bytes}
use my_chat_project.Protocol.Cipher.{aes256_cbc_encrypt, my_aes_key}
use my_chat_project.Protocol.Cipher.Roundtrip.{length-encrypt}
use my_chat_project.Protocol.Frame.{encrypted_message_svr}
use my_chat_project.Protocol.Frame.Open.{frame-ne-nil, length-frame}
use my_chat_project.Model.{User, default_user, offline}
use my_chat_project.Service.{Server}
use my_chat_project.Client.{Client, Now}
use my_chat_project.Exchange.Chat.{chat_fields}
use my_chat_project.Tests.Toys.{evp, evp-EvpLaws, zeros}
use my_chat_project.Tests.PlainJson.{code_of_object, code_of_value, code_of_text, assign_all, dump}

abbrev pub start : Server Str ℕ ℕ
start = record {
  conns = (pos 3, 30) ∷ [];
  db = [];
  redis = 0;
  rng = 0;
  tasks = [];
  sent = [];
  shut = [];
}

abbrev pub bob : Client ℕ ℕ ℕ
bob = record {
  current_user = default_user;
  friends = [];
  groups = [];
  wait_ack = (4096, codes "hi") ∷ [];
  retry_count = (4096, 0) ∷ [];
  send_time = (4096, 100) ∷ [];
  client_id = [];
  menu_running = true;
  rwsem = 0;
  login_success = true;
  rng = 5;
  socket = 0;
  history = 0;
  shown = [];
}

abbrev pub noon : Now
noon = record { seconds = 1; millis = 1000; text = codes "noon" }

pub sealed : (text : Str) (t id g : ℕ) → (encrypted_message_svr evp text t id g).0 ≢ []
unfolding encrypted_message_svr aes256_cbc_encrypt header_bytes zeros
sealed text t id g e = cc

pub length-sealed :
    (text : Str) (t id g : ℕ)
    → length text < 100000
    → length (encrypted_message_svr evp text t id g).0 < 2 ^ 32
unfolding encrypted_message_svr
length-sealed text t id g short =
    let inner = frame-ne-nil evp text t id g (sealed text t id g) in
    omega (
      arith,
      length-frame (aes256_cbc_encrypt evp text my_aes_key g).0 t id inner,
      length-encrypt evp text my_aes_key g evp-EvpLaws inner,
    )

pub length-sealed-le :
    (text : Str) (t id g : ℕ)
    → length text ≤ 4000
    → length (encrypted_message_svr evp text t id g).0 ≤ 4096
unfolding encrypted_message_svr
length-sealed-le text t id g short =
    let inner = frame-ne-nil evp text t id g (sealed text t id g) in
    omega (
      arith,
      length-frame (aes256_cbc_encrypt evp text my_aes_key g).0 t id inner,
      length-encrypt evp text my_aes_key g evp-EvpLaws inner,
    )

-- The ACK for message 4096.
abbrev pub ack_text : Str
ack_text = dump (assign_all (("msgId", num (pos 4096)) ∷ ("msgid", num (pos 102)) ∷ []))

abbrev pub hello : Str
hello =
    dump
      (assign_all (chat_fields (pos 2) (codes "ann") (pos 3) (codes "hello") (codes "noon") 4096))

pub hello-short : length hello < 100000
unfolding code_of_object
hello-short = omega arith

pub hello-fits : length hello ≤ 4000
unfolding code_of_object
hello-fits = omega arith

pub hello-ne-nil : hello ≢ []
unfolding code_of_object code_of_value code_of_text
hello-ne-nil e = cc

abbrev pub ann : User
ann = record { id = pos 2; name = codes "ann"; password = codes "pw"; state = offline }
