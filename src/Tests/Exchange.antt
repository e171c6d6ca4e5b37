-- ===== src/Tests/Exchange.antt =====
-- Messages and ACKs between the server and a client at concrete inputs.
use my_chat_project.Exchange.Recv.{read_task-long}
use my_chat_project.Tests.Toys.{zeros, length-zeros}
use my_chat_project.Protocol.Cipher.{aes256_cbc_encrypt, my_aes_key}
use my_chat_project.Protocol.Cipher.Roundtrip.{length-encrypt}
use my_chat_project.Protocol.Frame.Open.{length-frame, frame-ne-nil}
use my_chat_project.Prelude.{false, Str, ◌<◌, length}
use my_chat_project.Service.Chat.{handle_redis_subscribe_message}
use my_chat_project.Exchange.Forward.{receive-handle_redis_subscribe_message}
use my_chat_project.Prelude.{digits, c_str, some, to_string}
use my_chat_project.Client.Pending
use my_chat_project.Client.Commands.{menu_line}
use my_chat_project.Protocol.MsgId.{generate_unique_msg_id}
use my_chat_project.Exchange.Typing.{receive-menu_line-chat}
use my_chat_project.Prelude.{
  eq_int, ℕ, ◌≡◌, refl, arith, true, pos, to_int, to_u32, codes, Str, [], ◌∷◌, ◌++◌, drop,
}
use my_chat_project.Exec.{ok, pure, ◌>>◌}
use my_chat_project.Protocol.Header.{header_size, msg_code}
use my_chat_project.Protocol.Cipher.{aes256_cbc_decrypt, my_aes_key}
use my_chat_project.Protocol.Frame.{encrypted_message_svr}
use my_chat_project.Service.{ack_to_client}
use my_chat_project.Service.Conns
use my_chat_project.ChatServer.{on_message}
use my_chat_project.Client.{Client, chat_line}
use my_chat_project.Client.Reliable.{on_receive_ack}
use my_chat_project.Client.Receive.{receive, read_task, receive_message, store}
use my_chat_project.Exchange.Frames.{receive-frame}
use my_chat_project.Exchange.Acks.{receive-ack_to_client}
use my_chat_project.Exchange.Chat.{client_side, rng_after}
use my_chat_project.Tests.Toys.{evp, evp-EvpLaws, socket, sqlite}
use my_chat_project.Tests.PlainJson.{
  code_of_object, plain_json-JsonLaws, plain_server, plain_client,
}
use my_chat_project.Tests.Parties.{
  start, bob, noon, sealed, length-sealed, length-sealed-le, hello-fits, ack_text, hello,
  hello-short, hello-ne-nil, ann,
}

receive-ack_to_client_example :
    (bytes : Str) × (rng : ℕ) × ((ack_to_client plain_server 10 (pos 4096) start).1.sent
      ≡ (10, bytes) ∷ [])
    × (receive plain_client (bytes ++ 1 ∷ 2 ∷ []) noon bob
        ≡ (ok true, on_receive_ack plain_client (to_u32 (pos 4096)) (record bob { rng = rng })))
unfolding msg_code code_of_object
receive-ack_to_client_example =
    receive-ack_to_client plain_server plain_client 10 (pos 4096) ack_text (1 ∷ 2 ∷ []) tt noon
      start bob plain_json-JsonLaws evp-EvpLaws refl refl refl
      (sealed ack_text 10 (to_u32 (pos 4096)) 0)
      (length-sealed ack_text 10 (to_u32 (pos 4096)) 0 (omega arith)) refl

receive-frame_example :
    receive plain_client ((encrypted_message_svr evp hello 10 4096 0).0 ++ 1 ∷ 2 ∷ []) noon bob
    ≡ (receive_message plain_client hello noon >> pure true) (record bob {
      rng =
          (aes256_cbc_decrypt evp
            (drop header_size (encrypted_message_svr evp hello 10 4096 0).0)
            my_aes_key
            5).1;
    })
receive-frame_example =
    receive-frame plain_client hello (1 ∷ 2 ∷ []) 10 4096 0 tt noon bob evp-EvpLaws (omega arith)
      (omega arith) (sealed hello 10 4096 0) (length-sealed hello 10 4096 0 hello-short) refl

-- Ann's client, which has not sent anything.
abbrev pub ann_client : Client ℕ ℕ ℕ
ann_client = record bob {
  current_user = ann;
  wait_ack = [];
  retry_count = [];
  send_time = [];
  rng = 7;
}

pub fresh_id : generate_unique_msg_id 1 [] ≡ ok 4096
unfolding generate_unique_msg_id
fresh_id = refl

receive-menu_line-chat_example :
    (request bytes ack : Str) × (rng : ℕ) × (Pending.find 4096
        (menu_line
          (client_side plain_server socket sqlite)
          (codes "chat:" ++ (to_string (pos 3) ++ 58 ∷ codes "hello"))
          noon
          ann_client).1.wait_ack
      ≡ some request)
    × ((on_message plain_server 10 request start).1.sent ≡ (30, bytes) ∷ (10, ack) ∷ [])
    × (read_task (client_side plain_server socket sqlite) (bytes ++ []) noon bob
        ≡ (store
                (client_side plain_server socket sqlite)
                (codes "hello")
                (to_int (pos 2))
                (to_int (pos 3))
                6
                noon
              >> pure true)
            (let acked =
                on_receive_ack
                  (client_side plain_server socket sqlite)
                  4096
                  (record bob { rng = rng }) in
              record acked {
                shown = acked.shown ++ chat_line (codes "noon") (codes "ann") (codes "hello") ∷ [];
              }))
unfolding to_int msg_code Conns.find eq_int c_str to_string digits
receive-menu_line-chat_example =
    receive-menu_line-chat plain_server socket sqlite 10 30 (pos 3) (codes "hello") hello ack_text
      [] 4096 tt tt noon noon ann_client bob start plain_json-JsonLaws evp-EvpLaws fresh_id
      (omega arith) refl hello-ne-nil refl (sealed hello 6 4096 7) refl refl (omega arith)
      (omega arith, refl)
      (sealed hello 10 4096 (rng_after plain_server (encrypted_message_svr evp hello 6 4096 7).0 0))
      (length-sealed-le hello 10 4096
        (rng_after plain_server (encrypted_message_svr evp hello 6 4096 7).0 0) hello-fits)
      refl

-- The same message of ann's, published by another server.
receive-handle_redis_subscribe_message_example :
    (bytes : Str) × (rng : ℕ) × ((handle_redis_subscribe_message plain_server (pos 3) hello start).0
      ≡ ok tt)
    × ((handle_redis_subscribe_message plain_server (pos 3) hello start).1.sent ≡ (30, bytes) ∷ [])
    × (read_task (client_side plain_server socket sqlite) (bytes ++ []) noon bob
        ≡ (store
                (client_side plain_server socket sqlite)
                (codes "hello")
                (to_int (pos 2))
                (to_int (pos 3))
                6
                noon
              >> pure true)
            (let acked =
                on_receive_ack
                  (client_side plain_server socket sqlite)
                  4096
                  (record bob { rng = rng }) in
              record acked {
                shown = acked.shown ++ chat_line (codes "noon") (codes "ann") (codes "hello") ∷ [];
              }))
unfolding Conns.find eq_int msg_code
receive-handle_redis_subscribe_message_example =
    receive-handle_redis_subscribe_message plain_server socket sqlite 30 (pos 3) (pos 2) (pos 3)
      (codes "ann") (codes "hello") (codes "noon") hello [] 4096 tt noon start bob
      plain_json-JsonLaws evp-EvpLaws (omega arith) refl refl (sealed hello 6 4096 0)
      (length-sealed-le hello 6 4096 0 hello-fits) refl

-- A message of 4096 bytes.
abbrev long_message : Str
long_message = zeros 4096

long_frame : 4096 < length (encrypted_message_svr evp long_message 10 4096 0).0
unfolding encrypted_message_svr
long_frame =
    let inner = frame-ne-nil evp long_message 10 4096 0 (sealed long_message 10 4096 0) in
    omega (
      arith,
      length-frame (aes256_cbc_encrypt evp long_message my_aes_key 0).0 10 4096 inner,
      length-encrypt evp long_message my_aes_key 0 evp-EvpLaws inner,
      length-zeros 4096,
    )

read_task-long_example :
    read_task plain_client ((encrypted_message_svr evp long_message 10 4096 0).0 ++ []) noon bob
    ≡ (ok false, bob)
read_task-long_example =
    read_task-long plain_client long_message [] 10 4096 0 noon bob (omega arith) (omega arith)
      long_frame (length-sealed long_message 10 4096 0 (omega (arith, length-zeros 4096)))
