-- ===== src/Tests/Group.antt =====
-- A group message between the server and two members at concrete inputs.
use my_chat_project.Prelude.{
  ◌≤◌, String, List, true, ℕ, ◌≡◌, refl, arith, pos, to_int, to_string, digits, atoi, c_str, codes,
  List, String, eq_int, Str, [], ◌∷◌, ◌++◌, length,
}
use my_chat_project.Exec.{ok, pure, ◌>>◌}
use my_chat_project.Externals.{JsonValue}
use my_chat_project.Protocol.Header.{msg_code}
use my_chat_project.Db.GroupModel
use my_chat_project.Service.{Server}
use my_chat_project.Service.Conns
use my_chat_project.Service.Chat.{group_chat}
use my_chat_project.Client.{group_line}
use my_chat_project.Client.Reliable.{on_receive_ack}
use my_chat_project.Client.Receive.{read_task, store}
use my_chat_project.Exchange.Chat.{client_side}
use my_chat_project.Exchange.Group.{group_chat_fields, receive-group_chat}
use my_chat_project.Tests.Toys.{evp-EvpLaws, socket, sqlite}
use my_chat_project.Tests.PlainJson.{
  code_of_object, assign_all, dump, plain_json-JsonLaws, plain_server,
}
use my_chat_project.Tests.Parties.{start, bob, noon, sealed, length-sealed-le, ack_text}

-- User 4's message to group 9, whose other members are users 2 and 3.
abbrev fields : List (String × JsonValue)
fields = group_chat_fields (pos 4) (codes "cy") (pos 9) (codes "hello") (codes "noon") 4096

abbrev greeting : Str
greeting = dump (assign_all fields)

greeting-short : length greeting ≤ 4000
unfolding code_of_object
greeting-short = omega arith

abbrev both : Server Str ℕ ℕ
both = record start { conns = (pos 3, 30) ∷ (pos 2, 20) ∷ [] }

members :
    GroupModel.query_group_users plain_server.mysql (to_int (pos 4)) (to_int (pos 9)) []
    ≡ (ok (pos 2 ∷ pos 3 ∷ []), GroupModel.group_users_sql (pos 4) (pos 9))
unfolding GroupModel.query_group_users GroupModel.group_users_sql to_string to_int digits atoi c_str
members = refl

receive-group_chat_example :
    (bytes ack : Str) × (rng : ℕ) × ((group_chat plain_server 10
        (plain_server.json.object fields)
        both).1.sent
      ≡ (20, bytes) ∷ (30, bytes) ∷ (10, ack) ∷ [])
    × (read_task (client_side plain_server socket sqlite) (bytes ++ []) noon bob
        ≡ (store
                (client_side plain_server socket sqlite)
                (codes "hello")
                (to_int (pos 4))
                (to_int (pos 9))
                10
                noon
              >> pure true)
            (let acked =
                on_receive_ack
                  (client_side plain_server socket sqlite)
                  4096
                  (record bob { rng = rng }) in
              record acked {
                shown = acked.shown ++ group_line (codes "noon") (codes "cy") (codes "hello") ∷ [];
              }))
unfolding to_int msg_code Conns.find eq_int
receive-group_chat_example =
    receive-group_chat plain_server socket sqlite 10 (pos 2 ∷ pos 3 ∷ []) (20 ∷ 30 ∷ []) (pos 4)
      (pos 9) (codes "cy") (codes "hello") (codes "noon") greeting ack_text [] 4096 tt
      (GroupModel.group_users_sql (pos 4) (pos 9)) noon both bob plain_json-JsonLaws evp-EvpLaws
      (omega arith) refl refl members (refl, (refl, tt)) (sealed greeting 10 4096 0)
      (length-sealed-le greeting 10 4096 0 greeting-short) refl
