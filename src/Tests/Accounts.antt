-- ===== src/Tests/Accounts.antt =====
-- Registration and login between the server and a client at concrete inputs.
use my_chat_project.Prelude.{
  to_string, digits, c_str, ℕ, ◌+◌, ◌<◌, ◌≡◌, refl, arith, true, false, pos, to_int, to_u32, codes,
  eq_str, Str, [], ◌∷◌, ◌++◌, length,
}
use my_chat_project.Exec.{ok}
use my_chat_project.Externals.{Externals, assigned, or_earlier}
use my_chat_project.Protocol.Header.{msg_code}
use my_chat_project.Model.{User, Group, default_user, online}
use my_chat_project.Db.UserModel
use my_chat_project.Service.Account.{
  member_json, dump_all, friend_json, group_json, answer_fields, friend_fields, member_fields,
  group_fields, reg,
}
use my_chat_project.Client.{chat_line, text_line}
use my_chat_project.Client.Screen.{user_data}
use my_chat_project.Client.Reliable.{on_receive_ack}
use my_chat_project.Client.Login.{do_login_response}
use my_chat_project.Client.Receive.{receive}
use my_chat_project.Exchange.Texts.{Dumped}
use my_chat_project.Exchange.Rows.{received_friend, received_group}
use my_chat_project.Exchange.Answer.{kept, IsChat}
use my_chat_project.Exchange.Login.{do_login_response-answer}
use my_chat_project.Exchange.Chat.{chat_fields, client_side}
use my_chat_project.Exchange.Registration.{
  reg_fields, reg_ack_fields, receive-reg-refused, receive-reg-accepted,
}
use my_chat_project.Tests.Toys.{mysql, evp-EvpLaws, socket, sqlite}
use my_chat_project.Tests.PlainJson.{
  code_of_object, Object, assign_all, dump, plain_json, plain_json-JsonLaws, plain_server,
  plain_client,
}
use my_chat_project.Tests.Parties.{start, bob, noon, sealed, length-sealed, ack_text, hello, ann}

abbrev reg_request : Str
reg_request = dump (assign_all (reg_fields (codes "ann") (codes "pw") 4096))

reg_request-short : length reg_request < 100000
unfolding code_of_object
reg_request-short = omega arith

abbrev new_user : User
new_user = record default_user { name = codes "ann"; password = codes "pw" }

-- The same server, on a database that does not let anyone in.
abbrev closed : Externals Object Str ℕ ℕ (Unit {0})
closed = record plain_server { mysql = record mysql { real_connect = λ db. (false, db) } }

refused : (UserModel.insert closed.mysql new_user []).0 ≡ ok (false, new_user)
unfolding UserModel.insert UserModel.insert_sql c_str to_int
refused = refl

receive-reg-refused_example :
    (bytes ack : Str) × (rng : ℕ) × ((reg closed 10
        (assign_all (reg_fields (codes "ann") (codes "pw") 4096))
        start).1.sent
      ≡ (10, bytes) ∷ (10, ack) ∷ [])
    × (receive (client_side closed socket sqlite) (bytes ++ []) noon bob
        ≡ (ok true, record bob { rng = rng }))
unfolding to_int msg_code
receive-reg-refused_example =
    receive-reg-refused closed socket sqlite 10 (codes "ann") (codes "pw") reg_request ack_text []
      4096 new_user tt noon start bob plain_json-JsonLaws evp-EvpLaws refused refl refl
      (sealed reg_request 10 (to_u32 (to_int (pos 4096))) 0)
      (length-sealed reg_request 10 (to_u32 (to_int (pos 4096))) 0 reg_request-short) refl

abbrev reg_answered : Str
reg_answered = dump (assign_all (reg_ack_fields (pos 5) (pos 4096)))

reg_answered-short : length reg_answered < 100000
unfolding code_of_object
reg_answered-short = omega arith

accepted :
    (UserModel.insert plain_server.mysql new_user []).0 ≡ ok (true, record new_user { id = pos 5 })
unfolding UserModel.insert UserModel.insert_sql c_str to_int
accepted = refl

receive-reg-accepted_example :
    (bytes ack : Str) × (rng : ℕ) × ((reg plain_server 10
        (assign_all (reg_fields (codes "ann") (codes "pw") 4096))
        start).1.sent
      ≡ (10, bytes) ∷ (10, ack) ∷ [])
    × (receive (client_side plain_server socket sqlite) (bytes ++ []) noon bob ≡ (
        let acked =
          on_receive_ack
            (client_side plain_server socket sqlite)
            (to_u32 (pos 4096))
            (record bob { rng = rng }) in
        (ok true, record acked { rwsem = acked.rwsem + 1 })))
unfolding to_int msg_code
receive-reg-accepted_example =
    receive-reg-accepted plain_server socket sqlite 10 (codes "ann") (codes "pw") reg_answered
      ack_text [] 4096 (record new_user { id = pos 5 }) tt noon start bob plain_json-JsonLaws
      evp-EvpLaws accepted refl refl (sealed reg_answered 10 (to_u32 (to_int (pos 4096))) 0)
      (length-sealed reg_answered 10 (to_u32 (to_int (pos 4096))) 0 reg_answered-short) refl

abbrev friend : User
friend = record { id = pos 3; name = codes "bob"; password = codes "secret"; state = online }

abbrev club : Group
club = record {
  id = pos 9;
  name = codes "club";
  desc = codes "us";
  users = record { user = friend; role = codes "normal" } ∷ [];
}

abbrev friend_text : Str
friend_text = dump (assign_all (friend_fields friend))

abbrev group_text : Str
group_text = dump (
    assign_all (
      group_fields club
        (dump (assign_all (member_fields (record { user = friend; role = codes "normal" }))) ∷ [])))

messages-Dumped :
    Dumped plain_json
      (IsChat plain_json)
      (chat_line (codes "noon") (codes "ann") (codes "hello") ∷ [])
      (hello ∷ [])
unfolding Dumped assigned or_earlier eq_str
messages-Dumped = (
  (
    _,
    (
      chat_fields (pos 2) (codes "ann") (pos 3) (codes "hello") (codes "noon") 4096,
      refl,
      refl,
      refl,
      refl,
      refl,
    ),
    refl,
  ),
  tt,
)

friends-dumped :
    dump_all plain_server (friend_json plain_server) (friend ∷ []) start
    ≡ (ok (friend_text ∷ []), start)
unfolding dump_all friend_json
friends-dumped = refl

groups-dumped :
    dump_all plain_server (group_json plain_server) (club ∷ []) start
    ≡ (ok (group_text ∷ []), start)
unfolding dump_all group_json member_json
groups-dumped = refl

the_lines :
    user_data ann (friend ∷ []) (club ∷ [])
    ≡ text_line (codes "===================login user====================")
      ∷ text_line (codes "current login user id: 2| name: ann")
      ∷ text_line (codes "-------------------friend list-------------------")
      ∷ text_line (codes "3 bob Online")
      ∷ text_line (codes "-------------------group list----------------------")
      ∷ text_line (codes "9 club us")
      ∷ text_line (codes "3 bob Online normal")
      ∷ text_line (codes "================================================")
      ∷ []
unfolding user_data to_string digits
the_lines = refl

do_login_response-answer_example :
    do_login_response plain_client
      (assign_all (
        answer_fields plain_server ann
          (pos 4096)
          (hello ∷ [])
          (friend_text ∷ [])
          (group_text ∷ [])))
      bob
    ≡ (
      ok tt,
      record bob {
        current_user = record default_user { id = to_int (pos 2); name = codes "ann" };
        friends = kept [] (received_friend friend ∷ []);
        groups = kept [] (received_group club ∷ []);
        shown =
            user_data
              (record default_user { id = to_int (pos 2); name = codes "ann" })
              (received_friend friend ∷ [])
              (received_group club ∷ [])
            ++ chat_line (codes "noon") (codes "ann") (codes "hello") ∷ [];
        login_success = true;
      },
    )
unfolding kept
do_login_response-answer_example =
    do_login_response-answer plain_server plain_client ann (pos 4096)
      (chat_line (codes "noon") (codes "ann") (codes "hello") ∷ []) (friend ∷ []) (club ∷ [])
      (hello ∷ []) (friend_text ∷ []) (group_text ∷ []) bob start start start start
      plain_json-JsonLaws refl messages-Dumped friends-dumped groups-dumped
