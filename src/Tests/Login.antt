-- ===== src/Tests/Login.antt =====
-- A login from the request to the client, at concrete inputs.
use my_chat_project.Protocol.Header.{msg_code}
use my_chat_project.Exchange.Texts.{Dumped}
use my_chat_project.Db.FriendModel
use my_chat_project.Db.GroupModel
use my_chat_project.Db.OfflineMsgModel
use my_chat_project.Prelude.{
  ◌≤◌, c_str, atoi, digits, to_string, ◌+◌, ℕ, ◌≡◌, refl, arith, true, false, some, List, [], ◌∷◌,
  ◌++◌, pos, to_int, to_u32, eq_int, eq_str, codes, Str, length, get_or, if◌then◌else◌, ◌==◌,
}
use my_chat_project.Exec.{ok}
use my_chat_project.Externals.{Externals, Row}
use my_chat_project.Model.{User, Group, GroupUser, default_user, online}
use my_chat_project.Db.UserModel
use my_chat_project.Service.Account.{
  member_json, group_json, friend_json, dump_all, is_empty, answer_fields, friend_fields,
  member_fields, group_fields, credentials_match, login,
}
use my_chat_project.Client.Screen.{user_data}
use my_chat_project.Client.Reliable.{on_receive_ack}
use my_chat_project.Client.Receive.{read_task}
use my_chat_project.Exchange.Rows.{received_friend, received_group}
use my_chat_project.Exchange.Answer.{kept}
use my_chat_project.Exchange.Chat.{client_side}
use my_chat_project.Exchange.Accepted.{login_request, Rows}
use my_chat_project.Exchange.LoggedIn.{receive-login}
use my_chat_project.Tests.Toys.{mysql, ann_row, evp-EvpLaws, socket, sqlite}
use my_chat_project.Tests.PlainJson.{
  code_of_object, Object, assign_all, dump, plain_json-JsonLaws, plain_server,
}
use my_chat_project.Tests.Parties.{start, bob, noon, sealed, length-sealed-le, ack_text, ann}

-- The answers of a database in which ann has a friend, who is in a group of hers, and no messages.
abbrev rows_of : Str → List Row
rows_of sql =
    if get_or sql 7 0 == b'*'
    then ann_row ∷ []
    else if get_or sql 7 0 == b'm'
    then []
    else if get_or sql 15 0 == b'g'
    then (some (codes "9") ∷ some (codes "club") ∷ some (codes "us") ∷ []) ∷ []
    else if get_or sql 28 0 == b','
    then (some (codes "3")
        ∷ some (codes "bob")
        ∷ some (codes "Online")
        ∷ some (codes "normal")
        ∷ [])
      ∷ []
    else (some (codes "3") ∷ some (codes "bob") ∷ some (codes "Online") ∷ []) ∷ []

abbrev server : Externals Object Str ℕ ℕ (Unit {0})
server = record plain_server {
  mysql = record mysql { use_result = λ sql. (some (rows_of sql), sql) };
}

abbrev friend : User
friend = record default_user { id = pos 3; name = codes "bob"; state = online }

abbrev member : GroupUser
member = record { user = friend; role = codes "normal" }

abbrev club : Group
club = record { id = pos 9; name = codes "club"; desc = codes "us"; users = member ∷ [] }

abbrev friend_text : Str
friend_text = dump (assign_all (friend_fields friend))

abbrev group_text : Str
group_text = dump (assign_all (group_fields club (dump (assign_all (member_fields member)) ∷ [])))

abbrev answer : Str
answer =
    dump (assign_all (answer_fields server ann (pos 4096) [] (friend_text ∷ []) (group_text ∷ [])))

answer-short : length answer ≤ 4000
unfolding code_of_object
answer-short = omega arith

ann-found :
    UserModel.query_user server.mysql (to_int (pos 2)) [] ≡ (ok ann, UserModel.query_sql (pos 2))
unfolding UserModel.query_user UserModel.query_sql to_string to_int digits atoi c_str
ann-found = refl

ann-Rows :
    Rows server
      (to_int (pos 2))
      []
      (friend ∷ [])
      (club ∷ [])
      (friend_text ∷ [])
      (group_text ∷ [])
      (UserModel.query_sql (pos 2))
unfolding OfflineMsgModel.query_messages OfflineMsgModel.query_sql to_string to_int digits is_empty
    FriendModel.query_friends FriendModel.query_sql atoi c_str GroupModel.query_groups
    GroupModel.groups_sql GroupModel.members_sql dump_all friend_json group_json member_json
ann-Rows = record {
  db1 = OfflineMsgModel.query_sql (pos 2);
  db2 = OfflineMsgModel.query_sql (pos 2);
  db3 = FriendModel.query_sql (pos 2);
  db4 = GroupModel.members_sql (pos 9);
  read = refl;
  removed = refl;
  friends_read = refl;
  groups_read = refl;
  friends_dumped = λ s. refl;
  groups_dumped = λ s. refl;
}

right : credentials_match ann (to_int (pos 2)) (codes "pw") ≡ true
unfolding credentials_match eq_int to_int eq_str
right = refl

down : eq_str ann.state online ≡ false
unfolding eq_str
down = refl

receive-login_example :
    (bytes ack : Str) × (rng : ℕ) × ((login server 10
        (assign_all (login_request (pos 2) (codes "pw") 4096))
        start).1.sent
      ≡ (10, bytes) ∷ (10, ack) ∷ [])
    × (read_task (client_side server socket sqlite) (bytes ++ []) noon bob ≡ (
        let acked =
          on_receive_ack
            (client_side server socket sqlite)
            (to_u32 (to_int (pos 4096)))
            (record bob { rng = rng }) in
        (
          ok true,
          record acked {
            current_user = record acked.current_user { id = to_int (pos 2); name = codes "ann" };
            friends = kept acked.friends (received_friend friend ∷ []);
            groups = kept acked.groups (received_group club ∷ []);
            shown =
                (acked.shown
                  ++ user_data
                      (record acked.current_user { id = to_int (pos 2); name = codes "ann" })
                      (kept acked.friends (received_friend friend ∷ []))
                      (kept acked.groups (received_group club ∷ [])))
                ++ [];
            login_success = true;
            rwsem = acked.rwsem + 1;
          },
        )))
unfolding Dumped to_int msg_code
receive-login_example =
    receive-login server socket sqlite 10 ann (pos 2) (codes "pw") 4096 [] [] (friend ∷ [])
      (club ∷ []) (friend_text ∷ []) (group_text ∷ []) answer ack_text []
      (UserModel.query_sql (pos 2)) tt noon start bob plain_json-JsonLaws evp-EvpLaws ann-found
      right down ann-Rows tt refl refl (sealed answer 10 (to_u32 (to_int (pos 4096))) 0)
      (length-sealed-le answer 10 (to_u32 (to_int (pos 4096))) 0 answer-short) refl
