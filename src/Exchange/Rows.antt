-- ===== src/Exchange/Rows.antt =====
-- src/client/main.cpp: doLoginResponse's readers on the texts of friends, members and groups.
use my_chat_project.Prelude.{subst, minus_one, eq_str, ◌≡◌, refl, some, List, [], map, to_int, Str}
use my_chat_project.Exec.{ok}
use my_chat_project.Externals.{ClientExternals, JsonLaws, assigned, or_earlier}
use my_chat_project.Model.{offline, User, GroupUser, Group}
use my_chat_project.Service.Account.{friend_fields, member_fields, group_fields}
use my_chat_project.Client.{Client}
use my_chat_project.Client.Login.{read_friend, read_member, read_group}
use my_chat_project.Exchange.Texts.{Dumped}
use my_chat_project.Exchange.Lists.{collect-Dumped}
use my_chat_project.Exchange.Reading.{
  number_or-object, text_or-object, texts_or_none-object, parse_text-dump,
}

-- What the client keeps of a row: all but the password, with the id as an `int`.
abbrev pub received_friend : User → User
received_friend user = record user { id = to_int user.id; password = [] }

abbrev pub received_member : GroupUser → GroupUser
received_member member = record member { user = received_friend member.user }

abbrev pub received_group : Group → Group
received_group group = record group {
  id = to_int group.id;
  users = map received_member group.users;
}

module _ {Json G Ctx K Q : Type 0} (y : ClientExternals Json G Ctx K Q)
    (laws : JsonLaws y.json) where
  pub read_friend-dump :
      (user : User) (text : Str) (c : Client G K Q)
      → y.json.dump (y.json.object (friend_fields user)) ≡ some text
      → read_friend y text c ≡ (ok (received_friend user), c)
  unfolding read_friend assigned or_earlier eq_str
  read_friend-dump user text c e =
      let fields = friend_fields user in
      rw
        (
          parse_text-dump y laws (y.json.object fields) text c e,
          number_or-object y laws fields "id" user.id minus_one c refl,
          text_or-object y laws fields "name" user.name [] c refl,
          text_or-object y laws fields "state" user.state offline c refl,
        )
        refl

  read_member-dump :
      (member : GroupUser) (text : Str) (c : Client G K Q)
      → y.json.dump (y.json.object (member_fields member)) ≡ some text
      → read_member y text c ≡ (ok (received_member member), c)
  unfolding read_member assigned or_earlier eq_str
  read_member-dump member text c e =
      let fields = member_fields member in
      rw
        (
          parse_text-dump y laws (y.json.object fields) text c e,
          number_or-object y laws fields "id" member.user.id minus_one c refl,
          text_or-object y laws fields "name" member.user.name [] c refl,
          text_or-object y laws fields "state" member.user.state offline c refl,
          text_or-object y laws fields "role" member.role [] c refl,
        )
        refl

  pub read_group-dump :
      (group : Group) (users : List Str) (text : Str) (c : Client G K Q)
      → y.json.dump (y.json.object (group_fields group users)) ≡ some text
      → Dumped y.json (λ member js. js ≡ y.json.object (member_fields member)) group.users users
      → read_group y text c ≡ (ok (received_group group), c)
  unfolding read_group assigned or_earlier eq_str
  read_group-dump group users text c e d =
      let fields = group_fields group users in
      rw
        (
          parse_text-dump y laws (y.json.object fields) text c e,
          number_or-object y laws fields "id" group.id minus_one c refl,
          text_or-object y laws fields "groupname" group.name [] c refl,
          text_or-object y laws fields "groupdesc" group.desc [] c refl,
          texts_or_none-object y laws fields "users" users c refl,
          collect-Dumped y.json (λ member js. js ≡ y.json.object (member_fields member))
              (read_member y) received_member
              (λ member text js s r h.
                read_member-dump member text s (subst (λ js. y.json.dump js ≡ some text) r h))
              group.users users c d,
        )
        refl
