-- ===== src/Exchange/Login.antt =====
-- src/server/chatservice.cpp, login, and src/client/main.cpp, doLoginResponse: the answer of one
-- read by the other.
use my_chat_project.Prelude.{
  subst, ◌≡◌, refl, true, List, [], ◌++◌, map, ℤ, pos, to_int, Str, eq_int,
}
use my_chat_project.Exec.{ok}
use my_chat_project.Externals.{Externals, ClientExternals, JsonLaws}
use my_chat_project.Model.{User, Group, GroupUser}
use my_chat_project.Service.{Server}
use my_chat_project.Service.Account.{
  group_fields, friend_fields, dump_all, friend_json, group_json, answer_fields, member_fields,
}
use my_chat_project.Client.{Client, Line}
use my_chat_project.Client.Screen.{user_data, show_current_user_data}
use my_chat_project.Client.Login.{accept_login, do_login_response}
use my_chat_project.Exchange.Texts.{Dumped, friends-Dumped, groups-Dumped}
use my_chat_project.Exchange.Rows.{received_friend, received_group}
use my_chat_project.Exchange.Reading.{get_number-object, text_or-object}
use my_chat_project.Exchange.Answer.{kept, IsChat, answer_values}
use my_chat_project.Exchange.Loading.{
  load_friends-object, load_groups-object, show_offline_messages-object,
}

module _ {Json Db Rs G Ctx G' Ctx' K Q : Type 0} (x : Externals Json Db Rs G Ctx)
    (y : ClientExternals Json G' Ctx' K Q) where
  -- The answer of a successful login, whose texts are those that the server makes of the rows it
  -- has read and of stored chat messages, makes the client logged in as that user; it takes
  -- the friends and the groups, without passwords, where there are any, and otherwise keeps the lists
  -- it had; it shows what showCurrentUserData prints of that user and those lists, and then the
  -- messages. Both sides use the same json library, which behaves as
  -- documented; ids become what fits an `int`.
  pub do_login_response-answer :
      (user : User) (msg_id : ℤ) (lines : List Line) (friends : List User) (groups : List Group)
      (messages friend_texts group_texts : List Str) (c : Client G' K Q)
      (s0 s1 s2 s3 : Server Db Rs G)
      → JsonLaws y.json
      → x.json ≡ y.json
      → Dumped y.json (IsChat y.json) lines messages
      → dump_all x (friend_json x) friends s0 ≡ (ok friend_texts, s1)
      → dump_all x (group_json x) groups s2 ≡ (ok group_texts, s3)
      → do_login_response y
          (y.json.object (answer_fields x user msg_id messages friend_texts group_texts))
          c
        ≡ (
          ok tt,
          record c {
            current_user = record c.current_user { id = to_int user.id; name = user.name };
            friends = kept c.friends (map received_friend friends);
            groups = kept c.groups (map received_group groups);
            shown =
                (c.shown
                  ++ user_data
                      (record c.current_user { id = to_int user.id; name = user.name })
                      (kept c.friends (map received_friend friends))
                      (kept c.groups (map received_group groups)))
                ++ lines;
            login_success = true;
          },
        )
  unfolding do_login_response accept_login show_current_user_data eq_int to_int
  do_login_response-answer user msg_id lines friends groups messages friend_texts group_texts c s0
        s1 s2 s3 laws same dm df dg =
      let fields = answer_fields x user msg_id messages friend_texts group_texts in
      let (e0, e1, e2, e3, e4, e5) =
        answer_values x user msg_id messages friend_texts group_texts in
      let df' =
        subst
          (λ j.
            Dumped j (λ (user : User) js. js ≡ j.object (friend_fields user)) friends friend_texts)
          same (friends-Dumped x friends friend_texts s0 s1 df) in
      let dg' =
        subst
          (λ j.
            Dumped j
              (λ (group : Group) js.
                (texts : List Str) × (js ≡ j.object (group_fields group texts))
                × Dumped j (λ (member : GroupUser) js. js ≡ j.object (member_fields member))
                    group.users texts)
              groups group_texts)
          same (groups-Dumped x groups group_texts s2 s3 dg) in
      let c1 = record c { current_user = record c.current_user { id = to_int user.id } } in
      let c2 = record c {
        current_user = record c.current_user { id = to_int user.id; name = user.name };
      } in
      let c3 = record c2 { friends = kept c.friends (map received_friend friends) } in
      let c4 = record c3 { groups = kept c.groups (map received_group groups) } in
      let c5 = record c4 { shown = c4.shown ++ user_data c4.current_user c4.friends c4.groups } in
      rw
        (
          get_number-object y laws fields "errno" (pos 0) c e0,
          get_number-object y laws fields "id" user.id c e1,
          text_or-object y laws fields "name" user.name [] c1 e2,
          load_friends-object y laws fields friends friend_texts c2 e3 df',
          load_groups-object y laws fields groups group_texts c3 e4 dg',
          show_offline_messages-object y laws fields lines messages c5 e5 dm,
        )
        refl
