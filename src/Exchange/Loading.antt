-- ===== src/Exchange/Loading.antt =====
-- src/client/main.cpp: the loops of doLoginResponse over friends, groups and stored messages.
use my_chat_project.Prelude.{
  ◌∙◌, ap, sym, subst, append_assoc, append-nil, ◌≡◌, refl, some, List, [], ◌∷◌, ◌++◌, map, pos,
  to_int, Str, String, eq_int,
}
use my_chat_project.Exec.{ok, modify, ◌>>=◌}
use my_chat_project.Externals.{ClientExternals, JsonValue, txts, JsonLaws, assigned}
use my_chat_project.Protocol.Header.{msg_code}
use my_chat_project.Model.{User, Group, GroupUser}
use my_chat_project.Service.Account.{group_fields, friend_fields, member_fields}
use my_chat_project.Client.{Client, Line, chat_line, group_line, text_line}
use my_chat_project.Client.Login.{
  read_group, read_friend, load_friends, load_groups, show_offline, show_offline_messages,
}
use my_chat_project.Exchange.Texts.{Dumped}
use my_chat_project.Exchange.Rows.{
  received_friend, received_group, read_friend-dump, read_group-dump,
}
use my_chat_project.Exchange.Lists.{after_all, bind-ok, for_each-Dumped}
use my_chat_project.Exchange.Reading.{number_or-object, text_or-object, parse_text-dump}
use my_chat_project.Exchange.Answer.{kept, texts_value, IsChat}

module _ {G K Q : Type 0} where
  -- The steps of the client's loops.
  abbrev push_friend : User → Client G K Q → Client G K Q
  push_friend user c = record c { friends = c.friends ++ received_friend user ∷ [] }

  abbrev push_group : Group → Client G K Q → Client G K Q
  push_group group c = record c { groups = c.groups ++ received_group group ∷ [] }

  abbrev push_line : Line → Client G K Q → Client G K Q
  push_line line c = record c { shown = c.shown ++ line ∷ [] }

  after-friends :
      (friends : List User) (c : Client G K Q)
      → after_all push_friend friends c
        ≡ record c { friends = c.friends ++ map received_friend friends }
  unfolding after_all
  after-friends [] c = ap (λ f. record c { friends = f }) (sym (append-nil c.friends))
  after-friends (u ∷ friends) c =
      after-friends friends (record c { friends = c.friends ++ received_friend u ∷ [] })
      ∙ ap (λ f. record c { friends = f })
          (append_assoc c.friends (received_friend u ∷ []) (map received_friend friends))

  after-groups :
      (groups : List Group) (c : Client G K Q)
      → after_all push_group groups c ≡ record c { groups = c.groups ++ map received_group groups }
  unfolding after_all
  after-groups [] c = ap (λ f. record c { groups = f }) (sym (append-nil c.groups))
  after-groups (u ∷ groups) c =
      after-groups groups (record c { groups = c.groups ++ received_group u ∷ [] })
      ∙ ap (λ f. record c { groups = f })
          (append_assoc c.groups (received_group u ∷ []) (map received_group groups))

  after-shown :
      (lines : List Line) (c : Client G K Q)
      → after_all push_line lines c ≡ record c { shown = c.shown ++ lines }
  unfolding after_all
  after-shown [] c = ap (λ f. record c { shown = f }) (sym (append-nil c.shown))
  after-shown (u ∷ lines) c =
      after-shown lines (record c { shown = c.shown ++ u ∷ [] })
      ∙ ap (λ f. record c { shown = f }) (append_assoc c.shown (u ∷ []) lines)

module _ {Json G Ctx K Q : Type 0} (y : ClientExternals Json G Ctx K Q)
    (laws : JsonLaws y.json) where
  add_friend-dump :
      (user : User) (text : Str) (js : Json) (c : Client G K Q)
      → js ≡ y.json.object (friend_fields user)
      → y.json.dump js ≡ some text
      → (read_friend y text >>= λ user. modify (λ s. record s { friends = s.friends ++ user ∷ [] }))
          c
        ≡ (ok tt, push_friend user c)
  add_friend-dump user text js c r e =
      bind-ok (read_friend y text)
        (λ user. modify (λ s. record s { friends = s.friends ++ user ∷ [] })) (received_friend user)
        c c (read_friend-dump y laws user text c (subst (λ js. y.json.dump js ≡ some text) r e))

  pub load_friends-object :
      (fields : List (String × JsonValue)) (friends : List User) (texts : List Str)
      (c : Client G K Q)
      → assigned "friends" fields ≡ texts_value texts
      → Dumped y.json (λ user js. js ≡ y.json.object (friend_fields user)) friends texts
      → load_friends y (y.json.object fields) c
        ≡ (ok tt, record c { friends = kept c.friends (map received_friend friends) })
  unfolding load_friends kept Dumped
  load_friends-object fields [] [] c e d = rw (laws.has_none fields "friends" e) refl
  load_friends-object fields (u ∷ friends) [] c e d = absurd d
  load_friends-object fields [] (t ∷ texts) c e d = absurd d
  load_friends-object fields (u ∷ friends) (t ∷ texts) c e d =
      let loop =
        for_each-Dumped y.json (λ (user : User) js. js ≡ y.json.object (friend_fields user))
          (λ text. read_friend y text >>= λ user.
            modify (λ s. record s { friends = s.friends ++ user ∷ [] }))
          push_friend add_friend-dump (u ∷ friends) (t ∷ texts) (record c { friends = [] }) d in
      let pushed = after-friends (u ∷ friends) (record c { friends = [] }) in
      rw
        (
          laws.has_of fields "friends" (txts (t ∷ texts)) e,
          laws.texts_of fields "friends" (t ∷ texts) e,
        )
        (loop ∙ ap (λ (c : Client G K Q). (ok tt, c)) pushed)

  abbrev IsMember : GroupUser → Json → Type 0
  IsMember member js = js ≡ y.json.object (member_fields member)

  abbrev IsGroup : Group → Json → Type 0
  IsGroup group js =
      (texts : List Str) × (js ≡ y.json.object (group_fields group texts))
      × Dumped y.json IsMember group.users texts

  add_group-dump :
      (group : Group) (text : Str) (js : Json) (c : Client G K Q)
      → IsGroup group js
      → y.json.dump js ≡ some text
      → (read_group y text >>= λ group. modify (λ s. record s { groups = s.groups ++ group ∷ [] }))
          c
        ≡ (ok tt, push_group group c)
  add_group-dump group text js c (texts, r, d) e =
      bind-ok (read_group y text)
        (λ group. modify (λ s. record s { groups = s.groups ++ group ∷ [] })) (received_group group)
        c c
        (read_group-dump y laws group texts text c (subst (λ js. y.json.dump js ≡ some text) r e) d)

  pub load_groups-object :
      (fields : List (String × JsonValue)) (groups : List Group) (texts : List Str)
      (c : Client G K Q)
      → assigned "groups" fields ≡ texts_value texts
      → Dumped y.json IsGroup groups texts
      → load_groups y (y.json.object fields) c
        ≡ (ok tt, record c { groups = kept c.groups (map received_group groups) })
  unfolding load_groups kept Dumped
  load_groups-object fields [] [] c e d = rw (laws.has_none fields "groups" e) refl
  load_groups-object fields (u ∷ groups) [] c e d = absurd d
  load_groups-object fields [] (t ∷ texts) c e d = absurd d
  load_groups-object fields (u ∷ groups) (t ∷ texts) c e d =
      let loop =
        for_each-Dumped y.json IsGroup
          (λ text. read_group y text >>= λ group.
            modify (λ s. record s { groups = s.groups ++ group ∷ [] }))
          push_group add_group-dump (u ∷ groups) (t ∷ texts) (record c { groups = [] }) d in
      let pushed = after-groups (u ∷ groups) (record c { groups = [] }) in
      rw
        (
          laws.has_of fields "groups" (txts (t ∷ texts)) e,
          laws.texts_of fields "groups" (t ∷ texts) e,
        )
        (loop ∙ ap (λ (c : Client G K Q). (ok tt, c)) pushed)

  show_offline-dump :
      (line : Line) (text : Str) (js : Json) (c : Client G K Q)
      → IsChat y.json line js
      → y.json.dump js ≡ some text
      → show_offline y text c ≡ (ok tt, push_line line c)
  unfolding show_offline msg_code eq_int to_int
  show_offline-dump (chat_line time name msg) text js c (fields, r, t, a, n, m) e =
      rw
        (
          parse_text-dump y laws (y.json.object fields) text c
              (subst (λ js. y.json.dump js ≡ some text) r e),
          number_or-object y laws fields "msgid" (pos 6) (pos 0) c t,
          text_or-object y laws fields "time" time [] c a,
          text_or-object y laws fields "name" name [] c n,
          text_or-object y laws fields "msg" msg [] c m,
        )
        refl
  show_offline-dump (group_line time name msg) text js c (fields, r, t, a, n, m) e =
      rw
        (
          parse_text-dump y laws (y.json.object fields) text c
              (subst (λ js. y.json.dump js ≡ some text) r e),
          number_or-object y laws fields "msgid" (pos 10) (pos 0) c t,
          text_or-object y laws fields "time" time [] c a,
          text_or-object y laws fields "name" name [] c n,
          text_or-object y laws fields "msg" msg [] c m,
        )
        refl
  show_offline-dump (text_line line) text js c r e = absurd r

  pub show_offline_messages-object :
      (fields : List (String × JsonValue)) (lines : List Line) (texts : List Str) (c : Client G K Q)
      → assigned "offlinemsg" fields ≡ texts_value texts
      → Dumped y.json (IsChat y.json) lines texts
      → show_offline_messages y (y.json.object fields) c
        ≡ (ok tt, record c { shown = c.shown ++ lines })
  unfolding show_offline_messages Dumped after_all
  show_offline_messages-object fields [] [] c e d =
      rw (laws.has_none fields "offlinemsg" e)
        (ap (λ (c : Client G K Q). (ok tt, c)) (after-shown [] c))
  show_offline_messages-object fields (u ∷ lines) [] c e d = absurd d
  show_offline_messages-object fields [] (t ∷ texts) c e d = absurd d
  show_offline_messages-object fields (u ∷ lines) (t ∷ texts) c e d =
      let loop =
        for_each-Dumped y.json (IsChat y.json) (show_offline y) push_line show_offline-dump
          (u ∷ lines) (t ∷ texts) c d in
      rw
        (
          laws.has_of fields "offlinemsg" (txts (t ∷ texts)) e,
          laws.texts_of fields "offlinemsg" (t ∷ texts) e,
        )
        (loop ∙ ap (λ (c : Client G K Q). (ok tt, c)) (after-shown (u ∷ lines) c))
