-- ===== src/Exchange/Texts.antt =====
-- src/server/chatservice.cpp: the texts that login makes of the rows it has read.
use my_chat_project.Prelude.{subst, sym, ◌≡◌, refl, Option, some, none, List, [], ◌∷◌, Str}
use my_chat_project.Exec.{
  Exec, Exception, Outcome, ok, throws, undefined, continue, or_throw, json_exception, ◌>>=◌,
}
use my_chat_project.Externals.{Externals, JsonLib}
use my_chat_project.Model.{User, GroupUser, Group}
use my_chat_project.Service.{Server}
use my_chat_project.Service.Account.{
  dump_all, friend_json, member_json, group_json, friend_fields, member_fields, group_fields,
}

-- Each text is the dump of an object that stands for its item.
unfoldable pub Dumped :
    {Json A : Type 0} (j : JsonLib Json) → (A → Json → Type 0) → List A → List Str → Type 0
Dumped j R [] [] = Unit {0}
Dumped {Json = Json} j R (a ∷ items) (t ∷ texts) =
    ((js : Json) × R a js × (j.dump js ≡ some t)) × Dumped j R items texts
Dumped j R _ _ = ⊥

module _ {S A B : Type 0} where
  continue_ok :
      (r : Outcome A) (f : A → Exec S B) (b : B) (s s' : S)
      → continue r f s ≡ (ok b, s')
      → (a : A) × (r ≡ ok a) × (f a s ≡ (ok b, s'))
  continue_ok (ok a) f b s s' e = (a, refl, e)
  continue_ok (throws z) f b s s' e = cc
  continue_ok undefined f b s s' e = cc

  -- Code that ends well consists of parts that do.
  pub bind_ok :
      (m : Exec S A) (f : A → Exec S B) (b : B) (s s' : S)
      → (m >>= f) s ≡ (ok b, s')
      → (a : A) × ((m s).0 ≡ ok a) × (f a (m s).1 ≡ (ok b, s'))
  bind_ok m f b s s' e = continue_ok (m s).0 f b (m s).1 s' e

or_throw_ok :
    {S A : Type 0} (o : Option A) (e : Exception) (a : A) (s : S)
    → (or_throw o e s).0 ≡ ok a
    → o ≡ some a
or_throw_ok none e a s h = cc
or_throw_ok (some b) e a s h = cc

ok_injective :
    {S A : Type 0} {a b : A} {s s' : S} → ◌≡◌ {A = Outcome A × S} (ok a, s) (ok b, s') → a ≡ b
ok_injective e = cc

ok-pair : {S A : Type 0} (p : Outcome A × S) (a : A) → p.0 ≡ ok a → p ≡ (ok a, p.1)
ok-pair p a e = rw (e) refl

module _ {Json Db Rs G Ctx : Type 0} (x : Externals Json Db Rs G Ctx) where
  module _ {A : Type 0} (f : A → Exec (Server Db Rs G) Json) (R : A → Json → Type 0) where
    -- What a loop of dumps has made, where each object stands for its item.
    pub dump_all-Dumped :
        ((a : A) (js : Json) (s : Server Db Rs G) → (f a s).0 ≡ ok js → R a js)
        → (items : List A) (texts : List Str) (s s' : Server Db Rs G)
        → dump_all x f items s ≡ (ok texts, s')
        → Dumped x.json R items texts
    unfolding Dumped dump_all
    dump_all-Dumped made [] [] s s' e = tt
    dump_all-Dumped made [] (t ∷ texts) s s' e = cc
    dump_all-Dumped made (a ∷ items) texts s s' e =
        let (js, made_js, e1) = bind_ok (f a) _ texts s s' e in
        let (text, dumped, e2) =
          bind_ok (or_throw (x.json.dump js) json_exception) _ texts (f a s).1 s' e1 in
        let (rest, made_rest, e3) = bind_ok (dump_all x f items) _ texts _ s' e2 in
        subst (Dumped x.json R (a ∷ items)) (ok_injective e3) (
          (
            js,
            made a js s made_js,
            or_throw_ok (x.json.dump js) json_exception text (f a s).1 dumped,
          ),
          dump_all-Dumped made items rest _ _ (ok-pair _ rest made_rest),
        )

  -- The objects that login makes of friends, members and groups.
  abbrev pub IsFriend : User → Json → Type 0
  IsFriend user js = js ≡ x.json.object (friend_fields user)

  abbrev pub IsMember : GroupUser → Json → Type 0
  IsMember member js = js ≡ x.json.object (member_fields member)

  abbrev pub IsGroup : Group → Json → Type 0
  IsGroup group js =
      (texts : List Str) × (js ≡ x.json.object (group_fields group texts))
      × Dumped x.json IsMember group.users texts

  pub friends-Dumped :
      (friends : List User) (texts : List Str) (s s' : Server Db Rs G)
      → dump_all x (friend_json x) friends s ≡ (ok texts, s')
      → Dumped x.json IsFriend friends texts
  unfolding friend_json
  friends-Dumped = dump_all-Dumped (friend_json x) IsFriend (λ user js s e. cc)

  members-Dumped :
      (members : List GroupUser) (texts : List Str) (s s' : Server Db Rs G)
      → dump_all x (member_json x) members s ≡ (ok texts, s')
      → Dumped x.json IsMember members texts
  unfolding member_json
  members-Dumped = dump_all-Dumped (member_json x) IsMember (λ member js s e. cc)

  group_json-IsGroup :
      (group : Group) (js : Json) (s : Server Db Rs G)
      → (group_json x group s).0 ≡ ok js
      → IsGroup group js
  unfolding group_json
  group_json-IsGroup group js s e =
      let (texts, made, e1) =
        bind_ok (dump_all x (member_json x) group.users) _ js s _
          (ok-pair (group_json x group s) js e) in
      (texts, sym (ok_injective e1), members-Dumped group.users texts s _ (ok-pair _ texts made))

  pub groups-Dumped :
      (groups : List Group) (texts : List Str) (s s' : Server Db Rs G)
      → dump_all x (group_json x) groups s ≡ (ok texts, s')
      → Dumped x.json IsGroup groups texts
  groups-Dumped = dump_all-Dumped (group_json x) IsGroup group_json-IsGroup
