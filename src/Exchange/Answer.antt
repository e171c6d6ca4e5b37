-- ===== src/Exchange/Answer.antt =====
-- src/server/chatservice.cpp, login: what the fields of its answer read as, and
-- src/client/main.cpp, doLoginResponse: the lists and lines that come of them.
use my_chat_project.Prelude.{none}
use my_chat_project.Protocol.Header.{msg_code}
use my_chat_project.Prelude.{
  ◌≡◌, refl, Option, some, none, List, [], ◌∷◌, ℤ, pos, Str, String, eq_str,
}
use my_chat_project.Externals.{Externals, JsonValue, num, txt, txts, JsonLib, assigned, or_earlier}
use my_chat_project.Protocol.Header.{msg_code, one_chat_msg, group_chat_msg}
use my_chat_project.Model.{User}
use my_chat_project.Service.Account.{answer_fields}
use my_chat_project.Client.{Line, chat_line, group_line, text_line}

-- A list that the client replaces only by one that is not empty.
unfoldable pub kept : {A : Type 0} → List A → List A → List A
kept old [] = old
kept old (a ∷ items) = a ∷ items

-- A field of the answer that is only there if the vector is not empty.
abbrev pub texts_value : List Str → Option JsonValue
texts_value [] = none
texts_value (t ∷ ts) = some (txts (t ∷ ts))

module _ {Json : Type 0} (j : JsonLib Json) where
  -- The object of a stored message whose line the client shows.
  abbrev pub IsChat : Line → Json → Type 0
  IsChat (chat_line time name msg) js =
      (fields : List (String × JsonValue)) × (js ≡ j.object fields)
      × (assigned "msgid" fields ≡ some (num (pos (msg_code one_chat_msg))))
      × (assigned "time" fields ≡ some (txt time))
      × (assigned "name" fields ≡ some (txt name))
      × (assigned "msg" fields ≡ some (txt msg))
  IsChat (group_line time name msg) js =
      (fields : List (String × JsonValue)) × (js ≡ j.object fields)
      × (assigned "msgid" fields ≡ some (num (pos (msg_code group_chat_msg))))
      × (assigned "time" fields ≡ some (txt time))
      × (assigned "name" fields ≡ some (txt name))
      × (assigned "msg" fields ≡ some (txt msg))
  IsChat (text_line text) js = ⊥

module _ {Json Db Rs G Ctx : Type 0} (x : Externals Json Db Rs G Ctx) where
  pub answer_values :
      (user : User) (msg_id : ℤ) (m f g : List Str)
      → (assigned "errno" (answer_fields x user msg_id m f g) ≡ some (num (pos 0)))
        × (assigned "id" (answer_fields x user msg_id m f g) ≡ some (num user.id))
        × (assigned "name" (answer_fields x user msg_id m f g) ≡ some (txt user.name))
        × (assigned "friends" (answer_fields x user msg_id m f g) ≡ texts_value f)
        × (assigned "groups" (answer_fields x user msg_id m f g) ≡ texts_value g)
        × (assigned "offlinemsg" (answer_fields x user msg_id m f g) ≡ texts_value m)
  unfolding assigned or_earlier eq_str
  answer_values user msg_id [] [] [] = (refl, refl, refl, refl, refl, refl)
  answer_values user msg_id [] [] (c ∷ g) = (refl, refl, refl, refl, refl, refl)
  answer_values user msg_id [] (b ∷ f) [] = (refl, refl, refl, refl, refl, refl)
  answer_values user msg_id [] (b ∷ f) (c ∷ g) = (refl, refl, refl, refl, refl, refl)
  answer_values user msg_id (a ∷ m) [] [] = (refl, refl, refl, refl, refl, refl)
  answer_values user msg_id (a ∷ m) [] (c ∷ g) = (refl, refl, refl, refl, refl, refl)
  answer_values user msg_id (a ∷ m) (b ∷ f) [] = (refl, refl, refl, refl, refl, refl)
  answer_values user msg_id (a ∷ m) (b ∷ f) (c ∷ g) = (refl, refl, refl, refl, refl, refl)

  -- What the client reads of the answer before doLoginResponse.
  pub answer_head :
      (user : User) (msg_id : ℤ) (m f g : List Str)
      → (assigned "msgid" (answer_fields x user msg_id m f g) ≡ some (num (pos 3)))
        × (assigned "msg" (answer_fields x user msg_id m f g) ≡ none)
        × (assigned "msgId" (answer_fields x user msg_id m f g) ≡ some (num msg_id))
  unfolding assigned or_earlier eq_str msg_code
  answer_head user msg_id [] [] [] = (refl, refl, refl)
  answer_head user msg_id [] [] (c ∷ g) = (refl, refl, refl)
  answer_head user msg_id [] (b ∷ f) [] = (refl, refl, refl)
  answer_head user msg_id [] (b ∷ f) (c ∷ g) = (refl, refl, refl)
  answer_head user msg_id (a ∷ m) [] [] = (refl, refl, refl)
  answer_head user msg_id (a ∷ m) [] (c ∷ g) = (refl, refl, refl)
  answer_head user msg_id (a ∷ m) (b ∷ f) [] = (refl, refl, refl)
  answer_head user msg_id (a ∷ m) (b ∷ f) (c ∷ g) = (refl, refl, refl)
