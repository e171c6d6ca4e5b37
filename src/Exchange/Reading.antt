-- ===== src/Exchange/Reading.antt =====
-- src/client/main.cpp: the client's readers of fields on objects that were put together by
-- assignments.
use my_chat_project.Prelude.{◌≡◌, refl, some, List, ℤ, to_int, Str, String}
use my_chat_project.Exec.{ok}
use my_chat_project.Externals.{ClientExternals, JsonValue, num, txt, txts, assigned, JsonLaws}
use my_chat_project.Client.{Client}
use my_chat_project.Client.Login.{get_number, text_or, number_or, texts_or_none, parse_text}

module _ {Json G Ctx K Q : Type 0} (y : ClientExternals Json G Ctx K Q)
    (laws : JsonLaws y.json) where
  pub get_number-object :
      (fields : List (String × JsonValue)) (key : String) (n : ℤ) (c : Client G K Q)
      → assigned key fields ≡ some (num n)
      → get_number y (y.json.object fields) key c ≡ (ok (to_int n), c)
  get_number-object fields key n c e = rw (laws.number_of fields key n e) refl

  pub number_or-object :
      (fields : List (String × JsonValue)) (key : String) (n fallback : ℤ) (c : Client G K Q)
      → assigned key fields ≡ some (num n)
      → number_or y (y.json.object fields) key fallback c ≡ (ok (to_int n), c)
  number_or-object fields key n fallback c e =
      rw (laws.has_of fields key (num n) e) (get_number-object fields key n c e)

  pub text_or-object :
      (fields : List (String × JsonValue)) (key : String) (t fallback : Str) (c : Client G K Q)
      → assigned key fields ≡ some (txt t)
      → text_or y (y.json.object fields) key fallback c ≡ (ok t, c)
  text_or-object fields key t fallback c e =
      rw (laws.has_of fields key (txt t) e) (rw (laws.text_of fields key t e) refl)

  pub texts_or_none-object :
      (fields : List (String × JsonValue)) (key : String) (ts : List Str) (c : Client G K Q)
      → assigned key fields ≡ some (txts ts)
      → texts_or_none y (y.json.object fields) key c ≡ (ok ts, c)
  unfolding texts_or_none
  texts_or_none-object fields key ts c e =
      rw (laws.has_of fields key (txts ts) e) (rw (laws.texts_of fields key ts e) refl)

  pub parse_text-dump :
      (js : Json) (text : Str) (c : Client G K Q)
      → y.json.dump js ≡ some text
      → parse_text y text c ≡ (ok js, c)
  parse_text-dump js text c e = rw (laws.parse_dump js text e) refl
