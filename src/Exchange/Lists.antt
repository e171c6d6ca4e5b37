-- ===== src/Exchange/Lists.antt =====
-- src/client/main.cpp: doLoginResponse's loops over the texts of a list.
use my_chat_project.Prelude.{◌∙◌, ◌≡◌, refl, some, List, [], ◌∷◌, map, Str}
use my_chat_project.Exec.{Exec, ok, for_each, ◌>>=◌}
use my_chat_project.Externals.{JsonLib}
use my_chat_project.Client.Login.{collect}
use my_chat_project.Exchange.Texts.{Dumped}

-- The state after a loop whose body makes one step for each item.
unfoldable pub after_all : {S A : Type 0} → (A → S → S) → List A → S → S
after_all step [] s = s
after_all step (a ∷ items) s = after_all step items (step a s)

module _ {S : Type 0} where
  pub bind-ok :
      {A B : Type 0} (m : Exec S A) (f : A → Exec S B) (a : A) (s s' : S)
      → m s ≡ (ok a, s')
      → (m >>= f) s ≡ f a s'
  bind-ok m f a s s' e = rw (e) refl

module _ {S Json A : Type 0} (j : JsonLib Json) (R : A → Json → Type 0) where
  pub for_each-Dumped :
      (body : Str → Exec S (Unit {0})) (step : A → S → S)
      → ((a : A) (text : Str) (js : Json) (s : S)
          → R a js
          → j.dump js ≡ some text
          → body text s ≡ (ok tt, step a s))
      → (items : List A) (texts : List Str) (s : S) → Dumped j R items texts
      → for_each texts body s ≡ (ok tt, after_all step items s)
  unfolding for_each after_all Dumped
  for_each-Dumped body step each [] [] s d = refl
  for_each-Dumped body step each [] (t ∷ texts) s d = absurd d
  for_each-Dumped body step each (a ∷ items) [] s d = absurd d
  for_each-Dumped body step each (a ∷ items) (t ∷ texts) s ((js, r, e), d) =
      bind-ok (body t) (λ _. for_each texts body) tt s (step a s) (each a t js s r e)
      ∙ for_each-Dumped body step each items texts (step a s) d

  pub collect-Dumped :
      {B : Type 0} (read : Str → Exec S B) (g : A → B)
      → ((a : A) (text : Str) (js : Json) (s : S)
          → R a js
          → j.dump js ≡ some text
          → read text s ≡ (ok (g a), s))
      → (items : List A) (texts : List Str) (s : S) → Dumped j R items texts
      → collect read texts s ≡ (ok (map g items), s)
  unfolding collect Dumped
  collect-Dumped read g each [] [] s d = refl
  collect-Dumped read g each [] (t ∷ texts) s d = absurd d
  collect-Dumped read g each (a ∷ items) [] s d = absurd d
  collect-Dumped read g each (a ∷ items) (t ∷ texts) s ((js, r, e), d) =
      bind-ok (read t) _ (g a) s s (each a t js s r e)
      ∙ rw (collect-Dumped read g each items texts s d) refl
