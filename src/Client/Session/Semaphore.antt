-- ===== src/Client/Session/Semaphore.antt =====
-- src/client/main.cpp: what the main thread's wait for the answer of a login waits for.
use my_chat_project.Prelude.{
  ℕ, suc, ◌≡◌, ◌∙◌, refl, ap, false, Option, none, some, List, [], ◌∷◌, ◌++◌,
}
use my_chat_project.Externals.{ClientExternals}
use my_chat_project.Client.{Client}
use my_chat_project.Client.Session.{
  Session, Event, choosing, clearing, proceed, woken, enter_menu, wake, main_step, run,
}

module _ {G K Q : Type 0} where
  enter_menu-false :
      (c : Client G K Q)
      → c.login_success ≡ false
      → enter_menu c ≡ record { client = c; mode = choosing }
  unfolding enter_menu
  enter_menu-false c e = rw (e)

  wake-false :
      (n m : ℕ) (c : Client G K Q)
      → m ≡ suc n
      → c.login_success ≡ false
      → wake m c ≡ record { client = record c { rwsem = n }; mode = choosing }
  unfolding wake
  wake-false n m c h e = rw (h, wake) (enter_menu-false (record c { rwsem = n }) e)

module _ {Json G Ctx K Q : Type 0} (x : ClientExternals Json G Ctx K Q) where
  after-step :
      (r : Option (Session G K Q)) (events more : List Event) (t : Session G K Q)
      → ((s : Session G K Q) → run x events s ≡ some t → run x (events ++ more) s ≡ run x more t)
      → ◌≡◌ {A = Option (Session G K Q)} (elim r [ none ↦ none | some s ↦ run x events s ]) (some t)
      → ◌≡◌ {A = Option (Session G K Q)}
          (elim r [ none ↦ none | some s ↦ run x (events ++ more) s ])
          (run x more t)
  after-step none events more t k e = cc
  after-step (some s) events more t k e = k s e

  run-append :
      (events more : List Event) (s t : Session G K Q)
      → run x events s ≡ some t
      → run x (events ++ more) s ≡ run x more t
  unfolding run
  run-append [] more s t e = ap (λ (s : Session G K Q). run x more s) (same e)
    where
      same : some s ≡ some t → s ≡ t
      same e = cc
  run-append (event ∷ events) more s t e =
      after-step (main_step x event s.mode s.client) events more t (λ s. run-append events more s t)
        e

  -- However a history has come to the point where main has sent a login and is about to clear the
  -- flag: where the semaphore is above 0 there, the next two steps of main, with no other between
  -- them, clear the flag and pass the wait, and main goes back to its first menu. So it does after the answer to a registration, which it does not
  -- wait for, and after an answer to this login that came in before, even one that had set the
  -- flag.
  pub run-clearing :
      (events : List Event) (s : Session G K Q) (c : Client G K Q) (n : ℕ)
      → run x events s ≡ some (record { client = c; mode = clearing })
      → c.rwsem ≡ suc n
      → run x (events ++ proceed ∷ woken ∷ []) s
        ≡ some (record { client = record c { login_success = false; rwsem = n }; mode = choosing })
  unfolding run main_step
  run-clearing events s c n e h =
      run-append events (proceed ∷ woken ∷ []) s (record { client = c; mode = clearing }) e
      ∙ ap some (wake-false n c.rwsem (record c { login_success = false }) h refl)
