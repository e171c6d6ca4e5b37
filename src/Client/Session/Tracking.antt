-- ===== src/Client/Session/Tracking.antt =====
-- The maps of waiting messages over any history of the client.
use my_chat_project.Prelude.{
  inl, inr, Bool-cases, ℕ, zero, suc, Bool, true, false, Option, none, some, List, [], ◌∷◌,
}
use my_chat_project.Exec.{Outcome, ok, throws, undefined}
use my_chat_project.Externals.{ClientExternals}
use my_chat_project.Client.{Client}
use my_chat_project.Client.Receive.{read_task}
use my_chat_project.Client.Session.Actions.{
  request_login-IsTracked, request_reg-IsTracked, menu_line-IsTracked, read_task-IsTracked,
}
use my_chat_project.Client.Session.{
  Session, Mode, choosing, clearing, awaiting, chatting, Event, choose_login, choose_register,
  choose_quit, choose_other, proceed, woken, line, received, timer, go_on, after_line,
  after_receive, enter_menu, wake, main_step, run,
}
use my_chat_project.Client.Retries.{IsTracked}
use my_chat_project.Client.Retries.Rounds.{check-IsTracked}
use my_chat_project.Client.Commands.{menu_line}

module _ {Json G Ctx K Q : Type 0} (x : ClientExternals Json G Ctx K Q) where
  -- What holds of the client of a session, if the process has not ended.
  abbrev pub Alive : (Client G K Q → Type 0) → Option (Session G K Q) → Type 0
  Alive P none = Unit {0}
  Alive P (some s) = P s.client

  go_on-Alive :
      (P : Client G K Q → Type 0) (mode : Mode) (r : Outcome (Unit {0}) × Client G K Q)
      → P r.1
      → Alive P (go_on mode r)
  unfolding go_on
  go_on-Alive P mode (ok u, c) h = h
  go_on-Alive P mode (throws e, c) h = tt
  go_on-Alive P mode (undefined, c) h = tt

  after_receive-Alive :
      (P : Client G K Q → Type 0) (mode : Mode) (r : Outcome Bool × Client G K Q)
      → P r.1
      → Alive P (after_receive mode r)
  unfolding after_receive
  after_receive-Alive P mode (ok true, c) h = h
  after_receive-Alive P mode (ok false, c) h = tt
  after_receive-Alive P mode (throws e, c) h = tt
  after_receive-Alive P mode (undefined, c) h = tt

  then-Alive :
      (P : Client G K Q → Type 0) (r : Option (Session G K Q))
      (f : Session G K Q → Option (Session G K Q))
      → Alive P r
      → ((s : Session G K Q) → P s.client → Alive P (f s))
      → Alive P (elim r [ none ↦ none | some s ↦ f s ])
  then-Alive P none f h k = tt
  then-Alive P (some s) f h k = k s h

  enter_menu-IsTracked : (c : Client G K Q) → IsTracked c → IsTracked (enter_menu c).client
  unfolding enter_menu
  enter_menu-IsTracked c h = elim (Bool-cases c.login_success) [
    | inl yes_ ↦ rw (yes_, enter_menu) h
    | inr no_ ↦ rw (no_, enter_menu) h
  ]

  wake-IsTracked : (n : ℕ) (c : Client G K Q) → IsTracked c → IsTracked (wake n c).client
  unfolding wake
  wake-IsTracked zero c h = h
  wake-IsTracked (suc n) c h = enter_menu-IsTracked (record c { rwsem = n }) h

  -- Every event, in every mode, keeps the maps.
  main_step-IsTracked :
      (event : Event) (mode : Mode) (c : Client G K Q)
      → IsTracked c
      → Alive IsTracked (main_step x event mode c)
  unfolding main_step after_line
  main_step-IsTracked (choose_login id pwd now) choosing c h =
      go_on-Alive IsTracked clearing _ ((request_login-IsTracked x id pwd now).at c h)
  main_step-IsTracked (choose_login id pwd now) awaiting c h = h
  main_step-IsTracked (choose_login id pwd now) clearing c h = h
  main_step-IsTracked (choose_login id pwd now) chatting c h = h
  main_step-IsTracked (choose_register name pwd now) choosing c h =
      go_on-Alive IsTracked choosing _ ((request_reg-IsTracked x name pwd now).at c h)
  main_step-IsTracked (choose_register name pwd now) awaiting c h = h
  main_step-IsTracked (choose_register name pwd now) clearing c h = h
  main_step-IsTracked (choose_register name pwd now) chatting c h = h
  main_step-IsTracked choose_quit choosing c h = tt
  main_step-IsTracked choose_quit awaiting c h = h
  main_step-IsTracked choose_quit clearing c h = h
  main_step-IsTracked choose_quit chatting c h = h
  main_step-IsTracked choose_other choosing c h = h
  main_step-IsTracked choose_other awaiting c h = h
  main_step-IsTracked choose_other clearing c h = h
  main_step-IsTracked choose_other chatting c h = h
  main_step-IsTracked proceed choosing c h = h
  main_step-IsTracked proceed clearing c h = h
  main_step-IsTracked proceed awaiting c h = h
  main_step-IsTracked proceed chatting c h = h
  main_step-IsTracked woken choosing c h = h
  main_step-IsTracked woken clearing c h = h
  main_step-IsTracked woken awaiting c h = wake-IsTracked c.rwsem c h
  main_step-IsTracked woken chatting c h = h
  main_step-IsTracked (line text now) choosing c h = h
  main_step-IsTracked (line text now) awaiting c h = h
  main_step-IsTracked (line text now) clearing c h = h
  main_step-IsTracked (line text now) chatting c h =
      go_on-Alive IsTracked _ (menu_line x text now c) ((menu_line-IsTracked x text now).at c h)
  main_step-IsTracked (received buf now) mode c h =
      after_receive-Alive IsTracked mode (read_task x buf now c)
        ((read_task-IsTracked x buf now).at c h)
  main_step-IsTracked (timer now) mode c h = check-IsTracked x now c h

  -- Whatever is chosen, typed, received and timed, in any order: as long as the process goes on, the
  -- three maps of waiting messages have the same ids, each once, and no retry count passes RETRY_MAX,
  -- if that was so before.
  pub run-IsTracked :
      (events : List Event) (s : Session G K Q)
      → IsTracked s.client
      → Alive IsTracked (run x events s)
  unfolding run
  run-IsTracked [] s h = h
  run-IsTracked (event ∷ events) s h =
      then-Alive IsTracked (main_step x event s.mode s.client) (run x events)
        (main_step-IsTracked event s.mode s.client h) (run-IsTracked events)
