-- ===== src/Client/Session.antt =====
-- src/client/main.cpp: main, mainMenu and the three threads as one process. The main thread is in
-- the menu of main, has sent a login, waits on the semaphore, or is in mainMenu; the receiving
-- thread and the timeout thread take their steps in any order between its own.
pub mod Actions
pub mod Tracking
pub mod Semaphore
pub mod Start
use my_chat_project.Prelude.{
  ℕ, zero, suc, Bool, true, false, Option, none, some, List, [], ◌∷◌, ℤ, Str, if◌then◌else◌,
}
use my_chat_project.Exec.{Outcome, ok, throws, undefined}
use my_chat_project.Externals.{ClientExternals}
use my_chat_project.Client.{Client, Now}
use my_chat_project.Client.Reliable.{check_time_out_and_resend}
use my_chat_project.Client.Commands.{request_login, request_reg, menu_line}
use my_chat_project.Client.Receive.{read_task}

-- `clearing`: a login has been sent, and the flag of its success is still to be cleared.
pub data Mode : Type 0 where
  choosing clearing awaiting chatting : Mode

pub record Session (G K Q : Type 0) : Type 0 where
  pub client : Client G K Q
  pub mode : Mode

-- What may happen: a choice in the menu of main with what is typed in after it, main's next step
-- after it has sent a login, the return of sem_wait, a line for mainMenu, bytes from the server, a
-- round of the timeout thread.
pub data Event : Type 0 where
  choose_login : ℤ → Str → Now → Event
  choose_register : Str → Str → Now → Event
  choose_quit : Event
  choose_other : Event
  proceed : Event
  woken : Event
  line : Str → Now → Event
  received : Str → Now → Event
  timer : Now → Event

module _ {G K Q : Type 0} where
  -- An exception that leaves a thread ends the process, which `none` stands for.
  unfoldable pub go_on : Mode → Outcome (Unit {0}) × Client G K Q → Option (Session G K Q)
  go_on mode (ok u, c) = some (record { client = c; mode = mode })
  go_on mode (throws e, c) = none
  go_on mode (undefined, c) = none

  -- The test of mainMenu's loop.
  unfoldable pub menu_mode : Client G K Q → Mode
  menu_mode c = if c.menu_running then chatting else choosing

  unfoldable pub after_line : Outcome (Unit {0}) × Client G K Q → Option (Session G K Q)
  after_line (r, c) = go_on (menu_mode c) (r, c)

  -- The receiving thread ends the process where its loop ends.
  unfoldable pub after_receive : Mode → Outcome Bool × Client G K Q → Option (Session G K Q)
  after_receive mode (ok true, c) = some (record { client = c; mode = mode })
  after_receive mode (ok false, c) = none
  after_receive mode (throws e, c) = none
  after_receive mode (undefined, c) = none

  -- What main does after sem_wait.
  unfoldable pub enter_menu : Client G K Q → Session G K Q
  enter_menu c =
      if c.login_success
      then record { client = record c { menu_running = true }; mode = chatting }
      else record { client = c; mode = choosing }

  -- sem_wait returns where the semaphore is above 0, and takes 1 off.
  unfoldable pub wake : ℕ → Client G K Q → Session G K Q
  wake zero c = record { client = c; mode = awaiting }
  wake (suc n) c = enter_menu (record c { rwsem = n })

module _ {Json G Ctx K Q : Type 0} (x : ClientExternals Json G Ctx K Q) where
  -- What the main thread is not there for does not happen to it.
  unfoldable pub main_step : Event → Mode → Client G K Q → Option (Session G K Q)
  main_step (choose_login id pwd now) choosing c = go_on clearing (request_login x id pwd now c)
  main_step (choose_register name pwd now) choosing c =
      go_on choosing (request_reg x name pwd now c)
  main_step choose_quit choosing c = none
  main_step proceed clearing c =
      some (record { client = record c { login_success = false }; mode = awaiting })
  main_step woken awaiting c = some (wake c.rwsem c)
  main_step (line text now) chatting c = after_line (menu_line x text now c)
  main_step (received buf now) mode c = after_receive mode (read_task x buf now c)
  main_step (timer now) mode c =
      some (record { client = check_time_out_and_resend x now c; mode = mode })
  main_step event mode c = some (record { client = c; mode = mode })

  unfoldable pub run : List Event → Session G K Q → Option (Session G K Q)
  run [] s = some s
  run (event ∷ events) s = elim (main_step event s.mode s.client) [
    | none ↦ none
    | some s' ↦ run events s'
  ]
