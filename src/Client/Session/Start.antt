-- ===== src/Client/Session/Start.antt =====
-- src/client/main.cpp: the initial globals, and main before its loop.
use my_chat_project.Prelude.{
  inl, inr, Bool-cases, Bool, true, false, Option, none, some, [], codes, refl, List, if◌then◌else◌,
}
use my_chat_project.Externals.{ClientExternals}
use my_chat_project.Model.{default_user}
use my_chat_project.Client.{Client}
use my_chat_project.Client.History.{sqlite_init}
use my_chat_project.Client.Retries.{IsTracked}
use my_chat_project.Client.Session.{Session, choosing, Event, run}
use my_chat_project.Client.Session.Tracking.{Alive, run-IsTracked}

-- The globals as they are initialised, over the states of the libraries.
abbrev pub initial : {G K Q : Type 0} → G → K → Q → Client G K Q
initial rng socket history = record {
  current_user = default_user;
  friends = [];
  groups = [];
  wait_ack = [];
  retry_count = [];
  send_time = [];
  client_id = [];
  menu_running = false;
  rwsem = 0;
  login_success = false;
  rng = rng;
  socket = socket;
  history = history;
  shown = [];
}

module _ {Json G Ctx K Q : Type 0} (x : ClientExternals Json G Ctx K Q) where
  -- After connect: the semaphore, the database of the history, whose failure is only logged, and the
  -- threads.
  unfoldable pub after_connect : Bool × K → Client G K Q → Option (Session G K Q)
  after_connect (true, k) c =
      let (r, h) = sqlite_init x.sqlite c.history in
      some (record { client = record c { socket = k; rwsem = 0; history = h }; mode = choosing })
  after_connect (false, k) c = none

  -- main before its loop; `none` where it exits.
  unfoldable pub start : Client G K Q → Option (Session G K Q)
  unfolding after_connect
  start c =
      let (made, k) = x.socket.open_socket c.socket in
      if made then after_connect (x.socket.connect_to (codes "127.0.0.1") 8000 k) c else none

  unfoldable pub run_from : Option (Session G K Q) → List Event → Option (Session G K Q)
  run_from none events = none
  run_from (some s) events = run x events s

  after_connect-IsTracked :
      (r : Bool × K) (c : Client G K Q) → IsTracked c → Alive x IsTracked (after_connect r c)
  unfolding after_connect
  after_connect-IsTracked (true, k) c h = h
  after_connect-IsTracked (false, k) c h = tt

  start-IsTracked : (c : Client G K Q) → IsTracked c → Alive x IsTracked (start c)
  unfolding start
  start-IsTracked c h = elim (Bool-cases (x.socket.open_socket c.socket).0) [
    | inl e ↦
        rw (e, start)
          (after_connect-IsTracked
            (x.socket.connect_to (codes "127.0.0.1") 8000 (x.socket.open_socket c.socket).1) c h)
    | inr e ↦ rw (e, start) tt
  ]

  run_from-IsTracked :
      (s : Option (Session G K Q)) (events : List Event)
      → Alive x IsTracked s
      → Alive x IsTracked (run_from s events)
  unfolding run_from
  run_from-IsTracked none events h = tt
  run_from-IsTracked (some s) events h = run-IsTracked x events s h

  -- Where each operation of a thread is one step: from the start of the client on, whatever is chosen, typed, received and timed, in any order:
  -- as long as the process goes on, the three maps of waiting messages have the same ids, each
  -- once, and no retry count passes RETRY_MAX.
  pub run_from-start :
      (rng : G) (socket : K) (history : Q) (events : List Event)
      → Alive x IsTracked (run_from (start (initial rng socket history)) events)
  run_from-start rng socket history events =
      run_from-IsTracked (start (initial rng socket history)) events (
        start-IsTracked (initial rng socket history)
          (record { retries = refl; times = refl; distinct = tt; bounded = tt }))
