-- ===== src/Tests/Client.antt =====
-- The client's reliable sending at concrete inputs.
use my_chat_project.Prelude.{List}
use my_chat_project.Client.Retries.Order.{waiting-any_order}
use my_chat_project.Prelude.{zero, suc, ◌+◌, ◌*◌}
use my_chat_project.Client.Retries.Message
use my_chat_project.Client.Retries.Message.{Sends, step}
use my_chat_project.Client.Retries.Message.Sent.{send_due, check_time_out-step}
use my_chat_project.Client.Retries.GiveUp.{Paced, last_time, rounds, waiting-rounds-none}
use my_chat_project.Prelude.{◌/◌}
use my_chat_project.Client.Pending.Keys.{has}
use my_chat_project.Prelude.{true, ℕ, suc, ◌≡◌, ◌≢◌, refl, arith, codes, some, none, [], ◌∷◌}
use my_chat_project.Model.{default_user}
use my_chat_project.Client.{Client, Now}
use my_chat_project.Client.Pending
use my_chat_project.Client.Reliable.{
  forget, touch_maps, check_message, check_messages, send_all, check_time_out_and_resend,
}
use my_chat_project.Client.Retries.{IsTracked}
use my_chat_project.Client.Retries.Rounds.{check-IsTracked}
use my_chat_project.Client.Retries.Sending.{TakesSome, send_all-ends}
use my_chat_project.Tests.Toys.{client_libraries, socket, take_ten}

-- Message 4096 has been sent again three times, message 8192 never.
abbrev waiting : Client ℕ ℕ ℕ
waiting = record {
  current_user = default_user;
  friends = [];
  groups = [];
  wait_ack = (4096, codes "old") ∷ (8192, codes "new") ∷ [];
  retry_count = (4096, 3) ∷ (8192, 0) ∷ [];
  send_time = (4096, 100) ∷ (8192, 200) ∷ [];
  client_id = [];
  menu_running = true;
  rwsem = 0;
  login_success = true;
  rng = 0;
  socket = 0;
  history = 0;
  shown = [];
}

abbrev later : Now
later = record { seconds = 3; millis = 2150; text = codes "now" }

waiting-IsTracked : IsTracked waiting
unfolding has
waiting-IsTracked = record {
  retries = refl;
  times = refl;
  distinct = (refl, (refl, tt));
  bounded = (omega arith, (omega arith, tt));
}

-- Message 4096 is late and is given up; message 8192 has time left.
check-later :
    (check_time_out_and_resend client_libraries later waiting).wait_ack ≡ (8192, codes "new") ∷ []
unfolding check_time_out_and_resend check_messages check_message Pending.read touch_maps
    Pending.touch forget Pending.erase
check-later = refl

check-IsTracked_example : IsTracked (check_time_out_and_resend client_libraries later waiting)
check-IsTracked_example = check-IsTracked client_libraries later waiting waiting-IsTracked

some-zero : {n : ℕ} → some (suc n) ≢ some 0
some-zero e = cc

socket-TakesSome : TakesSome socket
unfolding take_ten
socket-TakesSome b bytes k e = ground arith

send_all-ends_example : (send_all socket 20 (codes "twelve bytes") 0).0 ≢ none
send_all-ends_example =
    send_all-ends socket 20 (codes "twelve bytes") 0 socket-TakesSome (omega arith)

socket-Sends : Sends socket
unfolding take_ten
socket-Sends bytes k e = cc

check_time_out-step_example :
    ((id : ℕ)
      → Message.waiting id (check_time_out_and_resend client_libraries later waiting)
        ≡ step 2150 (Message.waiting id waiting))
    × ((check_time_out_and_resend client_libraries later waiting).socket
        ≡ send_due client_libraries 2150 waiting waiting.wait_ack waiting.socket)
unfolding has
check_time_out-step_example =
    check_time_out-step client_libraries later waiting socket-Sends (refl, (refl, tt))

abbrev at_millis : ℕ → Now
at_millis n = record { seconds = n / 1000; millis = n; text = [] }

-- So many rounds, 200 milliseconds apart.
unfoldable ticks : ℕ → ℕ → List Now
ticks zero t = []
ticks (suc k) t = at_millis (t + 200) ∷ ticks k (t + 200)

ticks-Paced : (k t : ℕ) → Paced 200 t (ticks k t)
unfolding ticks
ticks-Paced zero t = tt
ticks-Paced (suc k) t = (omega arith, ticks-Paced k (t + 200))

last_time-ticks : (k t : ℕ) → last_time t (ticks k t) ≡ t + k * 200
unfolding ticks
last_time-ticks zero t = omega arith
last_time-ticks (suc k) t = omega (arith, last_time-ticks k (t + 200))

waiting-rounds-none_example :
    Message.waiting 8192
      (rounds client_libraries (ticks 50 (Pending.read 8192 waiting.send_time)) waiting)
    ≡ none
waiting-rounds-none_example =
    waiting-rounds-none client_libraries 8192 200 (ticks 50 (Pending.read 8192 waiting.send_time))
      waiting socket-Sends waiting-IsTracked (ticks-Paced 50 (Pending.read 8192 waiting.send_time))
      (omega (arith, last_time-ticks 50 (Pending.read 8192 waiting.send_time)))

-- The semaphore has been posted by the answer to a registration.
abbrev registered : Client ℕ ℕ ℕ
registered = record waiting { rwsem = 1 }

other_order :
    (k : ℕ)
    → Pending.find k ((8192, codes "new") ∷ (4096, codes "old") ∷ [])
      ≡ Pending.find k ((4096, codes "old") ∷ (8192, codes "new") ∷ [])
unfolding Pending.find
other_order k = ground arith

waiting-any_order_example :
    Message.waiting 4096 (
      check_messages client_libraries 2150 ((8192, codes "new") ∷ (4096, codes "old") ∷ []) waiting)
    ≡ Message.waiting 4096 (check_time_out_and_resend client_libraries later waiting)
unfolding has
waiting-any_order_example =
    waiting-any_order client_libraries later 4096 ((8192, codes "new") ∷ (4096, codes "old") ∷ [])
      waiting socket-Sends (refl, (refl, tt)) (refl, (refl, tt)) other_order
