-- ===== src/Redis/Flush.antt =====
-- src/server/redis/redis.cpp: the write loop of subscribe and unsubscribe.
use my_chat_project.Prelude.{
  ℕ, zero, suc, ◌<◌, ◌≡◌, ◌≢◌, arith, false, none, some, ◌∷◌, [], ℤ, Str, to_string,
}
use my_chat_project.Externals.{RedisLib}
use my_chat_project.Redis.{write_all, send_command}

-- redisBufferWrite on a blocking socket: a call that succeeds and is not done has written something.
abbrev pub Progress : {Rs : Type 0} → RedisLib Rs → Type 0
Progress {Rs} r =
    (s : Rs) → (r.buffer_write s).0 ≡ some false → r.pending (r.buffer_write s).1 < r.pending s

module _ {Rs : Type 0} (r : RedisLib Rs) where
  write_all-ends :
      (fuel : ℕ) (s : Rs) → Progress r → r.pending s < fuel → (write_all r fuel s).0 ≢ none
  unfolding write_all
  write_all-ends zero s progress h = absurd (omega arith)
  write_all-ends (suc fuel) s progress h =
      ground (arith, progress s, write_all-ends fuel (r.buffer_write s).1 progress)

  -- SUBSCRIBE and UNSUBSCRIBE return, with success or with an error: the loop that writes the buffer
  -- out ends within one round more than there are bytes in the buffer, where every round that
  -- does not end it writes a byte.
  pub send_command-ends :
      (verb : Str) (channel : ℤ) (s : Rs) → Progress r → (send_command r verb channel s).0 ≢ none
  unfolding send_command
  send_command-ends verb channel s progress =
      let sent = (r.append_command (verb ∷ to_string channel ∷ []) s).1 in
      ground (arith, write_all-ends (suc (r.pending sent)) sent progress)
