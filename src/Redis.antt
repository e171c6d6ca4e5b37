-- ===== src/Redis.antt =====
-- src/server/redis/redis.cpp. The other operations come after a successful `connect`: both contexts
-- are there.
pub mod Flush
use my_chat_project.Prelude.{
  ℕ, zero, suc, ◌+◌, Bool, true, false, ◌&&◌, Option, none, some, [], ◌∷◌, ℤ, pos, negsuc, Str,
  atoi, codes, c_str, eq_str, to_string, ltb, if◌then◌else◌,
}
use my_chat_project.Exec.{Exec, pure, ◌>>=◌}
use my_chat_project.Externals.{
  RedisLib, Reply, ReplyType, reply_string, reply_status, reply_integer, reply_other,
}

-- Redis::publish succeeds with any reply.
unfoldable pub is_reply : Option Reply → Bool
is_reply none = false
is_reply (some reply) = true

-- Redis::Get: a string reply, or nothing.
unfoldable pub string_reply : Option Reply → Option Str
string_reply none = none
string_reply (some reply) = elim reply.type [ reply_string ↦ some (c_str reply.str) | _ ↦ none ]

-- Redis::Set: the status OK.
unfoldable pub ok_reply : Option Reply → Bool
ok_reply none = false
ok_reply (some reply) = elim reply.type [
  | reply_status ↦ eq_str (c_str reply.str) (codes "OK")
  | _ ↦ false
]

is_positive : ℤ → Bool
is_positive (pos n) = ltb 0 n
is_positive (negsuc n) = false

-- Redis::Delete: a positive count.
unfoldable pub count_reply : Option Reply → Bool
unfolding is_positive
count_reply none = false
count_reply (some reply) = elim reply.type [ reply_integer ↦ is_positive reply.integer | _ ↦ false ]

-- What is reported of a reply: the channel and the message, where there is a message.
unfoldable pub channel_message : Option (Str × Option Str) → Option (ℤ × Str)
channel_message none = none
channel_message (some (channel, none)) = none
channel_message (some (channel, some message)) = some (atoi (c_str channel), c_str message)

unfoldable pub reported : Option (Option (Str × Option Str)) → Option (ℤ × Str)
unfolding channel_message
reported none = none
reported (some reply) = channel_message reply

module _ {Rs : Type 0} (r : RedisLib Rs) where
  -- Redis::connect: the publish context, then the subscribe context; the listening thread is started
  -- where it returns true.
  unfoldable pub connect : Rs → Bool × Rs
  connect s = let (up, s') = r.connect_context s in if up then r.connect_context s' else (false, s')

  -- while (!done) redisBufferWrite(...): the result of the enclosing function, `none` when the fuel
  -- runs out.
  unfoldable pub write_all : ℕ → Rs → Option Bool × Rs
  write_all zero s = (none, s)
  write_all (suc fuel) s =
      let (w, s') = r.buffer_write s in
      elim w [
        | none ↦ (some false, s')
        | some true ↦ (some true, s')
        | some false ↦ write_all fuel s'
      ]

  -- The command goes into the output buffer, and the buffer is written out. Each round that does not
  -- end the loop writes at least one byte, so one round more than there are bytes is enough.
  unfoldable pub send_command : Str → ℤ → Rs → Option Bool × Rs
  unfolding write_all
  send_command verb channel s =
      let (appended, s') = r.append_command (verb ∷ to_string channel ∷ []) s in
      let written = write_all (suc (r.pending s')) s' in
      if appended then written else (some false, s')

  -- Redis::subscribe
  unfoldable pub subscribe : ℤ → Rs → Option Bool × Rs
  unfolding send_command
  subscribe = send_command (codes "SUBSCRIBE")

  -- Redis::unsubscribe
  unfoldable pub unsubscribe : ℤ → Rs → Option Bool × Rs
  unfolding send_command
  unsubscribe = send_command (codes "UNSUBSCRIBE")

  -- Redis::publish
  unfoldable pub publish : ℤ → Str → Rs → Bool × Rs
  unfolding is_reply
  publish channel message s =
      let (reply, s') = r.command (codes "PUBLISH" ∷ to_string channel ∷ c_str message ∷ []) s in
      (is_reply reply, s')

  -- Redis::Get
  unfoldable pub get : Str → Rs → Option Str × Rs
  unfolding string_reply
  get key s =
      let (reply, s') = r.command (codes "GET" ∷ c_str key ∷ []) s in (string_reply reply, s')

  -- Redis::Set
  unfoldable pub set : Str → Str → ℕ → Rs → Bool × Rs
  unfolding ok_reply
  set key value expire_sec s =
      let (reply, s') =
        r.command
          (codes "SET" ∷ c_str key ∷ c_str value ∷ codes "EX" ∷ to_string (pos expire_sec) ∷ [])
          s in
      (ok_reply reply, s')

  -- Redis::Delete
  unfoldable pub delete : Str → Rs → Bool × Rs
  unfolding count_reply
  delete key s =
      let (reply, s') = r.command (codes "DEL" ∷ c_str key ∷ []) s in (count_reply reply, s')

  -- A round of observer_channel_message's loop: what it passes to the notify handler. The loop ends
  -- at the first error, which reports nothing either.
  unfoldable pub observe : Rs → Option (ℤ × Str) × Rs
  unfolding reported
  observe s = let (reply, s') = r.get_reply s in (reported reply, s')
