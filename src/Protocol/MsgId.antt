-- ===== src/Protocol/MsgId.antt =====
-- src/server/encrypt.cpp, generateUniqueMsgId.
pub mod Repeats
use Prim.Native.Nat.{bit_or}
use my_chat_project.Prelude.{
  ℕ, zero, suc, ◌+◌, ◌-◌, ◌*◌, ◌%◌, ◌^◌, Bool, ◌&&◌, ◌||◌, true, false, Option, none, some, [], ◌∷◌,
  Str, ℤ, pos, negsuc, to_u32, is_digit, is_space, read_digits, negate, length, drop, ltb, ◌==◌,
  if◌then◌else◌,
}
use my_chat_project.Exec.{Outcome, ok, throws, runtime_error}

-- strtol's reading with at least one digit; `none` is std::invalid_argument.
stoi_digits : Str → Option ℕ
stoi_digits [] = none
stoi_digits (c ∷ s) = if is_digit c then some (read_digits 0 (c ∷ s)) else none

map_int : (ℕ → ℤ) → Option ℕ → Option ℤ
map_int f none = none
map_int f (some n) = some (f n)

stoi_signed : Str → Option ℤ
unfolding stoi_digits map_int
stoi_signed [] = none
stoi_signed (c ∷ s) =
    if c == b'-'
    then map_int negate (stoi_digits s)
    else if c == b'+'
    then map_int pos (stoi_digits s)
    else map_int pos (stoi_digits (c ∷ s))

-- std::stoi, on the at most four characters that the program gives it.
unfoldable pub stoi : Str → Option ℤ
unfolding stoi_signed
stoi [] = none
stoi (c ∷ s) = let rest = stoi s in if is_space c then rest else stoi_signed (c ∷ s)

-- `%` of C++, which rounds towards zero.
unfoldable pub rem_int : ℤ → ℕ → ℤ
rem_int (pos n) m = pos (n % m)
rem_int (negsuc n) m = negate (suc n % m)

msg_id_of : ℕ → Option ℤ → Outcome ℕ
msg_id_of ts none = throws runtime_error
msg_id_of ts (some z) = ok (bit_or (ts * 2 ^ 12 % 2 ^ 32) (to_u32 (rem_int z 10000)))

-- The last four characters; substr throws where there are fewer, since size() - 4 wraps round.
suffix_id : ℕ → Str → Outcome ℕ
unfolding msg_id_of stoi rem_int
suffix_id ts client_id =
    if ltb (length client_id) 4
    then throws runtime_error
    else msg_id_of ts (stoi (drop (length client_id - 4) client_id))

-- generateUniqueMsgId at the time `now` (seconds since the epoch).
unfoldable pub generate_unique_msg_id : ℕ → Str → Outcome ℕ
unfolding suffix_id
generate_unique_msg_id now [] = ok (bit_or (now % 2 ^ 32 * 2 ^ 12 % 2 ^ 32) 0)
generate_unique_msg_id now (c ∷ client_id) = suffix_id (now % 2 ^ 32) (c ∷ client_id)
