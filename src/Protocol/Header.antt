-- ===== src/Protocol/Header.antt =====
-- include/public.hpp: EnMsgType and MsgHeader. A header travels as the bytes that the struct has
-- in memory, four little-endian words; the ACK packet of encrypt.cpp is such a header alone.
pub mod Layout
use my_chat_project.Prelude.{
  ℕ, ◌+◌, ◌*◌, ◌/◌, ◌%◌, ◌^◌, Str, Bool, ◌&&◌, ◌==◌, [], ◌∷◌, ◌++◌, drop, length, get_or,
}

pub data EnMsgType : Type 0 where
  login_msg logout_msg login_msg_ack reg_msg reg_msg_ack one_chat_msg add_friend_msg : EnMsgType
  create_group_msg add_group_msg group_chat_msg create_group_msg_ack add_group_msg_ack : EnMsgType
  ack_msg : EnMsgType

-- The value of an enumerator.
unfoldable pub msg_code : EnMsgType → ℕ
msg_code login_msg = 1
msg_code logout_msg = 2
msg_code login_msg_ack = 3
msg_code reg_msg = 4
msg_code reg_msg_ack = 5
msg_code one_chat_msg = 6
msg_code add_friend_msg = 7
msg_code create_group_msg = 8
msg_code add_group_msg = 9
msg_code group_chat_msg = 10
msg_code create_group_msg_ack = 11
msg_code add_group_msg_ack = 12
msg_code ack_msg = 102

pub record MsgHeader : Type 0 where
  pub msg_length : ℕ
  pub msg_type : ℕ
  pub msg_id : ℕ
  pub is_encrypted : ℕ

-- sizeof(MsgHeader)
abbrev pub header_size : ℕ
header_size = 16

-- The bytes of a uint32_t in memory, least significant first.
unfoldable pub word_bytes : ℕ → Str
word_bytes w = w % 256 ∷ w / 256 % 256 ∷ w / 65536 % 256 ∷ w / 16777216 % 256 ∷ []

-- string((char *)&header, sizeof(MsgHeader))
unfoldable pub header_bytes : MsgHeader → Str
unfolding word_bytes
header_bytes h =
    word_bytes h.msg_length
    ++ (word_bytes h.msg_type ++ (word_bytes h.msg_id ++ word_bytes h.is_encrypted))

-- The word that starts at a byte; 0 stands for the bytes past the end, which are never read.
unfoldable pub word_at : ℕ → Str → ℕ
word_at i b =
    get_or b i 0
    + get_or b (i + 1) 0 * 256
    + get_or b (i + 2) 0 * 65536
    + get_or b (i + 3) 0 * 16777216

-- (MsgHeader *)buf.data()
unfoldable pub read_header : Str → MsgHeader
unfolding word_at
read_header b = record {
  msg_length = word_at 0 b;
  msg_type = word_at 4 b;
  msg_id = word_at 8 b;
  is_encrypted = word_at 12 b;
}

-- buildACKPacket: the bytes that it copies into `sendBuf`; `bufLength` becomes their number.
unfoldable pub build_ack_packet : ℕ → Str
unfolding header_bytes msg_code
build_ack_packet msg_id = header_bytes (record {
  msg_length = header_size;
  msg_type = msg_code ack_msg;
  msg_id = msg_id;
  is_encrypted = 0;
})

-- isACKValid
unfoldable pub is_ack_valid : ℕ → MsgHeader → Bool
unfolding msg_code
is_ack_valid src_msg_id h = (h.msg_type == msg_code ack_msg) && (h.msg_id == src_msg_id)
