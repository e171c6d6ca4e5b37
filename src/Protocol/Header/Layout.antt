-- ===== src/Protocol/Header/Layout.antt =====
-- The bytes of a MsgHeader (include/public.hpp) and its fields.
use my_chat_project.Prelude.{
  ℕ, ◌^◌, ◌<◌, ◌≡◌, ◌↔◌, refl, arith, true, Str, ◌++◌, length, drop, drop-append_length,
}
use my_chat_project.Protocol.Header.{
  MsgHeader, header_size, header_bytes, read_header, build_ack_packet, is_ack_valid,
}

-- Every field is a uint32_t.
pub record IsHeader (h : MsgHeader) : Type 0 where
  pub length_word : h.msg_length < 2 ^ 32
  pub type_word : h.msg_type < 2 ^ 32
  pub id_word : h.msg_id < 2 ^ 32
  pub encrypted_word : h.is_encrypted < 2 ^ 32

pub length-header_bytes : (h : MsgHeader) → length (header_bytes h) ≡ header_size
unfolding header_bytes
length-header_bytes h = refl

-- A header of uint32_t fields is read back from its bytes, whatever payload follows them.
pub read_header-header_bytes :
    (h : MsgHeader) (payload : Str) → IsHeader h → read_header (header_bytes h ++ payload) ≡ h
unfolding read_header header_bytes
read_header-header_bytes h payload v = ground arith

pub drop-header_bytes :
    (h : MsgHeader) (payload : Str) → drop header_size (header_bytes h ++ payload) ≡ payload
drop-header_bytes h payload = drop-append_length 16 (header_bytes h) payload (length-header_bytes h)

-- The packet that `buildACKPacket` makes for a message id, a uint32_t, is valid for that id and for
-- no other.
pub is_ack_valid-build_ack_packet :
    (msg_id other : ℕ)
    → msg_id < 2 ^ 32
    → (is_ack_valid other (read_header (build_ack_packet msg_id)) ≡ true) ↔ (msg_id ≡ other)
unfolding build_ack_packet read_header is_ack_valid
is_ack_valid-build_ack_packet msg_id other h = ground arith
