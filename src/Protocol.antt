-- ===== src/Protocol.antt =====
-- The wire protocol that server and client share (include/public.hpp, src/server/encrypt.cpp):
-- the message types, the 16-byte header, the AES envelope, message ids and ACK packets.
pub mod Header
pub mod Cipher
pub mod MsgId
pub mod Frame
