-- ===== src/Exchange.antt =====
-- What src/server/chatservice.cpp sends and src/client/main.cpp reads: the two programs together.
pub mod Reading
pub mod Texts
pub mod Rows
pub mod Lists
pub mod Login
pub mod Answer
pub mod Loading
pub mod Frames
pub mod Acks
pub mod Chat
pub mod Registration
pub mod Typing
pub mod Forward
pub mod Accepted
pub mod LoggedIn
pub mod Group
pub mod Delivery
pub mod Recv
pub mod Shown
pub mod Resent
