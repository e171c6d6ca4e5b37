-- ===== src/Tests.antt =====
-- The theorems at concrete inputs, over small instances of the libraries.
pub mod Toys
pub mod PlainJson
pub mod Wire
pub mod Server
pub mod Client
pub mod Clock
pub mod Exchange
pub mod Parties
pub mod Accounts
pub mod Storage
pub mod Login
pub mod Group
pub mod Resent
pub mod Threads
pub mod Lost
pub mod Effects
