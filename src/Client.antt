-- ===== src/Client.antt =====
-- client.cpp: the multiplexer's side towards the programs that use it.
pub mod Reply
pub mod Notify
pub mod Plist
pub mod Pairing
pub mod Command
pub mod Dispatch
pub mod Socket
