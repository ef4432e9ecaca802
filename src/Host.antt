-- ===== src/Host.antt =====
-- host/main.c: the HTTP service in front of the TA.
pub mod Libraries
pub mod Text
pub mod Session
pub mod Message
pub mod Answer
pub mod Handlers
pub mod Http
pub mod Successes
pub mod Refused
pub mod RequestLine
pub mod Connected
pub mod Network
pub mod Server
pub mod Answered
