-- ===== src/Messages.antt =====
-- p9/messages.go: one record for each message, with its type and its layout.
pub mod Session
pub mod Walk
pub mod Open
pub mod Names
pub mod Make
pub mod Attributes
pub mod Transfer
pub mod Payload
pub mod Message
