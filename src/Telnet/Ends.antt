-- ===== src/Telnet/Ends.antt =====
-- The client and the server as the two ends of an option, and what they make of it together.
pub mod Client
pub mod Server
pub mod Agree
