-- ===== src/Telnet.antt =====
-- netkit-telnet/telnet: the telnet client, and what it and the server make of each other.
pub mod Options
pub mod Receive
pub mod Ring
pub mod Screen
pub mod Send
pub mod Peer
pub mod Ends
mod Tests
