-- ===== src/Telnetd.antt =====
-- netkit-telnet/telnetd: the option negotiation and the input of the telnet server.
pub mod Options
pub mod Receive
pub mod Send
mod Tests
