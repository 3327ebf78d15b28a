-- ===== src/Routed.antt =====
-- netkit-routed/routed: the routing table of the RIP daemon.
pub mod Route
pub mod Interface
pub mod Inet
pub mod Table
pub mod Timer
pub mod Output
pub mod Update
pub mod Startup
pub mod Input
pub mod Message
mod Tests
