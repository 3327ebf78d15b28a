-- ===== src/Talkd.antt =====
-- netkit-ntalk/talkd: the talk daemon's table of invitations and its requests.
pub mod Message
pub mod Table
pub mod Process
mod Tests
