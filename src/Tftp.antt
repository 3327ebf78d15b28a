-- ===== src/Tftp.antt =====
-- netkit-tftp: the packet buffers of tftp/tftpsubs.c and the transfers of tftpd/tftpd.c over them.
pub mod Buffers
pub mod Packet
pub mod Segments
pub mod Sender
pub mod Receiver
pub mod Transfer
pub mod Request
pub mod Access
pub mod Client
mod Tests
mod RequestTests
