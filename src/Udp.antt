-- ===== src/Udp.antt =====
-- tun/udp.rs: the frames in which datagrams go through the tunnel, and the packets of replies.
pub mod Frames
pub mod RoundTrip
pub mod Checksum
pub mod Packets
