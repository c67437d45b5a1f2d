-- ===== src/Mux.antt =====
-- proxy/udp_mux.rs: the flows of datagrams that share a tunnel.
pub mod Frames
pub mod Demux
pub mod Chunks
pub mod Delivery
pub mod Flows
