-- ===== src/Tunnel.antt =====
-- client/atrust: the byte formats of the L3 tunnel. Frames of data towards the server, the stream of
-- IP packets from it, packet metadata, the assignment of the virtual IP, and the choice of a packet's
-- resource.
pub mod Frames
pub mod Stream
pub mod Meta
pub mod Vip
pub mod Routing
mod Examples
