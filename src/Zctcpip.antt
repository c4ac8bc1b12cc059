-- ===== src/Zctcpip.antt =====
-- internal/zctcpip: IPv4, TCP, UDP and ICMP headers read and written in place, and the Internet
-- checksum. A packet is its bytes; a method that writes returns the new bytes; `none` is a panic.
pub mod Checksum
pub mod Ipv4
pub mod Header
pub mod Transport
pub mod Verified
mod Examples
