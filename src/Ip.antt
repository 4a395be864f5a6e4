-- ===== src/Ip.antt =====
-- Sending and receiving IP packets: sendFrame (src/packetio.cc), sendIPPacket and recvFrame
-- (src/ip.cc), forward (src/forward.cc). What reaches pcap_sendpacket is collected in order: the
-- index of the device and the bytes. pcap_sendpacket's own result only feeds the counter `ret` of
-- sendIPPacket, which nothing reads, so it is left out.
pub mod Host
pub mod Arp
pub mod Recv
pub mod Announce
pub mod Learning
pub mod Hearing
mod Tests
