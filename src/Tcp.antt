-- ===== src/Tcp.antt =====
-- tcp_client: the packets of the client and the streaming reader of the server's bytes.
pub mod ClientPacketId
pub mod Version
pub mod With
pub mod Writer
pub mod Wait
pub mod Reader
