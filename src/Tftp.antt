-- ===== src/Tftp.antt =====
-- The TFTP server of chapter6: the packets of tftp.go, and server.go.
pub mod Packet
pub mod ReadReq
pub mod Data
pub mod Ack
pub mod Err
pub mod Handler
pub mod Server
pub mod Main
