-- ===== src/NetHandler.antt =====
-- net_handler: the process that talks to the clients Dawn and Shepherd.
pub mod Protocol
pub mod TcpConn
pub mod Sessions
pub mod UdpConn
mod Tests
