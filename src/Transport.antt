-- ===== src/Transport.antt =====
-- The transports that carry payloads to the session (common/src/transport_*.cpp).
pub mod Common
pub mod InProcess
pub mod SocketLive
