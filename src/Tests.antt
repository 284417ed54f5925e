-- ===== src/Tests.antt =====
-- Runs of the simulator and of the codec on concrete data.
mod Sample
mod Session
mod Protocol
mod Transport
mod Config
mod Pictures
mod SocketLive
