-- ===== src/Protocol.antt =====
-- The wire protocol: message kinds and headers, the frame codec, the field codec and the payloads.
pub mod Messages
pub mod Frame
pub mod Fields
pub mod Numbers
pub mod Payloads
